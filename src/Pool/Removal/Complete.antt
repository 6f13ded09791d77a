-- ===== src/Pool/Removal/Complete.antt =====
-- `RemoveAll` when every database can be removed.
use integresql.Prelude.{
  ℕ, zero, suc, ◌≤◌, ◌≡◌, refl, sym, ap, ◌∙◌, true, false, Option, none, some, List, [], arith,
  length, get_elem?, take,
}
use integresql.Prelude.Counting.{without, length-without-le}
use integresql.Prelude.Lists.{
  length-take_le, take-take_le, take-length, get_elem?-of_lt, get_elem?-take-some,
}
use integresql.Errors.{Err, ok, done}
use integresql.Database.{TestDatabase}
use integresql.Pool.{HashPool, ExistingDb}
use integresql.Pool.Channel.{exclude_id_from_channel-without}
use integresql.Pool.Removal.{
  shrink, drop_id, remove_step, remove_from, close_all, finish_removal, remove_stopped,
}
use integresql.Pool.Removal.Partial.{shorter, remove_from-next}

-- A channel without the ids below `n`.
abbrev pub without_below : ℕ → List ℕ → List ℕ
without_below zero ch = ch
without_below (suc n) ch = without_below n (without n ch)

module _ (remove : TestDatabase → Option Err) where
  -- The last round, which leaves the slice of the databases alone.
  remove_from-one :
      (p : HashPool) (c : ExistingDb)
      → length p.dbs ≡ 1
      → get_elem? p.dbs 0 ≡ some c
      → remove c.test_database ≡ none
      → length p.dirty ≤ p.max_pool_size
      → length p.ready ≤ p.max_pool_size
      → remove_from remove 1 p
        ≡ done (record p { dirty = without 0 p.dirty; ready = without 0 p.ready }, ok tt)
  unfolding remove_from remove_step shrink drop_id
  remove_from-one p c len at gone dirty_room ready_room = ground (
    arith,
    exclude_id_from_channel-without p.max_pool_size 0 p.dirty dirty_room,
    exclude_id_from_channel-without p.max_pool_size 0 p.ready ready_room,
  )

  remove_from-all :
      (m : ℕ) (p : HashPool)
      → length p.dbs ≡ suc m
      → ((i : ℕ) (c : ExistingDb) → get_elem? p.dbs i ≡ some c → remove c.test_database ≡ none)
      → length p.dirty ≤ p.max_pool_size
      → length p.ready ≤ p.max_pool_size
      → remove_from remove (suc m) p
        ≡ done (
          record p {
            dbs = take 1 p.dbs;
            dirty = without_below (suc m) p.dirty;
            ready = without_below (suc m) p.ready;
          },
          ok tt,
        )
  remove_from-all zero p len removable dirty_room ready_room =
      let (c, found) = get_elem?-of_lt p.dbs 0 (omega arith) in
      let whole : take 1 p.dbs ≡ p.dbs =
        ap (λ (n : ℕ). take n p.dbs) (sym len) ∙ take-length p.dbs in
      rw whole (remove_from-one p c len found (removable 0 c found) dirty_room ready_room)
  remove_from-all (suc m) p len removable dirty_room ready_room =
      let (c, found) = get_elem?-of_lt p.dbs (suc m) (omega arith) in
      let next =
        remove_from-next remove (suc m) p c len (omega arith) found (removable (suc m) c found)
          dirty_room ready_room in
      let ih =
        remove_from-all m (shorter (suc m) p) (length-take_le (suc m) p.dbs (omega arith))
          (λ i d at. removable i d (get_elem?-take-some (suc m) p.dbs i d at))
          (omega (arith, length-without-le (suc m) p.dirty, dirty_room))
          (omega (arith, length-without-le (suc m) p.ready, ready_room)) in
      next ∙ ih ∙ rw (take-take_le 1 (suc m) p.dbs (omega arith)) refl

  -- `RemoveAll` on a stopped pool whose databases can all be removed returns without an error: no
  -- database is left, the channel of tasks is closed, the ids of all databases have left both
  -- channels, and nothing else changed.
  pub remove_stopped-all :
      (m : ℕ) (p : HashPool)
      → p.locked ≡ false
      → p.tasks_closed ≡ false
      → length p.dbs ≡ suc m
      → ((i : ℕ) (c : ExistingDb) → get_elem? p.dbs i ≡ some c → remove c.test_database ≡ none)
      → length p.dirty ≤ p.max_pool_size
      → length p.ready ≤ p.max_pool_size
      → remove_stopped remove p
        ≡ done (
          record p {
            dbs = [];
            dbs_cap = 0;
            dirty = without_below (suc m) p.dirty;
            ready = without_below (suc m) p.ready;
            tasks_closed = true;
          },
          ok tt,
        )
  unfolding remove_stopped finish_removal close_all
  remove_stopped-all m p u o len removable dirty_room ready_room =
      ground (
        arith,
        ap (remove_from remove) len,
        remove_from-all m p len removable dirty_room ready_room,
      )
