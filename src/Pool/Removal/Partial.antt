-- ===== src/Pool/Removal/Partial.antt =====
-- How far `RemoveAll` gets.
use integresql.Prelude.{
  ℕ, zero, suc, ◌+◌, ◌-◌, ◌≤◌, ◌<◌, ◌≡◌, ap, ◌∙◌, false, Option, none, some, List, arith, length,
  get_elem?, take,
}
use integresql.Prelude.Counting.{without, length-without-le}
use integresql.Prelude.Lists.{
  length-take_le, take-length, take-take_le, get_elem?-take_lt, get_elem?-of_lt,
  get_elem?-take-some,
}
use native.Mathlib.Nat.{add-zero, add-suc}
use integresql.Errors.{Err, err, done}
use integresql.Database.{TestDatabase}
use integresql.Pool.{HashPool, ExistingDb}
use integresql.Pool.Channel.{exclude_id_from_channel-without}
use integresql.Pool.Removal.{
  shrink, drop_id, remove_step, remove_from, finish_removal, remove_stopped,
}

-- A channel without the ids `k + m`, …, `k + 1`.
abbrev pub without_above : ℕ → ℕ → List ℕ → List ℕ
without_above k zero ch = ch
without_above k (suc m) ch = without_above k m (without (k + suc m) ch)

-- The pool after one database is removed from the end.
abbrev pub shorter : ℕ → HashPool → HashPool
shorter id p = record p {
  dbs = take id p.dbs;
  dirty = without id p.dirty;
  ready = without id p.ready;
}

pub remove_from-next :
    (remove : TestDatabase → Option Err) (id : ℕ) (p : HashPool) (c : ExistingDb)
    → length p.dbs ≡ suc id
    → 0 < id
    → get_elem? p.dbs id ≡ some c
    → remove c.test_database ≡ none
    → length p.dirty ≤ p.max_pool_size
    → length p.ready ≤ p.max_pool_size
    → remove_from remove (suc id) p ≡ remove_from remove id (shorter id p)
unfolding remove_from remove_step shrink drop_id
remove_from-next remove id p c len many at gone dirty_room ready_room =
    let last : length p.dbs - 1 ≡ id = omega arith in
    ground (
      arith,
      exclude_id_from_channel-without p.max_pool_size id p.dirty dirty_room,
      exclude_id_from_channel-without p.max_pool_size id p.ready ready_room,
    )

module _ (remove : TestDatabase → Option Err) (k : ℕ) (d : ExistingDb) (e : Err)
    (refused : remove d.test_database ≡ some e) where
  -- The loop from the last database stops at number `k`, the last one that cannot be removed.
  remove_from-stops :
      (m : ℕ) (p : HashPool)
      → length p.dbs ≡ suc (k + m)
      → get_elem? p.dbs k ≡ some d
      → ((i : ℕ) (c : ExistingDb)
          → k < i
          → get_elem? p.dbs i ≡ some c
          → remove c.test_database ≡ none)
      → length p.dirty ≤ p.max_pool_size
      → length p.ready ≤ p.max_pool_size
      → remove_from remove (suc (k + m)) p
        ≡ done (
          record p {
            dbs = take (suc k) p.dbs;
            dirty = without_above k m p.dirty;
            ready = without_above k m p.ready;
          },
          err e,
        )
  unfolding remove_from remove_step
  remove_from-stops zero p len at others dirty_room ready_room =
      let size : suc k ≡ length p.dbs = omega arith in
      let whole : take (suc k) p.dbs ≡ p.dbs =
        ap (λ (n : ℕ). take n p.dbs) size ∙ take-length p.dbs in
      rw (add-zero k) (ground arith)
  remove_from-stops (suc m) p len at others dirty_room ready_room =
      let (c, found) = get_elem?-of_lt p.dbs (k + suc m) (omega arith) in
      let next =
        remove_from-next remove (k + suc m) p c len (omega arith) found
          (others (k + suc m) c (omega arith) found) dirty_room ready_room in
      let ih =
        remove_from-stops m (shorter (k + suc m) p)
          (omega (arith, length-take_le (k + suc m) p.dbs (omega arith)))
          (get_elem?-take_lt (k + suc m) p.dbs k (omega arith) ∙ at)
          (λ i c' below at'. others i c' below (get_elem?-take-some (k + suc m) p.dbs i c' at'))
          (omega (arith, length-without-le (k + suc m) p.dirty, dirty_room))
          (omega (arith, length-without-le (k + suc m) p.ready, ready_room)) in
      next
      ∙ rw (add-suc k m)
          (ground (arith, ih, take-take_le (suc k) (suc (k + m)) p.dbs (omega arith)))

  -- `RemoveAll` on a stopped pool removes from the last database down to the last one that
  -- `removeFunc` refuses, number `k`: it reports that error, the databases from 0 to `k` stay as
  -- they were, the numbers of the removed ones have left both channels, and nothing else changed.
  pub remove_stopped-stops :
      (m : ℕ) (p : HashPool)
      → p.locked ≡ false
      → length p.dbs ≡ suc (k + m)
      → get_elem? p.dbs k ≡ some d
      → ((i : ℕ) (c : ExistingDb)
          → k < i
          → get_elem? p.dbs i ≡ some c
          → remove c.test_database ≡ none)
      → length p.dirty ≤ p.max_pool_size
      → length p.ready ≤ p.max_pool_size
      → remove_stopped remove p
        ≡ done (
          record p {
            dbs = take (suc k) p.dbs;
            dirty = without_above k m p.dirty;
            ready = without_above k m p.ready;
          },
          err e,
        )
  unfolding remove_stopped finish_removal
  remove_stopped-stops m p u len at others dirty_room ready_room = ground (
    arith,
    ap (remove_from remove) len,
    remove_from-stops m p len at others dirty_room ready_room,
  )
