-- ===== src/Pool/System/RoundTrip.antt =====
-- A client takes a database and returns it.
use integresql.Prelude.{
  ℕ, ◌+◌, ◌≡◌, refl, sym, ◌∙◌, subst, true, none, some, List, [], ◌∷◌, ◌++◌, pos, arith, get_elem?,
  set, ==_refl,
}
use mathlib.Core.List.{append-nil}
use integresql.Prelude.Counting.{without, without-append}
use integresql.Prelude.Lists.{get_elem?-set_self, get_elem?-lt, set-set}
use integresql.Errors.{ok, done}
use integresql.Database.{Database, TestDatabase}
use integresql.Pool.{
  HashPool, ExistingDb, PoolConfig, DbState, db_ready, db_dirty, db_recreating, is_ready,
}
use integresql.Pool.Take.{issue, take_locked}
use integresql.Pool.Give.{find_db, return_test_database}
use integresql.Pool.Extend.{id-new_test_db}
use integresql.Pool.Effects.Taking.{
  issue-Effect, take_locked-ready, flagged, issued, asked, issue-issued,
}
use integresql.Pool.Invariant.{Inv}
use integresql.Pool.Invariant.Sections.{pending-ready, take_locked-Kept}
use integresql.Pool.System.{System, Reach, NoRequests}
use integresql.Pool.System.Safety.{Reach-SystemInv}
use integresql.Pool.System.Guarantees.{returned, returned_lem}

-- What is left of a visit at a client.
abbrev pub visited : HashPool → ℕ → ExistingDb → ExistingDb
visited p now d = record d { block_auto_clean_dirty_until = now + p.test_database_minimal_lifetime }

ready_state : (s : DbState) → is_ready s ≡ true → s ≡ db_ready
ready_state db_ready h = refl
ready_state db_dirty h = absurd cc
ready_state db_recreating h = absurd cc

-- What a visit leaves of a pool.
abbrev pub visited_pool : HashPool → ℕ → ℕ → ExistingDb → HashPool
visited_pool p now i d = record p {
  dbs = set p.dbs i (visited p now d);
  dirty = without i p.dirty;
  ready = p.ready ++ i ∷ [];
  tasks_chan = p.tasks_chan ++ asked p;
}

module _ (p : HashPool) (now i : ℕ) (d : ExistingDb) (found : get_elem? p.dbs i ≡ some d)
    (ready : is_ready d.state ≡ true) where
  found_again : find_db (issued now i d p) (pos i) ≡ some (i, flagged p now d)
  found_again =
      ground (arith, get_elem?-set_self p.dbs i (flagged p now d) (get_elem?-lt p.dbs i d found))

  dbs_back :
      set (issued now i d p).dbs i (record (flagged p now d) { state = db_ready })
      ≡ set p.dbs i (visited p now d)
  dbs_back =
      let same : record (flagged p now d) { state = db_ready } ≡ visited p now d =
        ground (arith, ready_state d.state ready) in
      set-set p.dbs i (flagged p now d) (record (flagged p now d) { state = db_ready })
      ∙ rw same refl

  dirty_back : without i (p.dirty ++ i ∷ []) ≡ without i p.dirty
  dirty_back = rw (without-append i p.dirty (i ∷ []), ==_refl i, append-nil (without i p.dirty))

  back :
      returned none (find_db (issued now i d p) (pos i)) (issued now i d p)
      ≡ (visited_pool p now i d, ok tt)
  back = rw found_again (ground (arith, dbs_back, dirty_back))

-- In any interleaving in which nobody has called `RecreateTestDatabase` (of which the filter of
-- the channel `dirty` is one step here), when a client has taken a database, its return succeeds,
-- and behind both calls the pool is in every field as it was before them, but for four: the
-- database is again in its place, ready and with the same generation, with a new time until which
-- it is not cleaned; its id is the last of the ready ids; the channel `dirty` holds what it held,
-- without that id; and `tasksChan` has the task that the first call sent, if it had to send one.
pub take-then-return :
    {cfg : PoolConfig} {template : Database} {s : System}
    → (reached : Reach cfg template s) → NoRequests reached
    → (now : ℕ) (xs : List ℕ) (i : ℕ) (ys : List ℕ) (q : HashPool) (t : TestDatabase)
    → s.pending ≡ xs ++ i ∷ ys
    → take_locked now i s.pool ≡ done (q, ok t)
    → (d : ExistingDb) × (get_elem? s.pool.dbs i ≡ some d)
      × (return_test_database none (pos t.id) q ≡ done (visited_pool s.pool now i d, ok tt))
take-then-return {s = s} r quiet now xs i ys q t e h =
    let v = subst (Inv s.pool) e (Reach-SystemInv r).pool_inv in
    let (d, found, ready) = pending-ready xs i ys v in
    let issue_done : issue now i d s.pool ≡ done (q, ok t) =
      sym (take_locked-ready now i s.pool v.unlocked d found ready) ∙ h in
    let (_, same, _) = issue-Effect now i d s.pool q (ok t) issue_done in
    let kept = take_locked-Kept now xs i ys q (ok t) v h in
    let number : t.id ≡ i = ground (arith, v.stored i d found, id-new_test_db s.pool i) in
    let behind : q ≡ issued now i d s.pool = issue-issued now i d s.pool q (ok t) issue_done in
    (
      d,
      found,
      rw number (
          returned_lem q (xs ++ ys) none (pos i) _ kept.inv refl
          ∙ rw behind (rw (back s.pool now i d found ready) refl)),
    )
