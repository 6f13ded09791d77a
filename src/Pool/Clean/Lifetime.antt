-- ===== src/Pool/Clean/Lifetime.antt =====
-- `autoCleanDirty` of pkg/pool/pool.go while a database changes hands during its sleep.
use integresql.Prelude.{
  ℕ, ◌+◌, ◌≤◌, ◌<◌, ◌≡◌, refl, sym, ◌∙◌, ap, true, false, none, some, List, [], ◌∷◌, ◌++◌, pos,
  arith, length, get_elem?, set,
}
use integresql.Prelude.Counting.{without}
use integresql.Prelude.Lists.{get_elem?-set_self, get_elem?-lt, length-set}
use integresql.Errors.{Result, ok, done}
use integresql.Database.{TestDatabase}
use integresql.Pool.{HashPool, ExistingDb, db_ready, db_dirty, is_dirty}
use integresql.Pool.Channel.{send_task}
use integresql.Pool.Take.{on_ready, issue, get_test_database}
use integresql.Pool.Give.{return_test_database}
use integresql.Pool.Effects.Taking.{issue-Effect, take_locked-ready}
use integresql.Pool.Effects.Moving.{renewed, give_back-done}
use integresql.Pool.Recreate.Undisturbed.{answered, recreate_database_gracefully-renews}
use integresql.Pool.Recreate.{recreate_database_gracefully}
use integresql.Pool.Clean.{look, look_again, clean, auto_clean_dirty}

issue-recreating :
    (now index : ℕ) (d : ExistingDb) (p q : HashPool) (r : Result TestDatabase)
    → issue now index d p ≡ done (q, r)
    → q.recreating ≡ p.recreating
unfolding issue send_task
issue-recreating now index d p q r h = ground arith

-- What the client that returns the database leaves.
abbrev given_back : HashPool → ℕ → ExistingDb → List ℕ → HashPool
given_back p i d rest = record p {
  dbs = set p.dbs i (record d { state = db_ready });
  dirty = without i rest;
  ready = i ∷ [];
}

module _ (p : HashPool) (i : ℕ) (rest : List ℕ) (d : ExistingDb) (unlocked : p.locked ≡ false)
    (found : get_elem? p.dbs i ≡ some d) (dirt : is_dirty d.state ≡ true)
    (room : length rest ≤ p.max_pool_size) (positive : 0 < p.max_pool_size)
    (empty : p.ready ≡ []) where
  return-given_back :
      return_test_database none (pos i) (record p { dirty = rest })
      ≡ done (given_back p i d rest, ok tt)
  unfolding return_test_database
  return-given_back =
      ground (arith, give_back-done i d (record p { dirty = rest }) room (ground arith))

  get-issue :
      (later : ℕ)
      → get_test_database on_ready later (given_back p i d rest)
        ≡ issue later i
            (record d { state = db_ready })
            (record (given_back p i d rest) { ready = [] })
  unfolding get_test_database
  get-issue later =
      take_locked-ready later i (record (given_back p i d rest) { ready = [] }) unlocked
        (record d { state = db_ready })
        (get_elem?-set_self p.dbs i (record d { state = db_ready }) (get_elem?-lt p.dbs i d found))
        refl

  -- The database as the second client holds it.
  abbrev pub held : ℕ → ExistingDb
  held later = record d {
    state = db_dirty;
    block_auto_clean_dirty_until = later + p.test_database_minimal_lifetime;
  }

  -- What the second client leaves.
  record Held (later : ℕ) (woken : HashPool) : Type 0 where
    holds : get_elem? woken.dbs i ≡ some (held later)
    nothing_ready : woken.ready ≡ []
    open_lock : woken.locked ≡ false
    as_before : woken.recreating ≡ p.recreating
    config : woken.pool_config ≡ p.pool_config

  get-Held :
      (later : ℕ) (woken : HashPool) (r : Result TestDatabase)
      → get_test_database on_ready later (given_back p i d rest) ≡ done (woken, r)
      → Held later woken
  get-Held later woken r h =
      let mid = record (given_back p i d rest) { ready = [] } in
      let in_range = get_elem?-lt p.dbs i d found in
      let same_length = length-set p.dbs i (record d { state = db_ready }) in
      let issued : issue later i (record d { state = db_ready }) mid ≡ done (woken, r) =
        sym (get-issue later) ∙ h in
      let (effect, _, _) =
        issue-Effect later i (record d { state = db_ready }) mid woken r issued in
      record {
        holds =
            ap (λ ds. get_elem? ds i) effect.dbs_after
            ∙ get_elem?-set_self mid.dbs i (held later) (omega (arith, in_range, same_length));
        nothing_ready = effect.ready_after;
        open_lock = effect.frame.lock_kept ∙ unlocked;
        as_before = issue-recreating later i (record d { state = db_ready }) mid woken r issued;
        config = effect.frame.config;
      }

  cleans :
      (asleep : HashPool → HashPool) (now later n : ℕ) (woken : HashPool)
      → now < d.block_auto_clean_dirty_until
      → p.dirty ≡ i ∷ rest
      → asleep (record p { dirty = rest }) ≡ woken
      → Held later woken
      → auto_clean_dirty none asleep now (answered n none []) p
        ≡ recreate_database_gracefully (answered n none []) i woken
  unfolding auto_clean_dirty clean look look_again
  cleans asleep now later n woken early dirty_eq slept v =
      rw dirty_eq (ground (arith, found, slept, v.holds, v.open_lock))

  -- In a pool with no ready database and room for one more recreation, a worker takes the id of a
  -- protected dirty database from the channel `dirty` and sleeps. Meanwhile the client returns the
  -- database, and at the time `later` it is issued to a second client. The worker compares the
  -- generation, which neither call changes, and the state, which is dirty again: if `recreateDB`
  -- succeeds, after any number of rounds in use, the worker makes the database ready while the second
  -- client holds it, although it is protected until the minimal lifetime after `later`.
  pub cleaned_early :
      (asleep : HashPool → HashPool) (now later n : ℕ) (q woken : HashPool) (t : TestDatabase)
      → now < d.block_auto_clean_dirty_until
      → p.dirty ≡ i ∷ rest
      → p.recreating < p.max_pool_size
      → return_test_database none (pos i) (record p { dirty = rest }) ≡ done (q, ok tt)
      → get_test_database on_ready later q ≡ done (woken, ok t)
      → asleep (record p { dirty = rest }) ≡ woken
      → (get_elem? woken.dbs i ≡ some (held later))
        × (auto_clean_dirty none asleep now (answered n none []) p
            ≡ done (
              record woken {
                dbs = set woken.dbs i (renewed (held later));
                ready = woken.ready ++ d.id ∷ [];
              },
              ok tt,
            ))
  cleaned_early asleep now later n q woken t early dirty_eq free returned issued slept =
      let same : given_back p i d rest ≡ q = cc (return-given_back, returned) in
      let v = get-Held later woken (ok t) (ap (get_test_database on_ready later) same ∙ issued) in
      let size : woken.max_pool_size ≡ p.max_pool_size = ap (λ c. c.max_pool_size) v.config in
      let nothing : length woken.ready ≡ 0 = ap length v.nothing_ready in
      (
        v.holds,
        cleans asleep now later n woken early dirty_eq slept v
            ∙ recreate_database_gracefully-renews i woken (held later) v.open_lock v.holds refl
                (omega (arith, size, v.as_before, free)) n []
                (omega (arith, size, nothing, positive)),
      )
