-- ===== src/Pool/Recreate/Undisturbed.antt =====
-- Whole calls of pkg/pool/pool.go that no other goroutine disturbs: a recreation, and `extend`,
-- with the retry loop between their critical sections.
use integresql.Prelude.{
  ℕ, ◌+◌, ◌<◌, ◌≡◌, ◌∙◌, ap, true, false, Option, none, some, List, [], ◌∷◌, ◌++◌, arith, length,
  get_elem?, set, replicate,
}
use integresql.Errors.{Err, ok, err, test_db_in_use, errors_is, done}
use integresql.Pool.{HashPool, ExistingDb, PoolConfig, open_context, is_dirty}
use integresql.Pool.Recreate.{
  Attempt, LoopEnd, recreated, stopped, after_answer, recreate_loop, Weather, begin_recreate,
  enter_recreating, leave_recreating, after_loop, recreate_database_gracefully,
}
use integresql.Pool.Recreate.Retry.{in_use, recreate_loop-in_use}
use integresql.Pool.Effects.Moving.{renewed, mark-dirty, move_to_ready-moves}

-- The call while the database is in use for `n` rounds, and then what `recreateDB` answers.
abbrev pub answered : ℕ → Option Err → List Attempt → Weather
answered n answer later = record {
  at_start = open_context;
  attempts = replicate n in_use ++ record { ctx_done = none; answer = answer } ∷ later;
  at_end = open_context;
}

loop-recreated :
    (cfg : PoolConfig) (n : ℕ) (later : List Attempt)
    → (recreate_loop cfg 0 (answered n none later).attempts).0 ≡ recreated
unfolding recreate_loop
loop-recreated cfg n later =
    ap (λ (r : LoopEnd × List ℕ). r.0)
      (recreate_loop-in_use cfg n 0 (record { ctx_done = none; answer = none } ∷ later))

loop-stopped :
    (cfg : PoolConfig) (n : ℕ) (e : Err) (later : List Attempt)
    → errors_is e test_db_in_use ≡ false
    → (recreate_loop cfg 0 (answered n (some e) later).attempts).0 ≡ stopped e
unfolding recreate_loop after_answer
loop-stopped cfg n e later h =
    ap (λ (r : LoopEnd × List ℕ). r.0)
      (recreate_loop-in_use cfg n 0 (record { ctx_done = none; answer = some e } ∷ later))
    ∙ ground arith

module _ (i : ℕ) (p : HashPool) (d : ExistingDb) (unlocked : p.locked ≡ false)
    (found : get_elem? p.dbs i ≡ some d) (dirt : is_dirty d.state ≡ true)
    (free : p.recreating < p.max_pool_size) where
  begun : begin_recreate open_context i p ≡ done (p, ok (some d))
  unfolding begin_recreate
  begun = ground (arith, mark-dirty i p unlocked d found dirt)

  entered : enter_recreating p ≡ done (record p { recreating = p.recreating + 1 })
  unfolding enter_recreating
  entered = ground arith

  -- A recreation of a dirty database, however often the database is still in use at first,
  -- succeeds: the database is ready, one generation on, its id is the last of the ready ids, and
  -- nothing else has changed.
  pub recreate_database_gracefully-renews :
      (n : ℕ) (later : List Attempt)
      → length p.ready < p.max_pool_size
      → recreate_database_gracefully (answered n none later) i p
        ≡ done (record p { dbs = set p.dbs i (renewed d); ready = p.ready ++ d.id ∷ [] }, ok tt)
  unfolding recreate_database_gracefully after_loop leave_recreating
  recreate_database_gracefully-renews n later room = ground (
    arith,
    begun,
    entered,
    loop-recreated p.pool_config n later,
    move_to_ready-moves i (record p { recreating = p.recreating + 1 }) unlocked d found
        (ground arith) room,
  )

  -- When `recreateDB` fails with any other error, the call reports it and the pool is as before:
  -- the database stays dirty.
  pub recreate_database_gracefully-fails :
      (n : ℕ) (e : Err) (later : List Attempt)
      → errors_is e test_db_in_use ≡ false
      → recreate_database_gracefully (answered n (some e) later) i p ≡ done (p, err e)
  unfolding recreate_database_gracefully after_loop leave_recreating
  recreate_database_gracefully-fails n e later h =
      ground (arith, begun, entered, loop-stopped p.pool_config n e later h)
