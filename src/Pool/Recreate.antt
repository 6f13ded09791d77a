-- ===== src/Pool/Recreate.antt =====
-- `RecreateTestDatabase` and `recreateDatabaseGracefully` of pkg/pool/pool.go. What other
-- goroutines may do between two critical sections is left to Pool/System.antt: here each section
-- is a function.
pub mod Retry
pub mod Undisturbed
use integresql.Prelude.{
  ℕ, ◌+◌, ◌-◌, ◌*◌, ◌^◌, ◌%◌, ℤ, Option, none, some, List, [], ◌∷◌, ltb, ◌==◌, set, if◌then◌else◌,
}
use integresql.Errors.{
  Err, Result, ok, err, invalid_index, test_db_in_use, errors_is, Outcome, done, blocked, panicked,
  ◌>>=◌,
}
use integresql.Pool.{
  HashPool, ExistingDb, PoolConfig, Context, nil_context, open_context, ended_context, db_ready,
  db_recreating, lock, index_db, is_ready, is_dirty,
}
use integresql.Pool.Channel.{send, exclude_id_from_channel}
use integresql.Pool.Give.{find_db}

-- `go pool.recreateDatabaseGracefully(context, id)`
pub record Goroutine : Type 0 where
  pub context : Context
  pub id : ℕ

-- On success the goroutine that it starts comes back beside the pool.
unfoldable pub recreate_test_database :
    Option Err → ℤ → HashPool → Outcome (HashPool × Result Goroutine)
unfolding lock
recreate_test_database ctx_err id p0 = do
  p ← lock p0
  elim (find_db p id) [
    | none ↦ done (p, err invalid_index)
    | some (n, d) ↦ elim ctx_err [
      | some e ↦ done (p, err e)
      | none ↦ do
        dirty' ← exclude_id_from_channel p.max_pool_size n p.dirty
        done (record p { dirty = dirty' }, ok (record { context = p.worker_context; id = n }))
    ]
  ]

-- `ctx.Err()`, as far as a goroutine gets that first logs with its context.
abbrev pub context_err : Context → Outcome (Option Err)
context_err nil_context = panicked
context_err open_context = done none
context_err (ended_context e) = done (some e)

-- The first critical section. The copy `testDB` is taken before the state is set, and is then
-- written back over it.
unfoldable pub mark : ℕ → HashPool → Outcome (HashPool × Result (Option ExistingDb))
unfolding lock index_db
mark id p0 = do
  p ← lock p0
  test_db ← index_db p id
  let marked = set p.dbs id (record test_db { state = db_recreating })
  let marked_pool = record p { dbs = set marked id test_db }
  done (if is_dirty test_db.state then (marked_pool, ok (some test_db)) else (p, ok none))

unfoldable pub begin_recreate :
    Context → ℕ → HashPool → Outcome (HashPool × Result (Option ExistingDb))
unfolding mark
begin_recreate ctx id p = do
  ended ← context_err ctx
  elim ended [ some e ↦ done (p, err e) | none ↦ mark id p ]

-- `pool.recreating <- struct{}{}`
unfoldable pub enter_recreating : HashPool → Outcome HashPool
enter_recreating p =
    if ltb p.recreating p.max_pool_size
    then done (record p { recreating = p.recreating + 1 })
    else blocked

-- `<-pool.recreating`
unfoldable pub leave_recreating : HashPool → Outcome HashPool
leave_recreating p =
    if p.recreating == 0 then blocked else done (record p { recreating = p.recreating - 1 })

-- One round of the loop: whether `ctx.Done()` is chosen, and what `recreateDB` returns.
pub record Attempt : Type 0 where
  pub ctx_done : Option Err
  pub answer : Option Err

pub data LoopEnd : Type 0 where
  recreated : LoopEnd
  stopped : Err → LoopEnd
  -- the attempts at hand are used up, and the loop goes on
  retrying : LoopEnd

pub backoff : PoolConfig → ℕ → ℕ
backoff cfg tries =
    let wanted = tries * cfg.test_database_retry_recreate_sleep_min in
    if ltb cfg.test_database_retry_recreate_sleep_max wanted
    then cfg.test_database_retry_recreate_sleep_max
    else wanted

after_answer : PoolConfig → ℕ → Option Err → LoopEnd × List ℕ → LoopEnd × List ℕ
unfolding backoff
after_answer cfg tries none rest = (recreated, [])
after_answer cfg tries (some e) rest =
    if errors_is e test_db_in_use then (rest.0, backoff cfg tries ∷ rest.1) else (stopped e, [])

-- How the loop ends, and the times that it sleeps. `tries` counts the rounds before.
unfoldable pub recreate_loop : PoolConfig → ℕ → List Attempt → LoopEnd × List ℕ
unfolding after_answer
recreate_loop cfg tries [] = (retrying, [])
recreate_loop cfg tries (a ∷ as') =
    let rest = recreate_loop cfg (tries + 1) as' in
    elim a.ctx_done [ some e ↦ (stopped e, []) | none ↦ after_answer cfg (tries + 1) a.answer rest ]

-- `MoveToReady`
unfoldable pub move_to_ready : Context → ℕ → HashPool → Outcome (HashPool × Result (Unit {0}))
unfolding lock index_db
move_to_ready ctx id p0 = do
  p ← lock p0
  ended ← context_err ctx
  elim ended [
    | some e ↦ done (p, err e)
    | none ↦ do
      d ← index_db p id
      if is_ready d.state then done (p, ok tt) else do
        let d' = record d { generation = (d.generation + 1) % 2 ^ 64; state = db_ready }
        ready' ← send p.max_pool_size d'.id p.ready
        done (record p { dbs = set p.dbs id d'; ready = ready' }, ok tt)
  ]

-- What a call of `recreateDatabaseGracefully` meets: its context at the start and at the end, and
-- the rounds of its loop.
pub record Weather : Type 0 where
  pub at_start : Context
  pub attempts : List Attempt
  pub at_end : Context

after_loop : LoopEnd → Weather → ℕ → HashPool → Outcome (HashPool × Result (Unit {0}))
unfolding move_to_ready leave_recreating
after_loop retrying w id p = blocked
after_loop (stopped e) w id p = do q ← leave_recreating p; done (q, err e)
after_loop recreated w id p = do
  moved ← move_to_ready w.at_end id p
  q ← leave_recreating moved.0
  done (q, moved.1)

-- The whole call, with no other goroutine between its sections.
unfoldable pub recreate_database_gracefully :
    Weather → ℕ → HashPool → Outcome (HashPool × Result (Unit {0}))
unfolding begin_recreate enter_recreating after_loop
recreate_database_gracefully w id p = do
  begun ← begin_recreate w.at_start id p
  elim begun.1 [
    | err e ↦ done (begun.0, err e)
    | ok none ↦ done (begun.0, ok tt)
    | ok (some test_db) ↦ do
      entered ← enter_recreating begun.0
      after_loop (recreate_loop p.pool_config 0 w.attempts).0 w id entered
  ]
