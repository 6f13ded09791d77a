-- ===== src/Pool/System.antt =====
-- A running `HashPool` with all its goroutines, interleaved in any order at the critical sections
-- and channel operations of pkg/pool/pool.go: clients inside `GetTestDatabase`, clients that call
-- `ReturnTestDatabase` and `RecreateTestDatabase`, and workers. The limit on parallel tasks is
-- left out: every interleaving under the limit is one of these. Nobody stops the pool here. The
-- source filters the channel `dirty` in `RecreateTestDatabase` without the lock; here it is one step.
pub mod Safety
pub mod Guarantees
pub mod Reissue
pub mod RoundTrip
use integresql.Prelude.{
  ℕ, ◌≡◌, Bool, true, false, Option, none, some, List, [], ◌∷◌, ◌++◌, ℤ, ◌==◌, if◌then◌else◌,
}
use integresql.Errors.{Err, Result, ok, err, Outcome, done}
use integresql.Database.{Database, TestDatabase}
use integresql.Pool.{
  HashPool, ExistingDb, PoolConfig, WorkerTask, Context, open_context, new_hash_pool,
}
use integresql.Pool.Take.{take_locked}
use integresql.Pool.Give.{return_test_database}
use integresql.Pool.Recreate.{
  Goroutine, recreate_test_database, begin_recreate, enter_recreating, leave_recreating,
  move_to_ready,
}
use integresql.Pool.Clean.{Plan, immediately, after_sleep, look, look_again}
use integresql.Pool.Extend.{append_db}
use integresql.Pool.Lifecycle.{start}

-- Where a worker stands, with the variables that are live there.
pub data Worker : Type 0 where
  idle : Worker
  -- in `autoCleanDirty`, with an id from the channel `dirty`
  fetched : (id : ℕ) → Worker
  -- in `autoCleanDirty`, asleep
  sleeping : (id generation : ℕ) → Worker
  -- at the start of `recreateDatabaseGracefully`
  starting : (id : ℕ) → Worker
  -- before the send on `recreating`
  marked : (id : ℕ) → Worker
  -- in the loop
  trying : (id : ℕ) → Worker
  -- at `MoveToReady`
  finishing : (id : ℕ) → Worker
  -- before the receive from `recreating`
  leaving : Worker

pub record System : Type 0 where
  pub pool : HashPool
  pub pending : List ℕ
  pub workers : ℕ → Worker

abbrev pub update : (ℕ → Worker) → ℕ → Worker → ℕ → Worker
update f j w k = if j == k then w else f k

abbrev pub put : System → HashPool → ℕ → Worker → System
put s p j w = record s { pool = p; workers = update s.workers j w }

pub data Step (s : System) : System → Type 0 where
  -- `case index = <-pool.ready`
  receive :
      (i : ℕ) (rest : List ℕ)
      → s.pool.ready ≡ i ∷ rest
      → Step s (record s { pool = record s.pool { ready = rest }; pending = i ∷ s.pending })
  -- the rest of `GetTestDatabase`, under the lock
  take :
      (now : ℕ) (xs : List ℕ) (i : ℕ) (ys : List ℕ) (p : HashPool) (r : Result TestDatabase)
      → s.pending ≡ xs ++ i ∷ ys
      → take_locked now i s.pool ≡ done (p, r)
      → Step s (record s { pool = p; pending = xs ++ ys })
  give :
      (ctx_err : Option Err) (id : ℤ) (p : HashPool) (r : Result (Unit {0}))
      → return_test_database ctx_err id s.pool ≡ done (p, r)
      → Step s (record s { pool = p })
  request :
      (ctx_err : Option Err) (id : ℤ) (p : HashPool) (g : Goroutine) (j : ℕ)
      → recreate_test_database ctx_err id s.pool ≡ done (p, ok g)
      → s.workers j ≡ idle
      → Step s (put s p j (starting g.id))
  -- the control loop and the worker loop pass a task on, or drop it
  receive_task :
      (t : WorkerTask) (rest : List WorkerTask)
      → s.pool.tasks_chan ≡ t ∷ rest
      → Step s (record s { pool = record s.pool { tasks_chan = rest } })
  grow :
      (p : HashPool) (index j : ℕ)
      → append_db s.pool ≡ done (p, ok index)
      → s.workers j ≡ idle
      → Step s (put s p j (starting index))
  fetch :
      (i : ℕ) (rest : List ℕ) (j : ℕ)
      → s.pool.dirty ≡ i ∷ rest
      → s.workers j ≡ idle
      → Step s (put s (record s.pool { dirty = rest }) j (fetched i))
  clean_now :
      (now i j : ℕ)
      → s.workers j ≡ fetched i
      → look now i s.pool ≡ done (ok immediately)
      → Step s (put s s.pool j (starting i))
  clean_later :
      (now i j time generation : ℕ)
      → s.workers j ≡ fetched i
      → look now i s.pool ≡ done (ok (after_sleep time generation))
      → Step s (put s s.pool j (sleeping i generation))
  wake :
      (i j generation : ℕ) (same : Bool)
      → s.workers j ≡ sleeping i generation
      → look_again i generation s.pool ≡ done same
      → Step s (put s s.pool j (if same then starting i else idle))
  begin :
      (i j : ℕ) (p : HashPool) (d : ExistingDb)
      → s.workers j ≡ starting i
      → begin_recreate open_context i s.pool ≡ done (p, ok (some d))
      → Step s (put s p j (marked i))
  skip :
      (i j : ℕ) (p : HashPool)
      → s.workers j ≡ starting i
      → begin_recreate open_context i s.pool ≡ done (p, ok none)
      → Step s (put s p j idle)
  enter :
      (i j : ℕ) (p : HashPool)
      → s.workers j ≡ marked i
      → enter_recreating s.pool ≡ done p
      → Step s (put s p j (trying i))
  -- the loop ends without an error, or with one
  recreate : (i j : ℕ) → s.workers j ≡ trying i → Step s (put s s.pool j (finishing i))
  fail : (i j : ℕ) → s.workers j ≡ trying i → Step s (put s s.pool j leaving)
  finish :
      (i j : ℕ) (p : HashPool) (r : Result (Unit {0}))
      → s.workers j ≡ finishing i
      → move_to_ready open_context i s.pool ≡ done (p, r)
      → Step s (put s p j leaving)
  leave :
      (j : ℕ) (p : HashPool)
      → s.workers j ≡ leaving
      → leave_recreating s.pool ≡ done p
      → Step s (put s p j idle)

pub data Reach (cfg : PoolConfig) (template : Database) : System → Type 0 where
  started :
      (p : HashPool)
      → start (new_hash_pool cfg template) ≡ done p
      → Reach cfg template (record { pool = p; pending = []; workers = λ _. idle })
  later : {s t : System} → Reach cfg template s → Step s t → Reach cfg template t

-- Nobody has called `RecreateTestDatabase`.
abbrev pub NotRequest : {s t : System} → Step s t → Type 0
NotRequest (request ctx_err id p g j h w) = ⊥
NotRequest (receive i rest h) = Unit
NotRequest (take now xs i ys p r h e) = Unit
NotRequest (give ctx_err id p r h) = Unit
NotRequest (receive_task t rest h) = Unit
NotRequest (grow p index j h w) = Unit
NotRequest (fetch i rest j h w) = Unit
NotRequest (clean_now now i j w h) = Unit
NotRequest (clean_later now i j time generation w h) = Unit
NotRequest (wake i j generation same w h) = Unit
NotRequest (begin i j p d w h) = Unit
NotRequest (skip i j p w h) = Unit
NotRequest (enter i j p w h) = Unit
NotRequest (recreate i j w) = Unit
NotRequest (fail i j w) = Unit
NotRequest (finish i j p r w h) = Unit
NotRequest (leave j p w h) = Unit

abbrev pub NoRequests :
    {cfg : PoolConfig} {template : Database} {s : System} → Reach cfg template s → Type 0
NoRequests (started p h) = Unit
NoRequests (later r step) = NoRequests r × NotRequest step
