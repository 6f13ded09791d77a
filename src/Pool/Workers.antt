-- ===== src/Pool/Workers.antt =====
-- The goroutines between `Start` and the end of `Stop` in pkg/pool/pool.go: `controlLoop`,
-- `workerTaskLoop`, and one for each task that is being handled. What a handler does to the pool
-- is left out of their steps; `handle` says which one a task gets.
pub mod Counts
pub mod Stopping
use integresql.Prelude.{
  ℕ, suc, ◌+◌, ◌-◌, ◌<◌, ◌≤◌, ◌≡◌, Bool, true, false, Option, none, some, List, [], ◌∷◌, ◌++◌,
  length,
}
use integresql.Errors.{Err, Result, Outcome, done, ◌>>=◌, pool_full, canceled}
use integresql.Pool.{HashPool, WorkerTask, task_stop, task_extend, task_auto_clean_dirty}
use integresql.Pool.Recreate.{Weather}
use integresql.Pool.Extend.{extend}
use integresql.Pool.Clean.{auto_clean_dirty}
use integresql.Pool.Lifecycle.{ignore_errs}

-- The map `handlers`: nothing for a task that is in no entry of it.
unfoldable pub handle :
    WorkerTask
    → Option Err
    → (HashPool → HashPool)
    → ℕ
    → Weather
    → HashPool
    → Option (Outcome (HashPool × Result (Unit {0})))
unfolding extend auto_clean_dirty ignore_errs
handle task_extend chosen asleep now w p =
    some (extend w p >>= λ r. done (r.0, ignore_errs (pool_full ∷ canceled ∷ []) r.1))
handle task_auto_clean_dirty chosen asleep now w p =
    some
      (auto_clean_dirty chosen asleep now w p >>= λ r. done (r.0, ignore_errs (canceled ∷ []) r.1))
handle task_stop chosen asleep now w p = none

abbrev pub is_stop : WorkerTask → Bool
is_stop task_stop = true
is_stop _ = false

-- Where `controlLoop` stands.
pub data Control : Type 0 where
  beginning : Control
  listening : Control
  finished : Control

-- Where `workerTaskLoop` stands: not started, at the receive, at the `select` with a task, or gone.
pub data Loop : Type 0 where
  unborn : Loop
  receiving : Loop
  holding : WorkerTask → Loop
  returned : Loop

pub record Crew : Type 0 where
  pub tasks_chan : List WorkerTask
  -- `workerTasksChan`: what it holds, its capacity, and whether it is closed
  pub passed : List WorkerTask
  pub room : ℕ
  pub closed : Bool
  pub cancelled : Bool
  pub control : Control
  pub loop : Loop
  -- the tasks that are being handled, and how many goroutines have only the semaphore to give back
  pub handling : List WorkerTask
  pub draining : ℕ
  pub semaphore : ℕ
  pub max_parallel_tasks : ℕ
  -- the counter of `pool.wg`
  pub wg : ℕ

-- As `Start` leaves it.
unfoldable pub start_crew : ℕ → List WorkerTask → Crew
start_crew max_parallel tasks = record {
  tasks_chan = tasks;
  passed = [];
  room = 0;
  closed = false;
  cancelled = false;
  control = beginning;
  loop = unborn;
  handling = [];
  draining = 0;
  semaphore = 0;
  max_parallel_tasks = max_parallel;
  wg = 1;
}

-- A step of one of the goroutines.
pub data Move (s : Crew) : Crew → Type 0 where
  open_loop :
      s.control ≡ beginning
      → Move s (record s {
        room = length s.tasks_chan;
        control = listening;
        loop = receiving;
        wg = s.wg + 1;
      })
  -- `case workerTasksChan <- task`, into the buffer or to the loop at its receive
  pass :
      (t : WorkerTask) (rest : List WorkerTask)
      → s.control ≡ listening
      → s.tasks_chan ≡ t ∷ rest
      → is_stop t ≡ false
      → length s.passed < s.room
      → Move s (record s { tasks_chan = rest; passed = s.passed ++ t ∷ [] })
  hand_over :
      (t : WorkerTask) (rest : List WorkerTask)
      → s.control ≡ listening
      → s.tasks_chan ≡ t ∷ rest
      → is_stop t ≡ false
      → s.loop ≡ receiving
      → s.passed ≡ []
      → Move s (record s { tasks_chan = rest; loop = holding t })
  -- `default`
  drop :
      (t : WorkerTask) (rest : List WorkerTask)
      → s.control ≡ listening
      → s.tasks_chan ≡ t ∷ rest
      → is_stop t ≡ false
      → s.room ≤ length s.passed
      → Move s (record s { tasks_chan = rest })
  -- the stop task
  halt :
      (t : WorkerTask) (rest : List WorkerTask)
      → s.control ≡ listening
      → s.tasks_chan ≡ t ∷ rest
      → is_stop t ≡ true
      → Move s (record s {
        tasks_chan = rest;
        closed = true;
        cancelled = true;
        control = finished;
        wg = s.wg - 1;
      })
  -- `for task := range taskChan`
  receive :
      (t : WorkerTask) (rest : List WorkerTask)
      → s.loop ≡ receiving
      → s.passed ≡ t ∷ rest
      → Move s (record s { passed = rest; loop = holding t })
  range_over :
      s.loop ≡ receiving
      → s.passed ≡ []
      → s.closed ≡ true
      → Move s (record s { loop = returned; wg = s.wg - 1 })
  -- `case <-ctx.Done()`
  give_up :
      (t : WorkerTask)
      → s.loop ≡ holding t
      → s.cancelled ≡ true
      → Move s (record s { loop = returned; wg = s.wg - 1 })
  -- `case semaphore <- struct{}{}`, and the start of the handler
  spawn :
      (t : WorkerTask)
      → s.loop ≡ holding t
      → s.semaphore < s.max_parallel_tasks
      → Move s (record s {
        loop = receiving;
        handling = t ∷ s.handling;
        semaphore = s.semaphore + 1;
        wg = s.wg + 1;
      })
  -- a handler returns: `pool.wg.Done()`, and then `<-semaphore`
  handled :
      (xs : List WorkerTask) (t : WorkerTask) (ys : List WorkerTask)
      → s.handling ≡ xs ++ t ∷ ys
      → Move s (record s { handling = xs ++ ys; draining = s.draining + 1; wg = s.wg - 1 })
  release :
      (n : ℕ) → s.draining ≡ suc n → Move s (record s { draining = n; semaphore = s.semaphore - 1 })

-- A task that somebody sends, with room for it.
abbrev pub sent : WorkerTask → Crew → Crew
sent t s = record s { tasks_chan = s.tasks_chan ++ t ∷ [] }

pub data CrewReach (max_parallel : ℕ) (tasks : List WorkerTask) : Crew → Type 0 where
  hired : CrewReach max_parallel tasks (start_crew max_parallel tasks)
  moved : {s t : Crew} → CrewReach max_parallel tasks s → Move s t → CrewReach max_parallel tasks t
  send :
      {s : Crew}
      → CrewReach max_parallel tasks s
      → (t : WorkerTask) → CrewReach max_parallel tasks (sent t s)
