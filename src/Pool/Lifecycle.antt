-- ===== src/Pool/Lifecycle.antt =====
-- `Start`, `Stop`, `controlLoop` and `ignoreErrs` of pkg/pool/pool.go.
pub mod Tasks
use integresql.Prelude.{
  ℕ, zero, suc, Bool, true, false, List, [], ◌∷◌, ◌++◌, ltb, length, if◌then◌else◌,
}
use integresql.Errors.{Err, Result, ok, err, errors_is, Outcome, done, ◌>>=◌}
use integresql.Pool.{
  HashPool, WorkerTask, task_stop, task_extend, task_auto_clean_dirty, nil_context, open_context,
  lock,
}
use integresql.Pool.Channel.{send_task}

-- `for i := 0; i < pool.InitialPoolSize; i++ { pool.tasksChan <- workerTaskExtend }`
unfoldable pub push_extends : ℕ → HashPool → Outcome HashPool
push_extends zero p = done p
push_extends (suc n) p = send_task p task_extend >>= λ q. push_extends n q

-- The control loop, which would empty the channel, starts only behind the loop above.
unfoldable pub start : HashPool → Outcome HashPool
unfolding lock
start p0 = do
  p ← lock p0
  if p.running
      then done p
      else push_extends p.initial_pool_size
          (record p { running = true; worker_context = open_context })

-- Up to the send of the stop task. The bailout returns with the lock still held.
unfoldable pub stop_signal : HashPool → Outcome (HashPool × Bool)
unfolding lock send_task
stop_signal p0 = do
  p ← lock p0
  if p.running
      then (send_task (record p { running = false }) task_stop >>= λ q. done (q, true))
      else done (record p { locked = true }, false)

-- Behind the send: `quiesce` is what the workers do to the pool until `pool.wg.Wait()` returns.
unfoldable pub finish_stop : (HashPool → HashPool) → HashPool × Bool → Outcome HashPool
finish_stop quiesce (p, true) = done (record (quiesce p) { worker_context = nil_context })
finish_stop quiesce (p, false) = done p

unfoldable pub stop : (HashPool → HashPool) → HashPool → Outcome HashPool
unfolding stop_signal finish_stop
stop quiesce p = stop_signal p >>= finish_stop quiesce

-- `ignoreErrs`, on what the handler returns.
unfoldable pub ignore_errs : List Err → Result (Unit {0}) → Result (Unit {0})
ignore_errs errs (ok tt) = ok tt
ignore_errs [] (err e) = err e
ignore_errs (x ∷ errs) (err e) = if errors_is e x then ok tt else ignore_errs errs (err e)
