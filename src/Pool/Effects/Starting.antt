-- ===== src/Pool/Effects/Starting.antt =====
-- `Start`, which only sends tasks.
use integresql.Prelude.{ℕ, zero, suc, ◌≡◌, true, arith}
use integresql.Errors.{done, >>=-eq-done}
use integresql.Pool.{HashPool, WorkerTask, task_extend, open_context}
use integresql.Pool.Channel.{send_task}
use integresql.Pool.Lifecycle.{push_extends, start}
use integresql.Pool.Effects.{Effect}

send_task-Effect :
    (p q : HashPool) (t : WorkerTask) → send_task p t ≡ done q → Effect p q p.dbs p.ready p.dirty
unfolding send_task
send_task-Effect p q t h = ground arith

push_extends-Effect :
    (n : ℕ) (p q : HashPool) → push_extends n p ≡ done q → Effect p q p.dbs p.ready p.dirty
unfolding push_extends
push_extends-Effect zero p q h = ground arith
push_extends-Effect (suc n) p q h =
    let (m, sent, rest) = >>=-eq-done (send_task p task_extend) (push_extends n) h in
    ground (arith, send_task-Effect p m task_extend sent, push_extends-Effect n m q rest)

pub start-Effect : (p q : HashPool) → start p ≡ done q → Effect p q p.dbs p.ready p.dirty
unfolding start
start-Effect p q h = ground (
  arith,
  push_extends-Effect p.initial_pool_size
      (record p { running = true; worker_context = open_context }) q,
)
