-- ===== src/Pool/Lifecycle/Tasks.antt =====
-- The first tasks of a pool, and the stop task.
use integresql.Prelude.{
  ℕ, zero, suc, ◌+◌, ◌≤◌, ◌≡◌, refl, ◌∙◌, true, false, [], ◌∷◌, ◌++◌, arith, length, replicate, leb,
  if◌then◌else◌,
}
use mathlib.Core.List.{append-nil, append_assoc}
use integresql.Prelude.Lists.{length-append}
use integresql.Errors.{done, blocked}
use integresql.Database.{Database}
use integresql.Pool.{HashPool, PoolConfig, task_extend, open_context, new_hash_pool}
use integresql.Pool.Channel.{send, send_task}
use integresql.Pool.Lifecycle.{push_extends, start}

-- The sends of `n` extend tasks fit, or block.
push_extends_lem :
    (n : ℕ) (p : HashPool)
    → p.tasks_closed ≡ false
    → length p.tasks_chan ≤ p.max_pool_size + 1
    → push_extends n p ≡ (
        if leb (length p.tasks_chan + n) (p.max_pool_size + 1)
        then done (record p { tasks_chan = p.tasks_chan ++ replicate n task_extend })
        else blocked)
unfolding push_extends send_task send
push_extends_lem zero p o h = ground (arith, append-nil p.tasks_chan)
push_extends_lem (suc n) p o h = ground (
  arith,
  push_extends_lem n (record p { tasks_chan = p.tasks_chan ++ task_extend ∷ [] }) o,
  length-append p.tasks_chan (task_extend ∷ []),
  append_assoc p.tasks_chan (task_extend ∷ []) (replicate n task_extend),
)

-- `Start` on a new pool sends the initial extend tasks before anybody receives them: it returns if
-- the initial size is at most one more than the maximal size, and otherwise waits forever.
pub start-new_hash_pool :
    (cfg : PoolConfig) (template : Database)
    → start (new_hash_pool cfg template) ≡ (
        if leb cfg.initial_pool_size (cfg.max_pool_size + 1)
        then done (record (new_hash_pool cfg template) {
          running = true;
          worker_context = open_context;
          tasks_chan = replicate cfg.initial_pool_size task_extend;
        })
        else blocked)
unfolding start new_hash_pool
start-new_hash_pool cfg template =
    push_extends_lem cfg.initial_pool_size
      (record (new_hash_pool cfg template) { running = true; worker_context = open_context }) refl
      (omega arith)
    ∙ ground arith
