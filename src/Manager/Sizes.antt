-- ===== src/Manager/Sizes.antt =====
-- The sizes that `New` settles.
use integresql.Prelude.Assoc.{lookup, lookup-insert}
use integresql.Prelude.{
  refl, ◌∙◌, false, some, [], text_eq_refl, ◌+◌, ◌≤◌, ◌<◌, ◌≡◌, true, replicate, ◌++◌, arith,
  if◌then◌else◌,
}
use integresql.Errors.{done}
use integresql.Database.{Database}
use integresql.Pool.{PoolConfig, HashPool, new_hash_pool, open_context, task_extend}
use integresql.Pool.Lifecycle.{start}
use integresql.Pool.Lifecycle.Tasks.{start-new_hash_pool}
use integresql.Pools.{PoolCollection, init_hash_pool, new_pool_collection, store}
use integresql.Manager.{ManagerConfig}
use integresql.Manager.Config.{with_underscore, clamp, normalise, new}

clamp-bounds :
    (cfg : PoolConfig)
    → 0 < cfg.max_pool_size
    → (1 ≤ (clamp cfg).initial_pool_size)
      × (((clamp cfg).initial_pool_size ≤ cfg.max_pool_size) × (1 ≤ (clamp cfg).max_parallel_tasks))
unfolding clamp
clamp-bounds cfg h = grind arith

-- A pool that has just been started.
abbrev begun : PoolConfig → Database → HashPool
unfolding new_hash_pool
begun cfg template = record (new_hash_pool cfg template) {
  running = true;
  worker_context = open_context;
  tasks_chan = replicate cfg.initial_pool_size task_extend;
}

start-begun :
    (cfg : PoolConfig) (template : Database)
    → cfg.initial_pool_size ≤ cfg.max_pool_size + 1
    → start (new_hash_pool cfg template) ≡ done (begun cfg template)
unfolding begun new_hash_pool
start-begun cfg template h = ground (arith, start-new_hash_pool cfg template)

init_hash_pool-returns :
    (cfg : PoolConfig) (template : Database)
    → cfg.initial_pool_size ≤ cfg.max_pool_size + 1
    → init_hash_pool template (new_pool_collection cfg)
      ≡ done (
          store template.template_hash (new_pool_collection cfg) (
            if cfg.disable_worker_autostart
            then new_hash_pool cfg template
            else begun cfg template))
unfolding init_hash_pool new_pool_collection
init_hash_pool-returns cfg template h = ground (arith, start-begun cfg template h)

abbrev prefixed : ManagerConfig → PoolConfig
prefixed config = record config.pool_config {
  test_db_name_prefix =
      with_underscore config.database_prefix
      ++ with_underscore config.pool_config.test_db_name_prefix;
}

-- If the maximal pool size that is configured is at least one, and the workers are to start
-- automatically, `New` settles an initial size of at least one and at most the maximal size, and
-- `InitHashPool` returns for any template: the hash then leads to a pool that runs, with an open
-- context for its workers, and one extend task for each database of the initial size in `tasksChan`.
pub new-starts :
    (config : ManagerConfig) (template : Database)
    → 0 < config.pool_config.max_pool_size
    → config.pool_config.disable_worker_autostart ≡ false
    → (1 ≤ (new config).config.pool_config.initial_pool_size)
      × (((new config).config.pool_config.initial_pool_size ≤ config.pool_config.max_pool_size)
          × (c : PoolCollection) × (p : HashPool) × (init_hash_pool template (new config).pools
              ≡ done c)
          × (lookup template.template_hash c.pools ≡ some p)
          × (p.running ≡ true)
          × (p.worker_context ≡ open_context)
          × (p.tasks_chan
              ≡ replicate (new config).config.pool_config.initial_pool_size task_extend))
unfolding new normalise init_hash_pool clamp begun new_pool_collection
new-starts config template h auto =
    let (least, (most, _)) = clamp-bounds (prefixed config) h in
    let cfg = clamp (prefixed config) in
    let returned = init_hash_pool-returns cfg template (omega arith) in
    (
      least,
      (
        most,
        store template.template_hash (new_pool_collection cfg) (begun cfg template),
        begun cfg template,
        returned ∙ rw auto refl,
        lookup-insert template.template_hash template.template_hash (begun cfg template) []
            ∙ rw (text_eq_refl template.template_hash) refl,
        refl,
        refl,
        refl,
      ),
    )
