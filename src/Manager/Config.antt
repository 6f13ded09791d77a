-- ===== src/Manager/Config.antt =====
-- `New` of pkg/manager/manager.go.
use integresql.Prelude.{false, Text, codes, [], ◌∷◌, ◌++◌, ltb, ◌==◌, ◌&&◌, if◌then◌else◌}
use integresql.Pool.{PoolConfig}
use integresql.Templates.{new_collection}
use integresql.Pools.{new_pool_collection}
use integresql.Manager.{ManagerConfig, Manager}

-- `%s_`, unless the text is empty.
unfoldable pub with_underscore : Text → Text
with_underscore [] = []
with_underscore (c ∷ s) = (c ∷ s) ++ codes "_"

-- `if len(s) == 0 { s = default }`
unfoldable pub or_default : Text → Text → Text
or_default [] default = default
or_default (c ∷ s) default = c ∷ s

-- The three clamps.
unfoldable pub clamp : PoolConfig → PoolConfig
clamp cfg =
    let initial = if cfg.initial_pool_size == 0 then 1 else cfg.initial_pool_size in
    record cfg {
      initial_pool_size =
          if ltb cfg.max_pool_size initial && ltb 0 cfg.max_pool_size
          then cfg.max_pool_size
          else initial;
      max_parallel_tasks = if ltb cfg.max_parallel_tasks 1 then 1 else cfg.max_parallel_tasks;
    }

unfoldable pub normalise : ManagerConfig → ManagerConfig
unfolding with_underscore or_default clamp
normalise config = record config {
  pool_config = clamp (record config.pool_config {
    test_db_name_prefix =
        with_underscore config.database_prefix
        ++ with_underscore config.pool_config.test_db_name_prefix;
  });
  test_database_owner =
      or_default config.test_database_owner config.manager_database_config.username;
  test_database_owner_password =
      or_default config.test_database_owner_password config.manager_database_config.password;
}

unfoldable pub new : ManagerConfig → Manager
unfolding normalise new_collection new_pool_collection
new config = record {
  config = normalise config;
  connected = false;
  templates = new_collection;
  pools = new_pool_collection (normalise config).pool_config;
}
