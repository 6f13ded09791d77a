-- ===== src/Manager/FromEnv.antt =====
-- `DefaultManagerConfigFromEnv` of pkg/manager/manager_config.go. The model of the manager has
-- natural numbers for sizes and for durations in milliseconds; where the environment has a negative
-- one, or one that overflows as a duration, the model ends with none.
use integresql.Prelude.{
  ℕ, ◌*◌, false, Option, none, some, [], codes, ℤ, pos, negsuc, leb, if◌then◌else◌,
}
use integresql.Pool.{PoolConfig}
use integresql.Manager.{Manager, ManagerConfig}
use integresql.Manager.Config.{new}
use integresql.Util.Environment.{Env, get_env, get_env_as_int}

abbrev natural : ℤ → Option ℕ
natural (pos n) = some n
natural (negsuc n) = none

-- `time.Millisecond * time.Duration(n)` without overflow.
abbrev duration : ℤ → Option ℕ
duration (pos n) = if leb n 9223372036854 then some n else none
duration (negsuc n) = none

infixl 5 ◌>>=◌
abbrev ◌>>=◌ {ℓ κ} : {A : Type ℓ} {B : Type κ} → Option A → (A → Option B) → Option B
none >>= f = none
some a >>= f = f a

unfoldable default_pool_config_from_env : ℕ → Env → Option PoolConfig
unfolding get_env get_env_as_int
default_pool_config_from_env num_cpu env = do
  initial ← natural (get_env_as_int env (codes "INTEGRESQL_TEST_INITIAL_POOL_SIZE") (pos num_cpu))
  max ← natural (get_env_as_int env (codes "INTEGRESQL_TEST_MAX_POOL_SIZE") (pos (num_cpu * 4)))
  tasks ← natural (get_env_as_int env (codes "INTEGRESQL_POOL_MAX_PARALLEL_TASKS") (pos num_cpu))
  sleep_min ←
      duration
        (get_env_as_int env (codes "INTEGRESQL_TEST_DB_RETRY_RECREATE_SLEEP_MIN_MS") (pos 250))
  sleep_max ←
      duration
        (get_env_as_int env (codes "INTEGRESQL_TEST_DB_RETRY_RECREATE_SLEEP_MAX_MS") (pos 3000))
  lifetime ←
      duration (get_env_as_int env (codes "INTEGRESQL_TEST_DB_MINIMAL_LIFETIME_MS") (pos 250))
  some (record {
    initial_pool_size = initial;
    max_pool_size = max;
    test_db_name_prefix = get_env env (codes "INTEGRESQL_TEST_DB_PREFIX") (codes "test");
    max_parallel_tasks = tasks;
    test_database_retry_recreate_sleep_min = sleep_min;
    test_database_retry_recreate_sleep_max = sleep_max;
    test_database_minimal_lifetime = lifetime;
    disable_worker_autostart = false;
  })

-- The request timeout of the server is the default of both timeouts.
abbrev request_timeout : Env → ℤ
unfolding get_env_as_int
request_timeout env = get_env_as_int env (codes "INTEGRESQL_ECHO_REQUEST_TIMEOUT_MS") (pos 60000)

unfoldable pub default_manager_config_from_env : ℕ → Env → Option ManagerConfig
unfolding get_env get_env_as_int default_pool_config_from_env
default_manager_config_from_env num_cpu env = do
  finalize ←
      duration
        (get_env_as_int env (codes "INTEGRESQL_TEMPLATE_FINALIZE_TIMEOUT_MS") (request_timeout env))
  get ←
      duration
        (get_env_as_int env (codes "INTEGRESQL_TEST_DB_GET_TIMEOUT_MS") (request_timeout env))
  pool ← default_pool_config_from_env num_cpu env
  let password = get_env env (codes "INTEGRESQL_PGPASSWORD") (get_env env (codes "PGPASSWORD") [])
  some (record {
    manager_database_config = record {
      host =
          get_env env (codes "INTEGRESQL_PGHOST")
            (get_env env (codes "PGHOST") (codes "127.0.0.1"));
      port =
          get_env_as_int env (codes "INTEGRESQL_PGPORT")
            (get_env_as_int env (codes "PGPORT") (pos 5432));
      username =
          get_env env (codes "INTEGRESQL_PGUSER")
            (get_env env (codes "PGUSER") (get_env env (codes "USER") (codes "postgres")));
      password = password;
      database = get_env env (codes "INTEGRESQL_PGDATABASE") (codes "postgres");
      additional_params = [];
    };
    template_database_template = get_env env (codes "INTEGRESQL_ROOT_TEMPLATE") (codes "template0");
    database_prefix = get_env env (codes "INTEGRESQL_DB_PREFIX") (codes "integresql");
    template_database_prefix =
        get_env env (codes "INTEGRESQL_TEMPLATE_DB_PREFIX") (codes "template");
    test_database_owner =
        get_env env (codes "INTEGRESQL_TEST_PGUSER") (
          get_env env (codes "INTEGRESQL_PGUSER")
            (get_env env (codes "PGUSER") (codes "postgres")));
    test_database_owner_password = get_env env (codes "INTEGRESQL_TEST_PGPASSWORD") password;
    template_finalize_timeout = finalize;
    test_database_get_timeout = get;
    pool_config = pool;
  })

-- `DefaultFromEnv`
unfoldable pub default_from_env : ℕ → Env → Option Manager
unfolding default_manager_config_from_env new
default_from_env num_cpu env =
    default_manager_config_from_env num_cpu env >>= λ config. some (new config)
