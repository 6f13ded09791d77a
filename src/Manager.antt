-- ===== src/Manager.antt =====
-- pkg/manager/manager.go. PostgreSQL is a parameter: what it answers to each statement of a call.
-- Between two critical sections of a call nobody else acts on the manager, except where a template
-- is waited for.
pub mod Config
pub mod FromEnv
pub mod Statements
pub mod Calls
pub mod Requests
pub mod Sizes
pub mod Phases
pub mod Rounds
use integresql.Prelude.{ℕ, Bool, Option, Text, List}
use integresql.Errors.{Err, Result}
use integresql.Database.{DatabaseConfig}
use integresql.Pool.{PoolConfig}
use integresql.Templates.{Collection}
use integresql.Pools.{PoolCollection}

pub record ManagerConfig : Type 0 where
  pub manager_database_config : DatabaseConfig
  pub template_database_template : Text
  pub database_prefix : Text
  pub template_database_prefix : Text
  pub test_database_owner : Text
  pub test_database_owner_password : Text
  pub template_finalize_timeout : ℕ
  pub test_database_get_timeout : ℕ
  pub pool_config : PoolConfig

pub record Manager : Type 0 where
  pub config : ManagerConfig
  -- whether `db` is set
  pub connected : Bool
  pub templates : Collection
  pub pools : PoolCollection

-- The server's answers. `accessed_by_others` says whether the text of an error has the phrase that
-- the code looks for.
pub record Postgres : Type 0 where
  pub open_connection : Option Err
  pub ping : Option Err
  pub close_connection : Option Err
  pub databases_like : Text → Result (List Text)
  pub exec_drop : Text → Option Err
  pub exec_create : Text → Text → Text → Option Err
  pub accessed_by_others : Err → Bool
  -- no row, or one
  pub select_database : Text → Result (Option Bool)
  pub count_connected : Text → Result (Option ℕ)
