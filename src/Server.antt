-- ===== src/Server.antt =====
-- internal/api/server.go and internal/router/router.go. Echo is a record of what is registered with
-- it, in this order; what its own methods return is an argument.
pub mod Config
pub mod Startup
pub mod Command
use integresql.Prelude.{
  ℕ, ◌+◌, Bool, true, false, ◌&&◌, Option, none, some, List, [], ◌∷◌, ◌++◌, Text, codes, ℤ,
  if◌then◌else◌,
}
use integresql.Errors.{Err, Result, ok, err, Outcome, done, panicked, ◌>>=◌}
use integresql.Pool.{HashPool}
use integresql.Manager.{Manager, ManagerConfig, Postgres}
use integresql.Manager.Config.{new}
use integresql.Manager.Calls.{initialize, disconnect}
use integresql.Manager.Requests.{reset_all_tracking}
use integresql.Util.{RetryEnd, succeeded, failing, Retried, retry}
use integresql.Server.Config.{ServerConfig}

-- The fields of `LoggerConfig` of internal/api/middleware that `Init` sets.
pub record RequestLogging : Type 0 where
  pub level : ℤ
  pub log_request_body : Bool
  pub log_request_header : Bool
  pub log_request_query : Bool
  pub log_response_body : Bool
  pub log_response_header : Bool

pub data Middleware : Type 0 where
  recover request_id : Middleware
  logger : RequestLogging → Middleware
  timeout : ℤ → Middleware

pub data Method : Type 0 where
  get post put delete : Method

pub data Handler : Type 0 where
  debug reset_all_templates initialize_template finalize_template discard_template : Handler
  get_test_database return_test_database recreate_test_database unlock_test_database : Handler

pub record Route : Type 0 where
  pub method : Method
  pub path : Text
  pub handler : Handler

pub record Echo : Type 0 where
  pub debug : Bool
  pub hide_banner : Bool
  -- `Pre(RemoveTrailingSlash())`
  pub remove_trailing_slash : Bool
  pub middleware : List Middleware
  pub routes : List Route

pub record Server : Type 0 where
  pub config : ServerConfig
  pub echo : Option Echo
  pub manager : Option Manager

unfoldable pub new_server : ServerConfig → Server
new_server config = record { config = config; echo = none; manager = none }

abbrev pub is_some {ℓ} : {A : Type ℓ} → Option A → Bool
is_some none = false
is_some (some a) = true

abbrev manager_ready : Option Manager → Bool
manager_ready none = false
manager_ready (some m) = m.connected

unfoldable pub ready : Server → Bool
ready s = is_some s.echo && manager_ready s.manager

-- What `Start` comes to: an error of its own, or what `Echo.Start` returns.
unfoldable pub start : Option Err → Server → Option (Option Err)
unfolding ready
start served s = if ready s then some served else none

-- The error of the manager is only logged.
abbrev disconnect_manager :
    Postgres → (HashPool → HashPool) → Option Manager → Outcome (Option Manager)
unfolding disconnect
disconnect_manager pg quiesce none = done none
disconnect_manager pg quiesce (some m) = disconnect pg quiesce true m >>= λ r. done (some r.0)

unfoldable pub shutdown :
    Postgres → (HashPool → HashPool) → Option Err → Server → Outcome (Server × Option Err)
unfolding disconnect
shutdown pg quiesce echo_shutdown s = disconnect_manager pg quiesce s.manager >>= λ m. elim s.echo [
  | none ↦ panicked
  | some e ↦ done (record s { manager = m }, echo_shutdown)
]

abbrev pub error_of {ℓ} : {A : Type ℓ} → Result A → Option Err
error_of (ok a) = none
error_of (err e) = some e

-- The function that is retried: `answers` is PostgreSQL in each round.
abbrev pub attempt : (ℕ → Postgres) → ℕ × Manager → (ℕ × Manager) × Option Err
unfolding initialize
attempt answers (i, m) = let r = initialize (answers i) m in ((i + 1, r.0), error_of r.1)

abbrev pub managed : Server → Retried (ℕ × Manager) → Server × RetryEnd
managed s r = elim r.ending [
  | succeeded ↦ (record s { manager = some r.state.1 }, succeeded)
  | failing e ↦ (s, failing e)
]

unfoldable pub init_manager : ManagerConfig → (ℕ → Postgres) → Server → Server × RetryEnd
unfolding retry new
init_manager config answers s = managed s (retry 30 (attempt answers) (0, new config))

-- `Init` of package router.
abbrev enabled {ℓ} : {A : Type ℓ} → Bool → A → List A
enabled flag a = if flag then a ∷ [] else []

abbrev request_logging : ServerConfig → RequestLogging
request_logging c = record {
  level = c.logger.request_level;
  log_request_body = c.logger.log_request_body;
  log_request_header = c.logger.log_request_header;
  log_request_query = c.logger.log_request_query;
  log_response_body = c.logger.log_response_body;
  log_response_header = c.logger.log_response_header;
}

abbrev route : Method → Text → Handler → Route
route m p h = record { method = m; path = p; handler = h }

-- `InitRoutes` of package templates.
unfoldable pub template_routes : List Route
template_routes =
    route post (codes "/api/v1/templates") initialize_template
    ∷ route put (codes "/api/v1/templates/:hash") finalize_template
    ∷ route delete (codes "/api/v1/templates/:hash") discard_template
    ∷ route get (codes "/api/v1/templates/:hash/tests") get_test_database
    ∷ route delete (codes "/api/v1/templates/:hash/tests/:id") return_test_database
    ∷ route post (codes "/api/v1/templates/:hash/tests/:id/recreate") recreate_test_database
    ∷ route post (codes "/api/v1/templates/:hash/tests/:id/unlock") unlock_test_database
    ∷ []

-- `InitRoutes` of package admin.
unfoldable pub admin_routes : List Route
admin_routes = route delete (codes "/api/v1/admin/templates") reset_all_templates ∷ []

unfoldable pub init_router : Server → Server
unfolding template_routes admin_routes
init_router s =
    let c = s.config in
    record s {
      echo = some (record {
        debug = c.echo.debug;
        hide_banner = true;
        remove_trailing_slash = c.echo.enable_trailing_slash_middleware;
        middleware =
            enabled c.echo.enable_recover_middleware recover
            ++ enabled c.echo.enable_request_id_middleware request_id
            ++ enabled c.echo.enable_logger_middleware (logger (request_logging c))
            ++ enabled c.echo.enable_timeout_middleware (timeout c.echo.request_timeout);
        routes =
            enabled c.debug_endpoints (route get (codes "/debug/*") debug)
            ++ admin_routes
            ++ template_routes;
      });
    }

-- `deleteResetAllTemplates` of package admin, down to the status.
unfoldable pub delete_reset_all_templates :
    Postgres → (HashPool → HashPool) → Manager → Outcome (Manager × ℕ)
unfolding reset_all_tracking
delete_reset_all_templates pg quiesce m =
    reset_all_tracking pg quiesce m >>= λ r. done (r.0, elim r.1 [ ok u ↦ 204 | err e ↦ 500 ])
