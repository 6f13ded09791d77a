-- ===== src/Examples/Web.antt =====
-- Concrete starts of the server and requests through its middleware.
use integresql.Prelude.{
  ℕ, suc, ◌+◌, ◌<◌, ◌≡◌, refl, ◌⊎◌, inr, true, false, Option, none, some, List, [], ◌∷◌, Text,
  codes, arith, pos, ltb, if◌then◌else◌,
}
use integresql.Prelude.Assoc.{lookup_or}
use integresql.Errors.{done, Err, ok, driver}
use integresql.Manager.{Postgres, ManagerConfig}
use integresql.Util.{retry, succeeded, failing}
use integresql.Util.Retrying.{after_calls, last_answer, AllFail, FirstSuccess, retry_lem}
use integresql.Server.{Server, new_server, start, init_manager, init_router}
use integresql.Server.Config.{Zerolog, default_server_config_from_env}
use integresql.Server.Command.{behind_disconnect, main, late_exit, main-late}
use integresql.Server.Startup.{IsDown, init_manager-outlasts}
use integresql.Middleware.Headers.{Header, canonical, all_tokens, title}
use integresql.Middleware.Redaction.{
  default_header_log_replacer, values-default_header_log_replacer,
}
use integresql.Middleware.Messages.{Request, ResponseReads, LoggerConfig, Handler}
use integresql.Middleware.Logger.{logger_with_config, answered_by_echo, passed_by}
use integresql.Middleware.Logger.Transparency.{SameForClient, logger_with_config-same}
use integresql.Examples.Runs.{cfg, template}

-- A function that fails twice.
abbrev flaky : ℕ → ℕ × Option Err
flaky n = (n + 1, if ltb n 2 then some (driver n) else none)

retry_lem_example :
    ((n : ℕ) × FirstSuccess flaky 5 n 0
      × (retry 5 flaky 0
          ≡ record { state = after_calls flaky (suc n) 0; sleeps = n; ending = succeeded }))
    ⊎ (AllFail flaky 5 0
        × (retry 5 flaky 0 ≡ record {
          state = after_calls flaky 5 0;
          sleeps = 5;
          ending = failing (last_answer flaky 5 none 0);
        }))
retry_lem_example = retry_lem flaky 5 0

-- A server that answers pings from the third round on.
abbrev waking : ℕ → Postgres
waking n = record {
  open_connection = none;
  ping = if ltb n 2 then some (driver 7) else none;
  close_connection = none;
  databases_like = λ pattern. ok (codes "left_over" ∷ []);
  exec_drop = λ name. none;
  exec_create = λ name owner origin. none;
  accessed_by_others = λ e. false;
  select_database = λ name. ok none;
  count_connected = λ name. ok none;
}

no_answer : (i : ℕ) → i < 2 → (waking i).ping ≡ none → ⊥
no_answer i h q = ground arith

asleep : (i : ℕ) → i < 2 → IsDown (waking i)
asleep i h = inr (no_answer i h)

abbrev manager_config : ManagerConfig
manager_config = record {
  manager_database_config = template.config;
  template_database_template = codes "template0";
  database_prefix = codes "integresql";
  template_database_prefix = codes "template";
  test_database_owner = codes "u";
  test_database_owner_password = codes "";
  template_finalize_timeout = 60000;
  test_database_get_timeout = 60000;
  pool_config = cfg;
}

abbrev zerolog : Zerolog
zerolog = record { parse_level = λ s. none; debug_level = pos 0; info_name = codes "info" }

-- Nothing is set.
abbrev bare : Server
bare = new_server (default_server_config_from_env zerolog (λ k. none))

init_manager-outlasts_example :
    ((init_manager manager_config waking bare).1 ≡ succeeded)
    × (start none (init_router (init_manager manager_config waking bare).0) ≡ some none)
unfolding integresql.Manager.Statements.drop_unmanaged
init_manager-outlasts_example =
    init_manager-outlasts manager_config waking 2 asleep refl refl (codes "left_over" ∷ []) none
      bare (omega arith) refl refl

main-late_example :
    main
      (λ e. false)
      waking
      (waking 2)
      (λ p. p)
      behind_disconnect
      none
      none
      bare.config
      manager_config
    ≡ done (late_exit (init_manager manager_config waking (new_server bare.config)).1)
main-late_example =
    main-late (λ e. false) waking (waking 2) (λ p. p) none none bare.config manager_config

-- Two spellings of one name.
abbrev header : Header
header =
    (codes "authorization", codes "Bearer secret" ∷ [])
    ∷ (codes "Content-Length", codes "3" ∷ [])
    ∷ (codes "Authorization", codes "Basic secret" ∷ [])
    ∷ []

values-default_header_log_replacer_example :
    lookup_or (codes "Authorization") [] (default_header_log_replacer header)
    ≡ codes "*****REDACTED*****" ∷ codes "*****REDACTED*****" ∷ []
unfolding canonical all_tokens title
values-default_header_log_replacer_example =
    values-default_header_log_replacer header (codes "Authorization") refl

-- A response is its status.
abbrev status_only : ResponseReads ℕ
status_only = record {
  header_of = λ r. (codes "Content-Type", codes "application/json" ∷ []) ∷ [];
  status_of = λ r. r;
  size_of = λ r. pos 2;
}

abbrev refusing : Handler ℕ
refusing req res = (200, codes "{" ∷ codes "}" ∷ [], some (driver 3))

abbrev report : Err → Request → ℕ → ℕ × List Text
report e req res = (500, codes "failed" ∷ [])

abbrev everything : LoggerConfig ℕ
everything = record {
  skipper = none;
  level = pos 1;
  log_request_body = true;
  log_request_header = true;
  log_request_query = true;
  request_body_log_skipper = none;
  request_body_log_replacer = none;
  request_header_log_replacer = none;
  request_query_log_replacer = none;
  log_response_body = true;
  log_response_header = true;
  response_body_log_skipper = none;
  response_body_log_replacer = none;
  response_header_log_replacer = none;
}

abbrev request : Request
request = record {
  header = header;
  host = codes "localhost";
  method = codes "POST";
  url = codes "/api/v1/templates";
  query = [];
  body = some (record { content = codes "{\"hash\":\"h\"}"; failure = none });
  request_id = none;
}

logger_with_config-same_example :
    SameForClient status_only refusing report
      (answered_by_echo status_only refusing report request
        (logger_with_config status_only refusing report everything request 0))
      (answered_by_echo status_only refusing report request
        (passed_by status_only refusing report request 0))
logger_with_config-same_example =
    logger_with_config-same status_only refusing report everything request 0
      (record { by_next = λ req id res. refl; by_error = λ e req id res. refl }) refl
