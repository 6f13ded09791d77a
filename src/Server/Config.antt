-- ===== src/Server/Config.antt =====
-- internal/api/server_config.go and pkg/manager/manager_config.go, with the environment and
-- zerolog as arguments.
use integresql.Prelude.{
  ℕ, ◌+◌, ◌-◌, ◌*◌, ◌^◌, ◌%◌, Bool, true, false, Option, [], Text, codes, ltb, leb, if◌then◌else◌,
  ℤ, pos, negsuc,
}
use integresql.Util.Environment.{Env, get_env, get_env_as_int, get_env_as_bool}
use integresql.Util.Context.{log_level_from_string}

pub record EchoConfig : Type 0 where
  pub debug : Bool
  pub listen_address : Text
  pub enable_cors_middleware : Bool
  pub enable_logger_middleware : Bool
  pub enable_recover_middleware : Bool
  pub enable_request_id_middleware : Bool
  pub enable_trailing_slash_middleware : Bool
  pub enable_timeout_middleware : Bool
  -- in nanoseconds
  pub request_timeout : ℤ

-- The levels of zerolog are an `int8`.
pub record LoggerConfig : Type 0 where
  pub level : ℤ
  pub request_level : ℤ
  pub log_request_body : Bool
  pub log_request_header : Bool
  pub log_request_query : Bool
  pub log_response_body : Bool
  pub log_response_header : Bool
  pub pretty_print_console : Bool

pub record ServerConfig : Type 0 where
  pub address : Text
  pub port : ℤ
  pub debug_endpoints : Bool
  pub logger : LoggerConfig
  pub echo : EchoConfig

-- What the code takes from zerolog: `ParseLevel`, the debug level, `InfoLevel.String()`.
pub record Zerolog : Type 0 where
  pub parse_level : Text → Option ℤ
  pub debug_level : ℤ
  pub info_name : Text

-- `time.Millisecond * time.Duration(n)`, in 64 bits.
abbrev below_zero : ℕ → ℤ
below_zero m =
    if ltb m 1 then pos 0 else (if leb m (2 ^ 63) then negsuc (m - 1) else pos (2 ^ 64 - m))

unfoldable pub milliseconds : ℤ → ℤ
milliseconds (pos n) =
    let m = n * 1000000 % 2 ^ 64 in if ltb m (2 ^ 63) then pos m else negsuc (2 ^ 64 - m - 1)
milliseconds (negsuc n) = below_zero ((n + 1) * 1000000 % 2 ^ 64)

unfoldable pub default_server_config_from_env : Zerolog → Env → ServerConfig
unfolding get_env get_env_as_int get_env_as_bool log_level_from_string milliseconds
default_server_config_from_env z env =
    let level_of = log_level_from_string z.parse_level z.debug_level in
    record {
      address = get_env env (codes "INTEGRESQL_ADDRESS") [];
      port = get_env_as_int env (codes "INTEGRESQL_PORT") (pos 5000);
      debug_endpoints = get_env_as_bool env (codes "INTEGRESQL_DEBUG_ENDPOINTS") false;
      echo = record {
        debug = get_env_as_bool env (codes "INTEGRESQL_ECHO_DEBUG") false;
        listen_address = [];
        enable_cors_middleware =
            get_env_as_bool env (codes "INTEGRESQL_ECHO_ENABLE_CORS_MIDDLEWARE") true;
        enable_logger_middleware =
            get_env_as_bool env (codes "INTEGRESQL_ECHO_ENABLE_LOGGER_MIDDLEWARE") true;
        enable_recover_middleware =
            get_env_as_bool env (codes "INTEGRESQL_ECHO_ENABLE_RECOVER_MIDDLEWARE") true;
        enable_request_id_middleware =
            get_env_as_bool env (codes "INTEGRESQL_ECHO_ENABLE_REQUEST_ID_MIDDLEWARE") true;
        enable_trailing_slash_middleware =
            get_env_as_bool env (codes "INTEGRESQL_ECHO_ENABLE_TRAILING_SLASH_MIDDLEWARE") true;
        enable_timeout_middleware =
            get_env_as_bool env (codes "INTEGRESQL_ECHO_ENABLE_REQUEST_TIMEOUT_MIDDLEWARE") true;
        request_timeout =
            milliseconds
              (get_env_as_int env (codes "INTEGRESQL_ECHO_REQUEST_TIMEOUT_MS") (pos 60000));
      };
      logger = record {
        level = level_of (get_env env (codes "INTEGRESQL_LOGGER_LEVEL") z.info_name);
        request_level =
            level_of (get_env env (codes "INTEGRESQL_LOGGER_REQUEST_LEVEL") z.info_name);
        log_request_body = get_env_as_bool env (codes "INTEGRESQL_LOGGER_LOG_REQUEST_BODY") false;
        log_request_header =
            get_env_as_bool env (codes "INTEGRESQL_LOGGER_LOG_REQUEST_HEADER") false;
        log_request_query = get_env_as_bool env (codes "INTEGRESQL_LOGGER_LOG_REQUEST_QUERY") false;
        log_response_body = get_env_as_bool env (codes "INTEGRESQL_LOGGER_LOG_RESPONSE_BODY") false;
        log_response_header =
            get_env_as_bool env (codes "INTEGRESQL_LOGGER_LOG_RESPONSE_HEADER") false;
        pretty_print_console =
            get_env_as_bool env (codes "INTEGRESQL_LOGGER_PRETTY_PRINT_CONSOLE") false;
      };
    }
