-- ===== src/Middleware/Messages.antt =====
-- The data of `LoggerWithConfig` of internal/api/middleware/logger.go, and its defaults. A request
-- body is the bytes up to its end and the error of reading them; of a response there is a parameter
-- `R` with what the code reads of it.
use integresql.Prelude.{
  ℕ, Bool, true, false, not, ◌&&◌, Option, none, some, List, [], ◌∷◌, ◌++◌, ◌==◌, Text, codes, ℤ,
  if◌then◌else◌,
}
use integresql.Errors.{Err}
use integresql.Middleware.Headers.{Header, get_header}
use integresql.Middleware.Redaction.{default_header_log_replacer}

abbrev has_prefix : Text → Text → Bool
has_prefix s [] = true
has_prefix [] (p ∷ ps) = false
has_prefix (c ∷ s) (p ∷ ps) = c == p && has_prefix s ps

pub record Body : Type 0 where
  pub content : Text
  pub failure : Option Err

pub record Request : Type 0 where
  pub header : Header
  pub host : Text
  pub method : Text
  pub url : Text
  -- `URL.Query()`
  pub query : Header
  pub body : Option Body
  -- the request id in its context
  pub request_id : Option Text

pub record ResponseReads (R : Type 0) : Type 0 where
  pub header_of : R → Header
  pub status_of : R → ℕ
  pub size_of : R → ℤ

unfoldable pub default_request_body_log_skipper : Request → Bool
unfolding get_header
default_request_body_log_skipper req =
    let content_type = get_header req.header (codes "Content-Type") in
    if has_prefix content_type (codes "application/x-www-form-urlencoded")
    then true
    else has_prefix content_type (codes "multipart/form-data")

unfoldable pub default_response_body_log_skipper :
    {R : Type 0} → ResponseReads R → Request → R → Bool
unfolding get_header
default_response_body_log_skipper reads req res = not (
    has_prefix (get_header (reads.header_of res) (codes "Content-Type")) (codes "application/json"))

abbrev pub default_body_log_replacer : Text → Text
default_body_log_replacer body = body

abbrev default_query_log_replacer : Header → Header
default_query_log_replacer query = query

-- The functions may be nil.
pub record LoggerConfig (R : Type 0) : Type 0 where
  pub skipper : Option (Request → Bool)
  pub level : ℤ
  pub log_request_body : Bool
  pub log_request_header : Bool
  pub log_request_query : Bool
  pub request_body_log_skipper : Option (Request → Bool)
  pub request_body_log_replacer : Option (Text → Text)
  pub request_header_log_replacer : Option (Header → Header)
  pub request_query_log_replacer : Option (Header → Header)
  pub log_response_body : Bool
  pub log_response_header : Bool
  pub response_body_log_skipper : Option (Request → R → Bool)
  pub response_body_log_replacer : Option (Text → Text)
  pub response_header_log_replacer : Option (Header → Header)

-- `DefaultLoggerConfig`, with the debug level of zerolog as an argument.
unfoldable pub default_logger_config :
    {R : Type 0} → ResponseReads R → (debug_level : ℤ) → LoggerConfig R
unfolding default_request_body_log_skipper default_response_body_log_skipper
    default_header_log_replacer
default_logger_config reads debug_level = record {
  skipper = some (λ c. false);
  level = debug_level;
  log_request_body = false;
  log_request_header = false;
  log_request_query = false;
  request_body_log_skipper = some default_request_body_log_skipper;
  request_body_log_replacer = some default_body_log_replacer;
  request_header_log_replacer = some default_header_log_replacer;
  request_query_log_replacer = some default_query_log_replacer;
  log_response_body = false;
  log_response_header = false;
  response_body_log_skipper = some (default_response_body_log_skipper reads);
  response_body_log_replacer = some default_body_log_replacer;
  response_header_log_replacer = none;
}

abbrev pub or_default {ℓ} : {A : Type ℓ} → Option A → A → A
or_default none d = d
or_default (some a) d = a

-- A line of the log.
pub data Event : Type 0 where
  read_failed : Err → Event
  request_received :
      (level : ℤ) (id host method url bytes_in : Text)
      → (req_body : Option Text) (req_header req_query : Option Header) → Event
  response_sent :
      (level : ℤ) (status : ℕ) (bytes_out : ℤ) (error : Option Err)
      → (res_body : Option Text) (res_header : Option Header) → Event

-- The writer of a response: what has gone to the client, and the copy of `bodyDumpResponseWriter`
-- where it is installed.
pub record Writer : Type 0 where
  pub client : Text
  pub copy : Option Text

unfoldable pub write : Writer → Text → Writer
write w b = record {
  client = w.client ++ b;
  copy = elim w.copy [ none ↦ none | some dump ↦ some (dump ++ b) ];
}

abbrev pub write_all : Writer → List Text → Writer
write_all w [] = w
write_all w (b ∷ bs) = write_all (write w b) bs

abbrev pub Handler : Type 0 → Type 0
Handler R = Request → R → R × List Text × Option Err

-- What a handler leaves behind, with the lines in the log.
pub record Served (R : Type 0) : Type 0 where
  pub response : R
  pub writer : Writer
  pub error : Option Err
  pub events : List Event
