-- ===== src/Middleware/Logger.antt =====
-- `LoggerWithConfig` of internal/api/middleware/logger.go. Of Echo, the other handlers are
-- parameters: `next` returns the response, what it has written through the writer of the response,
-- and its error; `handle_error` is `c.Error`.
pub mod Transparency
use integresql.Prelude.{
  ℕ, Bool, true, false, not, ◌&&◌, Option, none, some, List, [], ◌∷◌, ◌++◌, Text, codes,
  if◌then◌else◌,
}
use integresql.Errors.{Err}
use integresql.Middleware.Headers.{get_header}
use integresql.Middleware.Redaction.{default_header_log_replacer}
use integresql.Middleware.Messages.{
  Body, Request, ResponseReads, LoggerConfig, default_request_body_log_skipper,
  default_response_body_log_skipper, default_body_log_replacer, or_default, Event, read_failed,
  request_received, response_sent, Writer, write, write_all, Handler, Served,
}

module _ {R : Type 0} (reads : ResponseReads R) (next : Handler R)
    (handle_error : Err → Request → R → R × List Text) where
  -- `io.ReadAll(req.Body)`, of which nothing is left for the handlers.
  abbrev pub read_all : Option Body → Text × Option Err
  read_all none = ([], none)
  read_all (some b) = (b.content, b.failure)

  -- The body that the handlers get to read again.
  abbrev pub refilled : Option Body → Text → Option Body
  refilled none bytes = none
  refilled (some b) bytes = some (record { content = bytes; failure = none })

  abbrev pub when {ℓ} : {A : Type ℓ} → Bool → A → Option A
  when flag a = if flag then some a else none

  abbrev pub first_of : Text → Text → Text
  first_of [] other = other
  first_of (c ∷ s) other = c ∷ s

  -- `c.Error(err)`, where there is an error.
  abbrev pub after_next : Request → R → Writer → Option Err → Served R
  after_next req res w none = record { response = res; writer = w; error = none; events = [] }
  after_next req res w (some e) =
      let h = handle_error e req res in
      record { response = h.0; writer = write_all w h.1; error = some e; events = [] }

  abbrev pub serve_next : Request → R → Writer → Served R
  serve_next req res w = let r = next req res in after_next req r.0 (write_all w r.1) r.2

  abbrev pub dump_of : Option Text → Text
  dump_of none = []
  dump_of (some dump) = dump

  -- From `le.Msg("Request received")` on, for the request that is passed on.
  unfoldable pub forward : LoggerConfig R → Event → Request → R → Served R
  unfolding write default_response_body_log_skipper default_header_log_replacer
  forward cfg received req res =
      let s = serve_next req res (record { client = []; copy = when cfg.log_response_body [] }) in
      let skip =
        or_default cfg.response_body_log_skipper (default_response_body_log_skipper reads) in
      let shown_body = or_default cfg.response_body_log_replacer default_body_log_replacer in
      let shown_header = or_default cfg.response_header_log_replacer default_header_log_replacer in
      let sent =
        response_sent cfg.level (reads.status_of s.response) (reads.size_of s.response) s.error
          (when (cfg.log_response_body && not (skip req s.response))
            (shown_body (dump_of s.writer.copy)))
          (when cfg.log_response_header (shown_header (reads.header_of s.response))) in
      record {
        response = s.response;
        writer = s.writer;
        error = none;
        events = received ∷ sent ∷ [];
      }

  abbrev pub received_line : LoggerConfig R → Text → Request → Option Text → Event
  received_line cfg id req body =
      request_received cfg.level id req.host req.method req.url
        (first_of (get_header req.header (codes "Content-Length")) (codes "0")) body
        (when cfg.log_request_header
          ((or_default cfg.request_header_log_replacer default_header_log_replacer) req.header))
        (when cfg.log_request_query req.query)

  -- The body of the request is logged, once it has been read.
  abbrev pub body_read : LoggerConfig R → Text → Request → R → Text → Option Err → Served R
  body_read cfg id req res bytes (some e) = record {
    response = res;
    writer = record { client = []; copy = none };
    error = some e;
    events = read_failed e ∷ [];
  }
  body_read cfg id req res bytes none =
      let replace = or_default cfg.request_body_log_replacer default_body_log_replacer in
      forward cfg (received_line cfg id req (some (replace bytes)))
        (record req { body = refilled req.body bytes }) res

  abbrev pub with_body : LoggerConfig R → Text → Request → R → Served R
  with_body cfg id req res = let body = read_all req.body in body_read cfg id req res body.0 body.1

  abbrev pub skips : LoggerConfig R → Request → Bool
  skips cfg req = (or_default cfg.skipper (λ r. false)) req

  abbrev pub logs_body : LoggerConfig R → Request → Bool
  logs_body cfg req =
      let skip = or_default cfg.request_body_log_skipper default_request_body_log_skipper in
      cfg.log_request_body && not (skip req)

  abbrev pub id_of : Request → R → Text
  id_of req res =
      first_of (get_header req.header (codes "X-Request-ID"))
        (get_header (reads.header_of res) (codes "X-Request-ID"))

  -- `return next(c)`
  abbrev pub passed_by : Request → R → Served R
  passed_by req res =
      let r = next req res in
      record {
        response = r.0;
        writer = write_all (record { client = []; copy = none }) r.1;
        error = r.2;
        events = [];
      }

  abbrev pub logged : LoggerConfig R → Text → Request → R → Served R
  logged cfg id req res =
      if logs_body cfg req
      then with_body cfg id req res
      else forward cfg (received_line cfg id req none) req res

  -- The handler that the middleware makes of `next`.
  unfoldable pub logger_with_config : LoggerConfig R → Request → R → Served R
  unfolding forward default_request_body_log_skipper default_header_log_replacer get_header write
  logger_with_config cfg req res =
      let id = id_of req res in
      if skips cfg req
      then passed_by req res
      else logged cfg id (record req { request_id = some id }) res

  -- Echo around the outermost handler: an error that comes back goes to `c.Error`.
  abbrev pub echo_handles : Request → Served R → Option Err → Served R
  echo_handles req s none = s
  echo_handles req s (some e) =
      let h = handle_error e req s.response in
      record s { response = h.0; writer = write_all s.writer h.1; error = none }

  abbrev pub answered_by_echo : Request → Served R → Served R
  answered_by_echo req s = echo_handles req s s.error
