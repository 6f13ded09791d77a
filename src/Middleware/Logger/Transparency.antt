-- ===== src/Middleware/Logger/Transparency.antt =====
-- What a client sees with the logger of internal/api/middleware/logger.go and without it.
use integresql.Prelude.{
  ◌≡◌, refl, sym, ◌∙◌, ap, subst, Bool, true, false, Option, none, some, List, [], ◌∷◌, ◌++◌, Text,
  arith, if◌then◌else◌,
}
use integresql.Errors.{Err}
use integresql.Middleware.Messages.{
  Body, Request, ResponseReads, LoggerConfig, Event, Writer, write, write_all, Handler, Served,
  default_body_log_replacer, or_default,
}
use integresql.Middleware.Logger.{
  read_all, refilled, after_next, when, forward, body_read, with_body, skips, logs_body, id_of,
  passed_by, logged, logger_with_config, echo_handles, answered_by_echo, received_line,
}

-- The client's part of a writer does not depend on the copy.
client-write_all :
    (bs : List Text) (v w : Writer)
    → v.client ≡ w.client
    → (write_all v bs).client ≡ (write_all w bs).client
unfolding write
client-write_all [] v w h = h
client-write_all (b ∷ bs) v w h = client-write_all bs (write v b) (write w b) (ap (λ c. c ++ b) h)

module _ {R : Type 0} (reads : ResponseReads R) (next : Handler R)
    (handle_error : Err → Request → R → R × List Text) where
  -- One response, the same bytes for the client, and the same error.
  pub record SameForClient (a b : Served R) : Type 0 where
    pub response : a.response ≡ b.response
    pub client : a.writer.client ≡ b.writer.client
    pub error : a.error ≡ b.error

  -- The handlers take two requests alike.
  pub record Alike (req other : Request) : Type 0 where
    pub by_next : (res : R) → next req res ≡ next other res
    pub by_error : (e : Err) (res : R) → handle_error e req res ≡ handle_error e other res

  refilled-same :
      (body : Option Body)
      → (read_all reads next handle_error body).1 ≡ none
      → refilled reads next handle_error body (read_all reads next handle_error body).0 ≡ body
  refilled-same none h = refl
  refilled-same (some b) h = ground (arith, h)

  abbrev fresh : Option Text → Writer
  fresh copy = record { client = []; copy = copy }

  after_next-same :
      (req : Request) (res : R) (v w : Writer) (e : Option Err)
      → v.client ≡ w.client
      → SameForClient
          (record (after_next reads next handle_error req res v e) { error = none })
          (answered_by_echo reads next handle_error req
            (record { response = res; writer = w; error = e; events = [] }))
  after_next-same req res v w none h = record { response = refl; client = h; error = refl }
  after_next-same req res v w (some e) h = record {
    response = refl;
    client = client-write_all (handle_error e req res).1 v w h;
    error = refl;
  }

  forward-same :
      (cfg : LoggerConfig R) (received : Event) (req : Request) (res : R)
      → SameForClient
          (forward reads next handle_error cfg received req res)
          (answered_by_echo reads next handle_error req (passed_by reads next handle_error req res))
  unfolding forward
  forward-same cfg received req res =
      let r = next req res in
      let copy = when reads next handle_error cfg.log_response_body [] in
      let same =
        after_next-same req r.0 (write_all (fresh copy) r.1) (write_all (fresh none) r.1) r.2
          (client-write_all r.1 (fresh copy) (fresh none) refl) in
      record { response = same.response; client = same.client; error = same.error }

  -- The other handlers do not look for the request id in the context of the request.
  pub record IgnoresId : Type 0 where
    pub by_next :
        (req : Request) (id : Option Text) (res : R)
        → next (record req { request_id = id }) res ≡ next req res
    pub by_error :
        (e : Err) (req : Request) (id : Option Text) (res : R)
        → handle_error e (record req { request_id = id }) res ≡ handle_error e req res

  echo_handles-id :
      (req : Request) (id : Option Text) (s : Served R) (e : Option Err)
      → IgnoresId
      → echo_handles reads next handle_error (record req { request_id = id }) s e
        ≡ echo_handles reads next handle_error req s e
  echo_handles-id req id s none v = refl
  echo_handles-id req id s (some e) v =
      ap
        (λ (h : R × List Text). record s {
          response = h.0;
          writer = write_all s.writer h.1;
          error = none;
        })
        (v.by_error e req id s.response)

  passed_by-id :
      (req : Request) (id : Option Text) (res : R)
      → IgnoresId
      → answered_by_echo reads next handle_error
          (record req { request_id = id })
          (passed_by reads next handle_error (record req { request_id = id }) res)
        ≡ answered_by_echo reads next handle_error req (passed_by reads next handle_error req res)
  passed_by-id req id res v =
      ap
        (λ (r : R × List Text × Option Err).
          answered_by_echo reads next handle_error (record req { request_id = id })
            (record {
              response = r.0;
              writer = write_all (record { client = []; copy = none }) r.1;
              error = r.2;
              events = [];
            }))
        (v.by_next req id res)
      ∙ echo_handles-id req id (passed_by reads next handle_error req res) (next req res).2 v

  -- The request is passed on.
  forwarded :
      (cfg : LoggerConfig R) (received : Event) (req : Request) (id : Option Text) (res : R)
      → IgnoresId
      → SameForClient
          (answered_by_echo reads next handle_error req
            (forward reads next handle_error cfg received (record req { request_id = id }) res))
          (answered_by_echo reads next handle_error req (passed_by reads next handle_error req res))
  unfolding forward
  forwarded cfg received req id res v =
      subst
        (λ b.
          SameForClient
            (forward reads next handle_error cfg received (record req { request_id = id }) res) b)
        (passed_by-id req id res v) (forward-same cfg received (record req { request_id = id }) res)

  if_same :
      (flag : Bool) (a b c : Served R) (req : Request)
      → SameForClient (answered_by_echo reads next handle_error req a) c
      → SameForClient (answered_by_echo reads next handle_error req b) c
      → SameForClient (answered_by_echo reads next handle_error req (if flag then a else b)) c
  if_same true a b c req h k = h
  if_same false a b c req h k = k

  read-refilled :
      (cfg : LoggerConfig R) (id : Text) (req : Request) (res : R)
      → (read_all reads next handle_error req.body).1 ≡ none
      → (received : Event) × (with_body reads next handle_error cfg id req res
          ≡ forward reads next handle_error cfg received req res)
  read-refilled cfg id req res readable =
      let bytes = (read_all reads next handle_error req.body).0 in
      let replace = or_default cfg.request_body_log_replacer default_body_log_replacer in
      let received = received_line reads next handle_error cfg id req (some (replace bytes)) in
      (
        received,
        ap (body_read reads next handle_error cfg id req res bytes) readable
            ∙ ap (λ b. forward reads next handle_error cfg received (record req { body = b }) res)
                (refilled-same req.body readable),
      )

  body_logged :
      (cfg : LoggerConfig R) (id : Text) (req : Request) (res : R)
      → IgnoresId
      → (read_all reads next handle_error req.body).1 ≡ none
      → SameForClient
          (answered_by_echo reads next handle_error req
            (with_body reads next handle_error cfg id (record req { request_id = some id }) res))
          (answered_by_echo reads next handle_error req (passed_by reads next handle_error req res))
  body_logged cfg id req res v readable =
      let (received, e) = read-refilled cfg id (record req { request_id = some id }) res readable in
      subst
        (λ s. SameForClient (answered_by_echo reads next handle_error req s) (
          answered_by_echo reads next handle_error req (passed_by reads next handle_error req res)))
        (sym e) (forwarded cfg received req (some id) res v)

  -- Whatever is logged, and how, the client gets the response, the bytes and the error handling that
  -- it gets without the logger, if the body of the request can be read to its end and the other
  -- handlers do not look for the request id in the context.
  pub logger_with_config-same :
      (cfg : LoggerConfig R) (req : Request) (res : R)
      → IgnoresId
      → (read_all reads next handle_error req.body).1 ≡ none
      → SameForClient
          (answered_by_echo reads next handle_error req
            (logger_with_config reads next handle_error cfg req res))
          (answered_by_echo reads next handle_error req (passed_by reads next handle_error req res))
  unfolding logger_with_config
  logger_with_config-same cfg req res v readable =
      let id = id_of reads next handle_error req res in
      let other = record req { request_id = some id } in
      let line = received_line reads next handle_error cfg id other none in
      let plain =
        answered_by_echo reads next handle_error req (passed_by reads next handle_error req res) in
      if_same (skips reads next handle_error cfg req) (passed_by reads next handle_error req res)
        (logged reads next handle_error cfg id other res) plain req
        (record { response = refl; client = refl; error = refl })
        (if_same (logs_body reads next handle_error cfg other)
          (with_body reads next handle_error cfg id other res)
          (forward reads next handle_error cfg line other res) plain req
          (body_logged cfg id req res v readable) (forwarded cfg line req (some id) res v))
