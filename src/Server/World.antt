-- ===== src/Server/World.antt =====
-- What a request of src/server/btpsServer.ts acts on: the socket, what was written to it, the trust
-- store, and a log of the calls that leave the server. A middleware handler or a listener is any
-- script of the acts that its context offers, chosen from the request and the world that it sees.
-- Messages are values: a handler that writes in place to the message it was given, or to the raw
-- socket, is no script.
use btps_sdk.Prelude.{
  ℕ, String, Bool, true, false, not, Option, none, some, List, [], ◌∷◌, ◌++◌, if◌then◌else◌,
}
use btps_sdk.Effects.{Outcome, returned, thrown, then_run}
use btps_sdk.Errors.{
  text, number, BtpError, Thrown, Exception, validation_error, transform_to_exception,
}
use btps_sdk.Json.{Json, is_truthy}
use btps_sdk.Server.Signature.{Processed}

-- `destroyed`, `writableEnded`, or neither.
pub data Socket : Type 0 where
  live ended destroyed : Socket

pub data ResponseType : Type 0 where
  btps_error btps_response : ResponseType

-- `BTPServerResponse`, without the parts of an encrypted or signed response.
pub record Response : Type 0 where
  pub version : String
  pub ok : Bool
  pub code : ℕ
  pub message : String
  pub id : String
  pub issued_at : String
  pub type : ResponseType
  pub req_id : Option Json
  pub document : Option Json

-- A call that leaves the server.
pub data Entry : Type 0 where
  emitted : Processed → Entry
  forwarded : Processed → Entry
  reported : Exception → Entry
  response_sent : Response → Entry

pub record World (S : Type 0) : Type 0 where
  pub store : S
  pub socket : Socket
  pub written : List Response
  pub log : List Entry

-- `BTPRequestCtx`
pub record ReqCtx : Type 0 where
  pub raw_packet : Option String
  pub message : Option Processed
  pub is_valid : Option Bool
  pub is_trusted : Option Bool
  pub error : Option Exception

-- An act of a handler: `res.sendRes`, `res.sendError`, the ends of the socket, a write to the
-- request's context, and a use of the trust store. `sendError` is asynchronous: a handler that does
-- not await it loses what it throws.
pub data Act (S : Type 0) : Type 0 where
  send_res : Response → Act S
  send_error : Bool → BtpError → Act S
  end_socket : Act S
  destroy_socket : Act S
  change_request : (ReqCtx → ReqCtx) → Act S
  change_store : (S → S) → Act S

-- A handler's acts in order, and what it throws at the end, if it does.
pub record Script (S : Type 0) : Type 0 where
  pub acts : List (Act S)
  pub throws : Option Thrown

abbrev pub Handler : Type 0 → Type 0
Handler S = ReqCtx → World S → Script S

-- What the server takes from its surroundings: random ids and the clock for its responses, the
-- test of a response by its schema, whether a write to the socket succeeds, and the callback
-- `onError` of the options, which may throw.
pub record Surroundings : Type 0 where
  pub random_uuid : ℕ → String
  pub iso_now : ℕ → String
  pub conforms : Response → Bool
  pub write : Response → Option Thrown
  pub on_error : Exception → Option Thrown

abbrev pub is_closed : Socket → Bool
is_closed live = false
is_closed ended = true
is_closed destroyed = true

abbrev pub count : {A : Type 0} → List A → ℕ
count [] = 0
count (x ∷ xs) = ℕ.suc (count xs)

abbrev pub close_socket : Socket → Socket
close_socket live = ended
close_socket s = s

-- `typeof error.code === 'number' ? error.code : 500`
abbrev pub code_of : BtpError → ℕ
code_of e = elim e.code [ none ↦ 500 | some c ↦ elim c [ text s ↦ 500 | number n ↦ n ] ]

module _ {S : Type 0} where
  abbrev pub log_entry : Entry → World S → World S
  log_entry e w = record w { log = w.log ++ e ∷ [] }

  -- `socket.destroy()`, which leaves a destroyed socket as it is.
  abbrev pub destroy : World S → World S
  destroy w = record w { socket = destroyed }

  -- `socket.end()`
  abbrev pub end_writing : World S → World S
  end_writing w = record w { socket = close_socket w.socket }

  abbrev pub destroy_unless : Option Thrown → World S → World S
  destroy_unless none w = destroy w
  destroy_unless (some t) w = w

  abbrev pub finish : Option Thrown → ReqCtx × World S → (ReqCtx × World S) × Outcome (Unit {0})
  finish none r = (r, returned tt)
  finish (some e) r = (r, thrown e)

  -- What the result of a handler decides: its throw is passed on, and a closed socket means that
  -- the response was sent.
  abbrev pub continue_if :
      ((ReqCtx × World S) → (ReqCtx × World S) × Outcome Bool)
      → (ReqCtx × World S) × Outcome (Unit {0})
      → (ReqCtx × World S) × Outcome Bool
  continue_if rest (r, thrown e) = (r, thrown e)
  continue_if rest (r, returned t) = if is_closed r.1.socket then (r, returned true) else rest r

abbrev pub bad_response : Exception
bad_response = record { error = validation_error; cause = some "Invalid server response format" }

-- What the callback throws where a write fails.
abbrev pub write_throws : Surroundings → Option Thrown → Option Thrown
write_throws env none = none
write_throws env (some e) = env.on_error (transform_to_exception e)

module _ {S : Type 0} (env : Surroundings) where
  -- `onError` and then `socket.destroy()`, which a throw of the callback skips.
  abbrev pub give_up : Exception → World S → World S
  give_up e w = destroy_unless (env.on_error e) (log_entry (reported e) w)

  -- The `try` block of `sendBtpsResponse`.
  abbrev pub write_response : Response → Option Thrown → World S → World S
  write_response r none w = record w {
    written = w.written ++ r ∷ [];
    log = w.log ++ response_sent r ∷ [];
    socket = ended;
  }
  write_response r (some e) w = give_up (transform_to_exception e) w

  unfoldable pub send_btps_response : Response → World S → World S
  send_btps_response r w =
      if is_closed w.socket
      then w
      else if not (env.conforms r)
      then give_up bad_response w
      else write_response r (env.write r) w

  -- What `sendBtpsResponse` throws: what the callback does.
  unfoldable pub send_throws : Response → World S → Option Thrown
  send_throws r w =
      if is_closed w.socket
      then none
      else if not (env.conforms r)
      then env.on_error bad_response
      else write_throws env (env.write r)

  -- An id is random and a time is read for each: both depend on how much has happened.
  unfoldable pub prepare_btps_response :
      Bool → ℕ → String → ResponseType → Option Json → World S → Response
  prepare_btps_response ok code message type req_id w = record {
    version = "1.0.0";
    ok = ok;
    code = code;
    message = message;
    id = env.random_uuid (count w.log);
    issued_at = env.iso_now (count w.log);
    type = type;
    req_id = if is_truthy req_id then req_id else none;
    document = none;
  }

  abbrev pub error_response : BtpError → Option Json → World S → Response
  error_response e req_id = prepare_btps_response false (code_of e) e.message btps_error req_id

  unfoldable pub send_btps_error : BtpError → Option Json → World S → World S
  unfolding prepare_btps_response send_btps_response
  send_btps_error e req_id w = send_btps_response (error_response e req_id w) w

  -- Runs one act; `reply` is what `res.sendRes` does to a response before it is sent, and
  -- `req_id` the one that `res.sendError` passes on.
  unfoldable pub perform :
      (Response → Response) → Option Json → Act S → ReqCtx × World S → ReqCtx × World S
  unfolding send_btps_error send_btps_response
  perform reply req_id (send_res r) (q, w) = (q, send_btps_response (reply r) w)
  perform reply req_id (send_error awaited e) (q, w) = (q, send_btps_error e req_id w)
  perform reply req_id end_socket (q, w) = (q, end_writing w)
  perform reply req_id destroy_socket (q, w) = (q, destroy w)
  perform reply req_id (change_request f) (q, w) = (f q, w)
  perform reply req_id (change_store f) (q, w) = (q, record w { store = f w.store })

  abbrev pub act_throws :
      (Response → Response) → Option Json → Act S → ReqCtx × World S → Option Thrown
  act_throws reply req_id (send_res r) (q, w) = send_throws (reply r) w
  act_throws reply req_id (send_error false e) (q, w) = none
  act_throws reply req_id (send_error true e) (q, w) = send_throws (error_response e req_id w) w
  act_throws reply req_id _ r = none

  -- An act, and what it throws to the handler, which does not catch it.
  unfoldable pub act_step :
      (Response → Response)
      → Option Json
      → Act S
      → ReqCtx × World S
      → (ReqCtx × World S) × Outcome (Unit {0})
  unfolding perform send_throws
  act_step reply req_id a r = finish (act_throws reply req_id a r) (perform reply req_id a r)

  unfoldable pub perform_all :
      (Response → Response)
      → Option Json
      → List (Act S)
      → Option Thrown
      → ReqCtx × World S
      → (ReqCtx × World S) × Outcome (Unit {0})
  unfolding act_step
  perform_all reply req_id [] throws r = finish throws r
  perform_all reply req_id (a ∷ acts) throws r =
      then_run (λ _. perform_all reply req_id acts throws) (act_step reply req_id a r)

  unfoldable pub run_script :
      (Response → Response)
      → Option Json
      → Script S
      → ReqCtx × World S
      → (ReqCtx × World S) × Outcome (Unit {0})
  unfolding perform_all
  run_script reply req_id s r = perform_all reply req_id s.acts s.throws r

  unfoldable pub execute_middleware :
      (Response → Response)
      → Option Json
      → List (Handler S)
      → ReqCtx × World S
      → (ReqCtx × World S) × Outcome Bool
  unfolding run_script
  execute_middleware reply req_id [] r = (r, returned false)
  execute_middleware reply req_id (h ∷ hs) r =
      let run = run_script reply req_id (h r.0 r.1) r in
      let next = continue_if (execute_middleware reply req_id hs) run in
      if is_closed r.1.socket then (r, returned true) else next
