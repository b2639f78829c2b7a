-- ===== src/Server/Connection.antt =====
-- `handleConnection` of src/server/btpsServer.ts: the lines of a connection, its timeout and its
-- errors, one after the other. `JSON.parse` and the schema of a message are parameters.
use btps_sdk.Prelude.{
  ℕ, String, Bool, false, ◌&&◌, ◌||◌, not, Option, none, some, List, [], ◌∷◌, ◌==◌, is_some,
  if◌then◌else◌,
}
use btps_sdk.Crypto.{Platform}
use btps_sdk.Effects
use btps_sdk.Errors.{
  BtpError, Thrown, Exception, validation_error, invalid_json, socket_timeout,
  transform_to_exception,
}
use btps_sdk.Json.{Json, obj, Fields, end, get_field, string_of, text_at}
use btps_sdk.Middleware.{before, after, parsing}
use btps_sdk.Server.Pipeline.{
  Run, StepOf, Config, ResCtx, message_id, on_world, unless_sent, with_error, restored, middleware,
  handle_on_socket_error, drop_throw, execute_request_pipeline,
}
use btps_sdk.Server.Signature.{Processed, transporter, agent}
use btps_sdk.Server.World.{World, ReqCtx, Surroundings, send_btps_error}
use btps_sdk.Text.{trim}
use btps_sdk.Trust.Store.{TrustStore}

-- `IMMEDIATE_ACTIONS` of src/core/server/constants/index.ts.
abbrev pub immediate_actions : List String
immediate_actions =
    "system.ping" ∷ "auth.request" ∷ "auth.refresh" ∷ "inbox.fetch" ∷ "inbox.delete" ∷ "inbox.seen"
    ∷ "outbox.fetch" ∷ "outbox.cancel" ∷ "draft.fetch" ∷ "draft.create" ∷ "draft.update"
    ∷ "draft.delete" ∷ "trust.update" ∷ "trust.delete" ∷ "trust.fetch" ∷ "sentbox.fetch"
    ∷ "sentbox.delete" ∷ "trash.fetch" ∷ "trash.delete" ∷ []

unfoldable pub includes : String → List String → Bool
includes s [] = false
includes s (t ∷ ts) = t == s || includes s ts

unfoldable pub is_immediate_action : String → Bool
unfolding includes
is_immediate_action action = includes action immediate_actions

abbrev pub fields_or_end : Json → Fields
fields_or_end (obj fs) = fs
fields_or_end _ = end

-- `isBtpsTransportArtifact`
unfoldable pub is_btps_transport_artifact : Json → Bool
is_btps_transport_artifact j =
    is_some (string_of (get_field "from" (fields_or_end j)))
    && is_some (string_of (get_field "type" (fields_or_end j)))
    && not (is_some (get_field "agentId" (fields_or_end j)))

-- `{ data, error }` of `_parseAndValidateArtifact`.
pub data Parsed : Type 0 where
  bad_json : Parsed
  bad_message : Processed → Parsed
  good : Processed → Parsed

abbrev pub error_of : Parsed → Option BtpError
error_of bad_json = some invalid_json
error_of (bad_message d) = some validation_error
error_of (good d) = none

abbrev pub message_at : Parsed → Option Processed
message_at bad_json = none
message_at (bad_message d) = some d
message_at (good d) = some d

-- What happens to a connection.
pub data ConnectionEvent : Type 0 where
  line : String → ConnectionEvent
  timed_out : ConnectionEvent
  failed_with : Thrown → ConnectionEvent

abbrev pub empty_request : ReqCtx
empty_request = record {
  raw_packet = none;
  message = none;
  is_valid = none;
  is_trusted = none;
  error = none;
}

abbrev pub exception_of : BtpError → Exception
exception_of e = record { error = e; cause = none }

-- The context of the answers before a line is parsed, and after.
abbrev pub first_res : ResCtx
first_res = record { req_id = none; reply = λ r. r }

abbrev pub parsed_res : Option Processed → ResCtx
parsed_res none = record { req_id = none; reply = λ r. record r { req_id = none } }
parsed_res (some d) = record {
  req_id = message_id d;
  reply = λ r. record r { req_id = message_id d };
}

module _ (json_parse : String → Option Json) (validates : Json → Bool) where
  unfoldable pub parse_and_validate : String → Parsed
  unfolding is_btps_transport_artifact is_immediate_action
  parse_and_validate text = elim (json_parse text) [
    | none ↦ bad_json
    | some j ↦
        let fs = fields_or_end j in
        if not (validates j)
        then bad_message (if is_btps_transport_artifact j then transporter fs else agent fs false)
        else good (
            if is_btps_transport_artifact j
            then transporter fs
            else agent fs (is_immediate_action (text_at "action" fs)))
  ]

  module _ (p : Platform) (store : TrustStore) (env : Surroundings)
      (config : Config store.State) where
    open store use {State}

    abbrev pub handler_of : ResCtx → Thrown → StepOf State (Unit {0})
    handler_of res e r =
        let x = transform_to_exception e in
        drop_throw p store env config
          (with_error x (handle_on_socket_error p store env config x res) r)

    -- The middleware after parsing sees a copy of the request with the message and the error.
    abbrev pub parsed_request : Parsed → ReqCtx → ReqCtx
    parsed_request m q = record q {
      message = message_at m;
      error = elim (error_of m) [ none ↦ none | some e ↦ some (exception_of e) ];
    }

    abbrev pub after_parsing : Parsed → StepOf State Bool
    after_parsing m r = restored r.0 (
        middleware p store env config after parsing (parsed_res (message_at m))
          (parsed_request m r.0, r.1))

    -- The pipeline has a context of its own.
    abbrev pub enter_pipeline : ℕ → Processed → StepOf State (Unit {0})
    enter_pipeline now d r = restored r.0 (
        execute_request_pipeline p store env config now (parsed_res (some d))
          (record (r.0) { message = some d }, r.1))

    abbrev pub answer_parsed : ℕ → Parsed → StepOf State (Unit {0})
    answer_parsed now bad_json = on_world (send_btps_error env invalid_json none)
    answer_parsed now (bad_message d) = on_world (send_btps_error env validation_error none)
    answer_parsed now (good d) = enter_pipeline now d

    unfoldable pub handle_parsed : ℕ → Parsed → StepOf State (Unit {0})
    unfolding execute_request_pipeline
    handle_parsed now m =
        Effects.◌>>=◌ (after_parsing m) (λ sent. unless_sent sent (answer_parsed now m))

    -- What the error handling throws itself leaves the method as a rejected promise.
    unfoldable pub handle_line : ℕ → String → StepOf State (Unit {0})
    unfolding handle_parsed parse_and_validate handle_on_socket_error
    handle_line now text =
        if trim text == ""
        then Effects.pure tt
        else Effects.try_catch
            (Effects.◌>>=◌ (middleware p store env config before parsing first_res) (λ sent.
              unless_sent sent (
                Effects.try_catch (handle_parsed now (parse_and_validate text))
                  (handler_of (parsed_res (message_at (parse_and_validate text)))))))
            (handler_of first_res)

    abbrev pub raw : String → World State → Run State
    raw text w = (record empty_request { raw_packet = some text }, w)

    unfoldable pub handle_event : ℕ → ConnectionEvent → World State → World State
    unfolding handle_line
    handle_event now (line text) w = (handle_line now text (raw text w)).0.1
    handle_event now timed_out w =
        (with_error (exception_of socket_timeout)
          (handle_on_socket_error p store env config (exception_of socket_timeout) first_res)
          (empty_request, w)).0.1
    handle_event now (failed_with e) w =
        (handle_on_socket_error p store env config (transform_to_exception e) first_res
          (empty_request, w)).0.1

    -- A connection: what happens to it, each with the time.
    unfoldable pub run_connection : List (ℕ × ConnectionEvent) → World State → World State
    unfolding handle_event
    run_connection [] w = w
    run_connection ((now, e) ∷ es) w = run_connection es (handle_event now e w)
