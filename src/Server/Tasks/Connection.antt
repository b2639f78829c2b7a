-- ===== src/Server/Tasks/Connection.antt =====
-- `handleConnection` of src/server/btpsServer.ts where the lines of a connection overlap: the
-- listener of `data` is asynchronous, and a line that arrives does not wait for the one before it.
use btps_sdk.Prelude.{ℕ, String, Bool, Option, none, some, List, [], ◌∷◌, ◌==◌, if◌then◌else◌}
use btps_sdk.Crypto.{Platform}
use btps_sdk.Errors.{Thrown, transform_to_exception, invalid_json, validation_error, socket_timeout}
use btps_sdk.Json.{Json}
use btps_sdk.Middleware.{before, after, parsing}
use btps_sdk.Server.Connection.{
  Parsed, bad_json, bad_message, good, ConnectionEvent, line, timed_out, failed_with, exception_of,
  first_res, parsed_res, message_at, empty_request, parsed_request, parse_and_validate,
}
use btps_sdk.Server.Pipeline.{Config, ResCtx, on_world}
use btps_sdk.Server.Signature.{Processed}
use btps_sdk.Server.Tasks
use btps_sdk.Server.Tasks.{Task, stop, TaskOf, once, try_catch, on_copy, forget, unless_sent}
use btps_sdk.Server.Tasks.Pipeline.{middleware, with_error, error_task, pipeline_task}
use btps_sdk.Server.Tasks.Schedule.{Proc, running, beside, Side, advance, advance_pair}
use btps_sdk.Server.World.{World, ReqCtx, Surroundings, send_btps_error}
use btps_sdk.Text.{trim}
use btps_sdk.Trust.Store.{TrustStore}

-- What the event loop does next: something happens to the connection at a time, or a method that
-- waits goes on for a turn.
pub data Choice : Type 0 where
  arrive : ℕ → ConnectionEvent → Choice
  resume : List Side → Choice

abbrev pub event_request : ConnectionEvent → ReqCtx
event_request (line text) = record empty_request { raw_packet = some text }
event_request timed_out = empty_request
event_request (failed_with e) = empty_request

module _ (json_parse : String → Option Json) (validates : Json → Bool) (p : Platform)
    (store : TrustStore) (env : Surroundings) (config : Config store.State) where
  open store use {State}

  abbrev pub handler_of : ResCtx → Thrown → TaskOf State (Unit {0})
  handler_of res e =
      let x = transform_to_exception e in
      forget (with_error p store env config x (error_task p store env config x res))

  abbrev pub after_parsing : Parsed → TaskOf State Bool
  after_parsing m =
      on_copy (parsed_request json_parse validates p store env config m)
        (middleware p store env config after parsing (parsed_res (message_at m)))

  abbrev pub enter_pipeline : ℕ → Processed → TaskOf State (Unit {0})
  enter_pipeline now d =
      on_copy (λ q. record q { message = some d })
        (pipeline_task p store env config now (parsed_res (some d)))

  abbrev pub answer_parsed : ℕ → Parsed → TaskOf State (Unit {0})
  answer_parsed now bad_json = once (on_world (send_btps_error env invalid_json none))
  answer_parsed now (bad_message d) = once (on_world (send_btps_error env validation_error none))
  answer_parsed now (good d) = enter_pipeline now d

  unfoldable pub parsed_task : ℕ → Parsed → TaskOf State (Unit {0})
  unfolding pipeline_task
  parsed_task now m = Tasks.◌>>=◌ (after_parsing m) (λ sent. unless_sent sent (answer_parsed now m))

  unfoldable pub line_task : ℕ → String → TaskOf State (Unit {0})
  unfolding parsed_task parse_and_validate error_task
  line_task now text =
      if trim text == ""
      then Tasks.pure tt
      else try_catch
          (Tasks.◌>>=◌ (middleware p store env config before parsing first_res) (λ sent.
            unless_sent sent (
              try_catch (parsed_task now (parse_and_validate json_parse validates text)) (
                handler_of
                  (parsed_res (message_at (parse_and_validate json_parse validates text)))))))
          (handler_of first_res)

  unfoldable pub event_task : ℕ → ConnectionEvent → TaskOf State (Unit {0})
  unfolding line_task
  event_task now (line text) = line_task now text
  event_task now timed_out =
      let x = exception_of socket_timeout in
      with_error p store env config x (error_task p store env config x first_res)
  event_task now (failed_with e) =
      error_task p store env config (transform_to_exception e) first_res

  -- What the event loop holds of the connection, and the world.
  unfoldable pub choose : Choice → Proc State × World State → Proc State × World State
  unfolding event_task advance
  choose (arrive now e) (a, w) =
      (beside a (running (event_request e) (event_task now e (λ o. stop))), w)
  choose (resume path) s = advance_pair path s

  -- A connection of overlapping lines, by the choices of the event loop.
  unfoldable pub run_choices : List Choice → Proc State × World State → Proc State × World State
  unfolding choose
  run_choices [] s = s
  run_choices (c ∷ cs) s = run_choices cs (choose c s)

abbrev pub arrivals : List Choice → List (ℕ × ConnectionEvent)
arrivals [] = []
arrivals (arrive now e ∷ cs) = (now, e) ∷ arrivals cs
arrivals (resume path ∷ cs) = arrivals cs
