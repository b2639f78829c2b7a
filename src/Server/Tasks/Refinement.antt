-- ===== src/Server/Tasks/Refinement.antt =====
-- The connections of overlapping lines of src/server/btpsServer.ts against those whose lines are
-- handled one after the other.
use btps_sdk.Prelude.{
  ℕ, ◌≡◌, ◌∙◌, refl, String, Bool, true, Option, none, some, List, [], ◌∷◌, ◌++◌, ◌==◌, map, ap,
}
use btps_sdk.Crypto.{Platform}
use btps_sdk.Effects.{Outcome, returned}
use btps_sdk.Errors.{Thrown, transform_to_exception, invalid_json, validation_error, socket_timeout}
use btps_sdk.Json.{Json}
use btps_sdk.Middleware.{before, after, parsing}
use btps_sdk.Server.Connection
use btps_sdk.Server.Connection.{
  Parsed, bad_json, bad_message, good, ConnectionEvent, line, timed_out, failed_with, exception_of,
  first_res, parsed_res, message_at, parsed_request, parse_and_validate, handle_parsed, handle_line,
  handle_event, run_connection,
}
use btps_sdk.Server.Pipeline.{
  Run, Config, ResCtx, on_world, handle_on_socket_error, drop_throw, with_error,
}
use btps_sdk.Server.Tasks
use btps_sdk.Server.Tasks.{stop, run_alone}
use btps_sdk.Server.Tasks.Alone.{
  RunsAs, once-Runs, pure-Runs, >>=-Runs, try_catch-Runs, on_copy-Runs, unless_sent-Runs, if-Runs,
  forget-Runs, Runs-as,
}
use btps_sdk.Server.Tasks.Connection.{
  Choice, arrive, resume, event_request, parsed_task, line_task, event_task, choose, run_choices,
  arrivals,
}
use btps_sdk.Server.Tasks.Schedule.{
  Proc, finished, running, beside, Side, is_idle, advance_pair, advance_all,
}
use btps_sdk.Server.Tasks.Sequential.{
  middleware-Runs, error_task-Runs, with_error-Runs, pipeline_task-Runs,
}
use btps_sdk.Server.Tasks.Turns.{right-Leads, running-Ends, drains}
use btps_sdk.Server.World.{World, Surroundings, send_btps_error}
use btps_sdk.Text.{trim}
use btps_sdk.Trust.Store.{TrustStore}

module _ (json_parse : String → Option Json) (validates : Json → Bool) (p : Platform)
    (store : TrustStore) (env : Surroundings) (config : Config store.State) where
  open store use {State}

  drop_throw-returned :
      (x : Run State × Outcome (Unit {0})) → (x.0, returned tt) ≡ drop_throw p store env config x
  drop_throw-returned (r, o) = refl

  handler_of-Runs :
      (res : ResCtx) (e : Thrown)
      → RunsAs
          (Tasks.Connection.handler_of json_parse validates p store env config res e)
          (Connection.handler_of json_parse validates p store env config res e)
  handler_of-Runs res e =
      let x = transform_to_exception e in
      let m = with_error x (handle_on_socket_error p store env config x res) in
      Runs-as
        (forget-Runs
          (with_error-Runs p store env config x (error_task-Runs p store env config x res)))
        (λ r. drop_throw-returned (m r))

  answer_parsed-Runs :
      (now : ℕ) (m : Parsed)
      → RunsAs
          (Tasks.Connection.answer_parsed json_parse validates p store env config now m)
          (Connection.answer_parsed json_parse validates p store env config now m)
  answer_parsed-Runs now bad_json = once-Runs (on_world (send_btps_error env invalid_json none))
  answer_parsed-Runs now (bad_message d) =
      once-Runs (on_world (send_btps_error env validation_error none))
  answer_parsed-Runs now (good d) =
      on_copy-Runs (λ q. record q { message = some d })
        (pipeline_task-Runs p store env config now (parsed_res (some d)))

  parsed_task-Runs :
      (now : ℕ) (m : Parsed)
      → RunsAs
          (parsed_task json_parse validates p store env config now m)
          (handle_parsed json_parse validates p store env config now m)
  unfolding parsed_task handle_parsed
  parsed_task-Runs now m =
      >>=-Runs
        (on_copy-Runs (parsed_request json_parse validates p store env config m)
          (middleware-Runs p store env config after parsing (parsed_res (message_at m))))
        (λ sent. unless_sent-Runs sent (answer_parsed-Runs now m))

  line_task-Runs :
      (now : ℕ) (text : String)
      → RunsAs
          (line_task json_parse validates p store env config now text)
          (handle_line json_parse validates p store env config now text)
  unfolding line_task handle_line
  line_task-Runs now text = if-Runs (trim text == "") (pure-Runs tt) (
      try_catch-Runs
        (>>=-Runs (middleware-Runs p store env config before parsing first_res) (λ sent.
          unless_sent-Runs sent (
            try_catch-Runs (parsed_task-Runs now (parse_and_validate json_parse validates text)) (
              handler_of-Runs
                (parsed_res (message_at (parse_and_validate json_parse validates text)))))))
        (handler_of-Runs first_res))

  -- An event with nothing between its turns is handled as it is alone.
  event_task-alone :
      (now : ℕ) (e : ConnectionEvent) (w : World State)
      → run_alone
          (event_task json_parse validates p store env config now e (λ o. stop))
          (event_request e, w)
        ≡ handle_event json_parse validates p store env config now e w
  unfolding event_task handle_event run_alone
  event_task-alone now (line text) w = (line_task-Runs now text).runs (λ o. stop) _
  event_task-alone now timed_out w =
      let x = exception_of socket_timeout in
      (with_error-Runs p store env config x (error_task-Runs p store env config x first_res)).runs
        (λ o. stop) _
  event_task-alone now (failed_with e) w =
      (error_task-Runs p store env config (transform_to_exception e) first_res).runs (λ o. stop) _

  run_choices-append :
      (cs ds : List Choice) (s : Proc State × World State)
      → run_choices json_parse validates p store env config (cs ++ ds) s
        ≡ run_choices json_parse validates p store env config ds
            (run_choices json_parse validates p store env config cs s)
  unfolding run_choices
  run_choices-append [] ds s = refl
  run_choices-append (c ∷ cs) ds s =
      run_choices-append cs ds (choose json_parse validates p store env config c s)

  run_choices-resume :
      (paths : List (List Side)) (s : Proc State × World State)
      → run_choices json_parse validates p store env config (map resume paths) s
        ≡ advance_all paths s
  unfolding run_choices choose advance_all
  run_choices-resume [] s = refl
  run_choices-resume (path ∷ paths) s = run_choices-resume paths (advance_pair path s)

  arrivals-resume :
      (paths : List (List Side)) (cs : List Choice)
      → arrivals (map resume paths ++ cs) ≡ arrivals cs
  arrivals-resume [] cs = refl
  arrivals-resume (path ∷ paths) cs = arrivals-resume paths cs

  -- Further turns that leave nothing under way.
  pub record IsEnding (cs : List Choice) (w : World State) : Type 0 where
    pub paths : List (List Side)
    pub idle :
        is_idle
          (run_choices json_parse validates p store env config
            (cs ++ map resume paths)
            (finished, w)).0
        ≡ true

  -- The choices of the event loop that bring a connection of these events to its end.
  pub record IsSchedule (es : List (ℕ × ConnectionEvent)) (s : Proc State × World State)
      (w : World State) : Type 0 where
    pub choices : List Choice
    pub rest : Proc State
    pub events : arrivals choices ≡ es
    pub idle : is_idle rest ≡ true
    pub reached : run_choices json_parse validates p store env config choices s ≡ (rest, w)

  schedule :
      (es : List (ℕ × ConnectionEvent)) (a : Proc State) (w : World State)
      → is_idle a ≡ true
      → IsSchedule es (a, w) (run_connection json_parse validates p store env config es w)
  unfolding run_connection run_choices choose
  schedule [] a w h = record { choices = []; rest = a; events = refl; idle = h; reached = refl }
  schedule ((now, e) ∷ es) a w h =
      let t = event_task json_parse validates p store env config now e (λ o. stop) in
      let k = running-Ends t (event_request e) w in
      let l = right-Leads a k.turns in
      let w' = handle_event json_parse validates p store env config now e w in
      let m = schedule es (beside a k.rest) w' (rw (h, k.idle) refl) in
      record {
        choices = arrive now e ∷ (map resume l.paths ++ m.choices);
        rest = m.rest;
        events = ap (◌∷◌ (now, e)) (arrivals-resume l.paths m.choices ∙ m.events);
        idle = m.idle;
        reached =
            run_choices-append (map resume l.paths) m.choices _
            ∙ (λ i.
                run_choices json_parse validates p store env config m.choices
                  (run_choices-resume l.paths (beside a (running (event_request e) t), w) i))
            ∙ (λ i. run_choices json_parse validates p store env config m.choices (l.leads i))
            ∙ (λ i.
                run_choices json_parse validates p store env config m.choices
                  (beside a k.rest, event_task-alone now e w i))
            ∙ m.reached;
      }

-- Handling the lines of a connection one after the other is one of the ways in which they overlap:
-- some choices of the event loop have the same events in the same order, leave nothing under way,
-- and end in the same world.
pub run_connection-IsSchedule :
    (json_parse : String → Option Json) (validates : Json → Bool) (p : Platform)
    (store : TrustStore) (env : Surroundings) (config : Config store.State)
    (es : List (ℕ × ConnectionEvent)) (w : World store.State)
    → IsSchedule json_parse validates p store env config es
        (finished, w)
        (run_connection json_parse validates p store env config es w)
run_connection-IsSchedule json_parse validates p store env config es w =
    schedule json_parse validates p store env config es finished w refl

-- Whatever the event loop chose so far, some turns of what is under way bring all of it to its end:
-- no method waits for another for ever.
pub run_choices-ends :
    (json_parse : String → Option Json) (validates : Json → Bool) (p : Platform)
    (store : TrustStore) (env : Surroundings) (config : Config store.State) (cs : List Choice)
    (w : World store.State)
    → IsEnding json_parse validates p store env config cs w
run_choices-ends json_parse validates p store env config cs w =
    let s = run_choices json_parse validates p store env config cs (finished, w) in
    let d = (drains s.0 s.1).ends in
    let ps = d.turns.paths in
    let e =
      run_choices-append json_parse validates p store env config cs (map resume ps) (finished, w)
      ∙ run_choices-resume json_parse validates p store env config ps s
      ∙ d.turns.leads in
    record { paths = ps; idle = ap (λ t. is_idle t.0) e ∙ d.idle }
