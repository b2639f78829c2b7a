-- ===== src/Server/Tasks/Overlapping.antt =====
-- Connections of src/server/btpsServer.ts whose lines overlap: invariants of the single acts after
-- any choices of the event loop, what reaches the application, and what is written to the socket.
use btps_sdk.Prelude.{
  ℕ, ◌≤◌, ◌≡◌, String, Bool, true, ◌&&◌, Option, some, List, [], ◌∷◌, ◌==◌, length, All, arith, inl,
  inr, Bool-cases,
}
use btps_sdk.Crypto.{Platform}
use btps_sdk.Effects.{returned}
use btps_sdk.Errors.{Thrown, transform_to_exception, invalid_json, validation_error, socket_timeout}
use btps_sdk.Json.{Json}
use btps_sdk.Middleware.{before, after, parsing}
use btps_sdk.Server.Checked.{IsChecked, delivered, AllChecked, AllChecked-invariant, is_checked}
use btps_sdk.Server.Connection.{
  Parsed, bad_json, bad_message, good, ConnectionEvent, line, timed_out, failed_with, exception_of,
  first_res, parsed_res, message_at, parsed_request, parse_and_validate,
}
use btps_sdk.Server.Invariant.{IsInvariant, on_error-Keeps}
use btps_sdk.Server.Pipeline.{Config, ResCtx}
use btps_sdk.Server.Signature.{Processed, verify_message_signature}
use btps_sdk.Server.Single.{IsSingle, IsSingle-invariant}
use btps_sdk.Server.Tasks.{Task, stop, turn, fork, both}
use btps_sdk.Server.Tasks.Connection.{
  Choice, arrive, resume, handler_of, answer_parsed, parsed_task, line_task, event_task, choose,
  run_choices,
}
use btps_sdk.Server.Tasks.Kept.{middleware-Safe, error_task-Safe, pipeline_task-Safe}
use btps_sdk.Server.Tasks.Safety.{
  IsSafe, IsSafeBefore, once-Safe, pure-Safe, >>=-Safe, try_catch-Safe, on_copy-Safe, forget-Safe,
  unless_sent-Safe, if-Safe,
}
use btps_sdk.Server.Tasks.Schedule.{
  Proc, finished, running, beside, joining, Side, left, right, is_done, advance, take_turn, join,
}
use btps_sdk.Server.TrustCheck.{verify_trust}
use btps_sdk.Server.World.{World, ReqCtx, Surroundings}
use btps_sdk.Text.{trim}
use btps_sdk.Trust.{Check}
use btps_sdk.Trust.Store.{TrustStore}

module _ {S : Type 0} (P : World S → Type 0) where
  abbrev pub ProcSafe : Proc S → Type 0
  ProcSafe finished = Unit
  ProcSafe (running q t) = IsSafe P t
  ProcSafe (beside a b) = ProcSafe a × ProcSafe b
  ProcSafe (joining a b q t) = ProcSafe a × ProcSafe b × IsSafe P t

  -- What is under way then keeps `P`, and `P` holds if it did in the world before.
  pub record Stays (w : World S) (s : Proc S × World S) : Type 0 where
    pub held : P w → P s.1
    pub safe : ProcSafe s.0

  take_turn-Stays : (t : Task S) (q : ReqCtx) (w : World S) → IsSafe P t → Stays w (take_turn t q w)
  take_turn-Stays stop q w ht = record { held = λ h. h; safe = tt }
  take_turn-Stays (turn f k) q w ht = record { held = (ht (q, w)).0; safe = (ht (q, w)).1 }
  take_turn-Stays (fork t u) q w ht = record { held = λ h. h; safe = ht }
  take_turn-Stays (both t u v) q w ht = record { held = λ h. h; safe = ht }

  join-Safe :
      (a b : Proc S) (q : ReqCtx) (t : Task S)
      → ProcSafe a
      → ProcSafe b
      → IsSafe P t
      → ProcSafe (join a b q t)
  join-Safe a b q t ha hb ht = elim (Bool-cases (is_done a && is_done b)) [
    | inl e ↦ rw e ((ha, hb), ht)
    | inr e ↦ rw e (ha, hb, ht)
  ]

  pub advance-Stays :
      (path : List Side) (a : Proc S) (w : World S) → ProcSafe a → Stays w (advance path a w)
  unfolding advance
  advance-Stays path finished w h = record { held = λ hw. hw; safe = h }
  advance-Stays path (running q t) w h = take_turn-Stays t q w h
  advance-Stays [] (beside a b) w h = record { held = λ hw. hw; safe = h }
  advance-Stays (left ∷ path) (beside a b) w h =
      let k = advance-Stays path a w h.0 in record { held = k.held; safe = (k.safe, h.1) }
  advance-Stays (right ∷ path) (beside a b) w h =
      let k = advance-Stays path b w h.1 in record { held = k.held; safe = (h.0, k.safe) }
  advance-Stays [] (joining a b q t) w h = record {
    held = λ hw. hw;
    safe = join-Safe a b q t h.0 h.1 h.2;
  }
  advance-Stays (left ∷ path) (joining a b q t) w h =
      let k = advance-Stays path a w h.0 in record { held = k.held; safe = (k.safe, h.1, h.2) }
  advance-Stays (right ∷ path) (joining a b q t) w h =
      let k = advance-Stays path b w h.1 in record { held = k.held; safe = (h.0, k.safe, h.2) }

module _ (json_parse : String → Option Json) (validates : Json → Bool) (p : Platform)
    (store : TrustStore) (env : Surroundings) (config : Config store.State) {Q : Processed → Type 0}
    (P : World store.State → Type 0) (inv : IsInvariant env Q P)
    (justify : (now : ℕ) (d : Processed) (s t : store.State) (c c' : Check)
      → (verify_message_signature p store d s).1 ≡ returned c
      → c.is_valid ≡ true
      → (verify_trust store p.digest now d t).1 ≡ returned c'
      → c'.is_valid ≡ true
      → Q d) where
  open store use {State}

  handler_of-Safe :
      (res : ResCtx) (e : Thrown)
      → IsSafeBefore P (handler_of json_parse validates p store env config res e)
  handler_of-Safe res e =
      let x = transform_to_exception e in
      forget-Safe P _ (
        on_copy-Safe P (λ q. record q { error = some x }) _
          (error_task-Safe p store env config P inv x res))

  answer_parsed-Safe :
      (now : ℕ) (m : Parsed)
      → IsSafeBefore P (answer_parsed json_parse validates p store env config now m)
  answer_parsed-Safe now bad_json = once-Safe P _ (on_error-Keeps env P inv invalid_json _)
  answer_parsed-Safe now (bad_message d) =
      once-Safe P _ (on_error-Keeps env P inv validation_error _)
  answer_parsed-Safe now (good d) =
      on_copy-Safe P (λ q. record q { message = some d }) _
        (pipeline_task-Safe p store env config P inv now (justify now) (parsed_res (some d)))

  parsed_task-Safe :
      (now : ℕ) (m : Parsed)
      → IsSafeBefore P (parsed_task json_parse validates p store env config now m)
  unfolding parsed_task
  parsed_task-Safe now m =
      >>=-Safe P _ _
        (on_copy-Safe P (parsed_request json_parse validates p store env config m) _
          (middleware-Safe p store env config P inv after parsing (parsed_res (message_at m))))
        (λ sent. unless_sent-Safe P sent _ (answer_parsed-Safe now m))

  line_task-Safe :
      (now : ℕ) (text : String)
      → IsSafeBefore P (line_task json_parse validates p store env config now text)
  unfolding line_task
  line_task-Safe now text =
      if-Safe P (trim text == "") _ _ (λ _. pure-Safe P tt)
        (try_catch-Safe P _ _
          (>>=-Safe P _ _ (middleware-Safe p store env config P inv before parsing first_res)
            (λ sent. unless_sent-Safe P sent _ (
              try_catch-Safe P _ _
                (parsed_task-Safe now (parse_and_validate json_parse validates text))
                (handler_of-Safe
                  (parsed_res (message_at (parse_and_validate json_parse validates text)))))))
          (handler_of-Safe first_res))

  event_task-Safe :
      (now : ℕ) (e : ConnectionEvent)
      → IsSafeBefore P (event_task json_parse validates p store env config now e)
  unfolding event_task
  event_task-Safe now (line text) = line_task-Safe now text
  event_task-Safe now timed_out =
      on_copy-Safe P (λ q. record q { error = some (exception_of socket_timeout) }) _
        (error_task-Safe p store env config P inv (exception_of socket_timeout) first_res)
  event_task-Safe now (failed_with e) =
      error_task-Safe p store env config P inv (transform_to_exception e) first_res

  pub choose-Stays :
      (c : Choice) (a : Proc State) (w : World State)
      → ProcSafe P a
      → Stays P w (choose json_parse validates p store env config c (a, w))
  unfolding choose
  choose-Stays (arrive now e) a w h = record {
    held = λ hw. hw;
    safe = (h, (event_task-Safe now e).safe (λ o. stop) (λ o. tt));
  }
  choose-Stays (resume path) a w h = advance-Stays P path a w h

  -- An invariant of the single acts holds after any choices of the event loop.
  pub run_choices-Stays :
      (cs : List Choice) (a : Proc State) (w : World State)
      → ProcSafe P a
      → Stays P w (run_choices json_parse validates p store env config cs (a, w))
  unfolding run_choices
  run_choices-Stays [] a w h = record { held = λ hw. hw; safe = h }
  run_choices-Stays (c ∷ cs) a w h =
      let k = choose-Stays c a w h in
      let s = choose json_parse validates p store env config c (a, w) in
      let l = run_choices-Stays cs s.0 s.1 k.safe in
      record { held = λ hw. l.held (k.held hw); safe = l.safe }

-- However the lines of a connection overlap, and whatever the middleware, the listeners and the
-- store are: of every message that a connection with an empty log emits to listeners or forwards,
-- the signature check and the trust check each returned a verdict that is valid, in some states of
-- the store. This takes it that no handler writes in place to a message that the server holds, which
-- the source would let it do.
pub run_choices-IsChecked :
    (json_parse : String → Option Json) (validates : Json → Bool) (p : Platform)
    (store : TrustStore) (env : Surroundings) (config : Config store.State) (cs : List Choice)
    (w : World store.State)
    → w.log ≡ []
    → All
        (IsChecked p store)
        (delivered (run_choices json_parse validates p store env config cs (finished, w)).1.log)
run_choices-IsChecked json_parse validates p store env config cs w e =
    (run_choices-Stays json_parse validates p store env config (AllChecked p store env)
        (AllChecked-invariant p store env) (is_checked p store env) cs finished w tt).held
      (rw e tt)

-- However the lines of a connection overlap, and whatever the middleware, the listeners and the
-- store are: a connection that starts with nothing written is written at most one response, and
-- that conforms to the schema.
pub run_choices-IsSingle :
    (json_parse : String → Option Json) (validates : Json → Bool) (p : Platform)
    (store : TrustStore) (env : Surroundings) (config : Config store.State) (cs : List Choice)
    (w : World store.State)
    → w.written ≡ []
    → let w' = (run_choices json_parse validates p store env config cs (finished, w)).1 in
      (length w'.written ≤ 1) × All (λ r. env.conforms r ≡ true) w'.written
run_choices-IsSingle json_parse validates p store env config cs w e =
    let h =
      (run_choices-Stays json_parse validates p store env config (IsSingle env)
          (IsSingle-invariant env) (λ now d s t c c' a b a' b'. tt) cs finished w tt).held
        (record { unanswered = λ _. e; bounded = rw e (omega arith); conforming = rw e tt }) in
    (h.bounded, h.conforming)
