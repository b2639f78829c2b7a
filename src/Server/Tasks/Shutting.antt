-- ===== src/Server/Tasks/Shutting.antt =====
-- The tasks of src/server/btpsServer.ts that close the socket.
use btps_sdk.Prelude.{
  ℕ, ◌≡◌, refl, Bool, false, Option, none, some, List, [], ◌∷◌, inl, inr, Option-cases, String,
  ◌==◌,
}
use btps_sdk.Crypto.{Platform}
use btps_sdk.Errors.{
  Thrown, Exception, transform_to_exception, invalid_json, validation_error, sig_verification,
  trust_not_allowed, socket_timeout,
}
use btps_sdk.Json.{Json}
use btps_sdk.Middleware.{
  Phase, Step, before, after, parsing, on_error, signature_verification, trust_verification,
  on_artifact,
}
use btps_sdk.Middleware.Loading.{get_middleware}
use btps_sdk.Server.Closing.{on_error-Closes, answer-Closes, send_btps_response-IsClosed}
use btps_sdk.Server.Connection.{
  Parsed, bad_json, bad_message, good, ConnectionEvent, line, timed_out, failed_with, exception_of,
  first_res, parsed_res, message_at, parsed_request, parse_and_validate,
}
use btps_sdk.Server.Pipeline.{
  Config, ResCtx, on_store, on_world, on_request, success_response, note_trust, note_signature,
  read_message,
}
use btps_sdk.Server.Signature.{Processed, transporter, agent, verify_message_signature}
use btps_sdk.Server.Tasks.Connection.{handler_of, answer_parsed, parsed_task, line_task, event_task}
use btps_sdk.Server.Tasks.Pipeline.{
  middleware, error_task, listener_task, emit_task, emit_awaited_task, forward_task, process_task,
  deliver_task, after_trust_task, check_trust_task, after_signature_task, check_signature_task,
  pipeline_task, middleware_task,
}
use btps_sdk.Server.Tasks.Sealing.{
  Seals, Shuts, Anything, Nothing, IsUnsent, Shuts-Seals, once-any, once-Shuts, closed-Seals,
  pure-Seals, >>=-Seals, any-then-Seals, try_catch-Shuts, on_copy-Seals, on_copy-Shuts,
  forget-Shuts, if-Seals, unsent-Seals, guarded, handler_task-any, middleware_task-Seals,
}
use btps_sdk.Server.TrustCheck.{verify_trust}
use btps_sdk.Server.World.{
  Handler, Surroundings, emitted, forwarded, log_entry, send_btps_error, error_response,
}
use btps_sdk.Text.{trim}
use btps_sdk.Trust.{Check}
use btps_sdk.Trust.Store.{TrustStore}

-- The event is a line of white space, which the server skips.
abbrev pub is_skipped : ConnectionEvent → Bool
is_skipped (line text) = trim text == ""
is_skipped timed_out = false
is_skipped (failed_with e) = false

module _ (p : Platform) (store : TrustStore) (env : Surroundings)
    (config : Config store.State) where
  open store use {State}

  middleware-Seals :
      (phase : Phase) (step : Step) (res : ResCtx)
      → Seals (middleware p store env config phase step res) IsUnsent
  middleware-Seals phase step res = middleware_task-Seals env res _

  listener_task-any :
      (h : Handler State) (res : ResCtx) → Seals (listener_task p store env config h res) Anything
  listener_task-any h res = on_copy-Seals (λ q. q) (handler_task-any env res h)

  emit_task-any :
      (ls : List (Processed → Handler State)) (d : Processed) (res : ResCtx)
      → Seals (emit_task p store env config ls d res) Anything
  unfolding emit_task
  emit_task-any [] d res = pure-Seals tt tt
  emit_task-any (l ∷ ls) d res =
      any-then-Seals (listener_task-any (l d) res) (λ _. emit_task-any ls d res)

  emit_awaited_task-any :
      (ls : List (Processed → Handler State)) (d : Processed) (res : ResCtx)
      → Seals (emit_awaited_task p store env config ls d res) Anything
  unfolding emit_awaited_task
  emit_awaited_task-any [] d res = pure-Seals tt tt
  emit_awaited_task-any (l ∷ ls) d res = record { seals = λ k hk he. hk tt tt }

  forward_task-any :
      (d : Processed) (res : ResCtx) → Seals (forward_task p store env config d res) Anything
  unfolding forward_task
  forward_task-any d res = elim (Option-cases config.handler_fn) [
    | inl e ↦ rw (e, forward_task) (pure-Seals tt tt)
    | inr (f, e) ↦
        rw (e, forward_task)
          (any-then-Seals (once-any (on_world (log_entry (forwarded d))))
            (λ _. listener_task-any (f d) res))
  ]

  process_task-Seals :
      (d : Processed) (res : ResCtx) → Seals (process_task p store env config d res) IsUnsent
  unfolding process_task
  process_task-Seals (agent fs respond_now) res =
      let d = agent fs respond_now in
      any-then-Seals (once-any (on_world (log_entry (emitted d)))) (λ _.
        any-then-Seals
          (if-Seals respond_now (emit_awaited_task-any config.agent_listeners d res)
            (emit_task-any config.agent_listeners d res))
          (λ _. >>=-Seals IsUnsent closed-Seals (λ sent e.
            unsent-Seals sent e
              (any-then-Seals (forward_task-any d res) (λ _. pure-Seals false refl)))))
  process_task-Seals (transporter fs) res =
      let d = transporter fs in
      any-then-Seals (once-any (on_world (log_entry (emitted d)))) (λ _.
        any-then-Seals (emit_task-any config.transporter_listeners d res)
          (λ _. any-then-Seals (forward_task-any d res) (λ _. pure-Seals false refl)))

  module _ (calm : (e : Exception) → env.on_error e ≡ none) where
    deliver_task-Seals :
        (d : Processed) (res : ResCtx) → Seals (deliver_task p store env config d res) Nothing
    unfolding deliver_task
    deliver_task-Seals d res = guarded (middleware-Seals before on_artifact res) (
        guarded (process_task-Seals d res) (
          guarded (middleware-Seals after on_artifact res) (
            Shuts-Seals (
              once-Shuts _ (
                answer-Closes p store env config calm (success_response p store env config res))))))

    after_trust_task-Seals :
        (d : Processed) (res : ResCtx) (c : Check)
        → Seals (after_trust_task p store env config d res c) Nothing
    unfolding after_trust_task
    after_trust_task-Seals d res c =
        any-then-Seals (once-any (on_request (note_trust p store env config c))) (λ _.
          guarded (middleware-Seals after trust_verification res) (
            if-Seals c.is_valid (deliver_task-Seals d res) (
              Shuts-Seals (
                once-Shuts _ (
                  answer-Closes p store env config calm
                    (error_response env trust_not_allowed none))))))

    check_trust_task-Seals :
        (now : ℕ) (d : Processed) (res : ResCtx)
        → Seals (check_trust_task p store env config now d res) Nothing
    unfolding check_trust_task
    check_trust_task-Seals now d res = guarded (middleware-Seals before trust_verification res) (
        any-then-Seals (once-any (on_store (verify_trust store p.digest now d)))
          (after_trust_task-Seals d res))

    after_signature_task-Seals :
        (now : ℕ) (d : Processed) (res : ResCtx) (c : Check)
        → Seals (after_signature_task p store env config now d res c) Nothing
    unfolding after_signature_task
    after_signature_task-Seals now d res c =
        any-then-Seals (once-any (on_request (note_signature p store env config c))) (λ _.
          guarded (middleware-Seals after signature_verification res) (
            if-Seals c.is_valid (check_trust_task-Seals now d res) (
              Shuts-Seals (
                once-Shuts _ (
                  answer-Closes p store env config calm
                    (error_response env sig_verification none))))))

    pipeline_task-Seals :
        (now : ℕ) (res : ResCtx) → Seals (pipeline_task p store env config now res) Nothing
    unfolding pipeline_task check_signature_task
    pipeline_task-Seals now res = guarded (middleware-Seals before signature_verification res) (
        any-then-Seals (once-any (read_message p store env config)) (λ d.
          any-then-Seals (once-any (on_store (verify_message_signature p store d)))
            (after_signature_task-Seals now d res)))

    module _ (quiet : get_middleware before on_error config.manager ≡ []) where
      error_task-Shuts :
          (e : Exception) (res : ResCtx) → Shuts (error_task p store env config e res)
      unfolding error_task middleware_task send_btps_error
      error_task-Shuts e res = record {
        shuts = λ k.
            rw (quiet, calm e) (λ r. inr (λ r'. inl (send_btps_response-IsClosed env calm _ r'.1)));
      }

      module _ (json_parse : String → Option Json) (validates : Json → Bool) where
        handler_of-Shuts :
            (res : ResCtx) (e : Thrown)
            → Shuts (handler_of json_parse validates p store env config res e)
        handler_of-Shuts res e =
            let x = transform_to_exception e in
            forget-Shuts (on_copy-Shuts (λ q. record q { error = some x }) (error_task-Shuts x res))

        answer_parsed-Seals :
            (now : ℕ) (m : Parsed)
            → Seals (answer_parsed json_parse validates p store env config now m) Nothing
        answer_parsed-Seals now bad_json =
            Shuts-Seals (once-Shuts _ (on_error-Closes env calm invalid_json none))
        answer_parsed-Seals now (bad_message d) =
            Shuts-Seals (once-Shuts _ (on_error-Closes env calm validation_error none))
        answer_parsed-Seals now (good d) =
            on_copy-Seals (λ q. record q { message = some d })
              (pipeline_task-Seals now (parsed_res (some d)))

        parsed_task-Seals :
            (now : ℕ) (m : Parsed)
            → Seals (parsed_task json_parse validates p store env config now m) Nothing
        unfolding parsed_task
        parsed_task-Seals now m =
            guarded
              (on_copy-Seals (parsed_request json_parse validates p store env config m)
                (middleware-Seals after parsing (parsed_res (message_at m))))
              (answer_parsed-Seals now m)

        line_task-Shuts :
            (now : ℕ) (text : String)
            → (trim text == "") ≡ false
            → Shuts (line_task json_parse validates p store env config now text)
        unfolding line_task
        line_task-Shuts now text shown = rw shown (
            try_catch-Shuts
              (guarded (middleware-Seals before parsing first_res) (
                Shuts-Seals (
                  try_catch-Shuts
                    (parsed_task-Seals now (parse_and_validate json_parse validates text))
                    (handler_of-Shuts
                      (parsed_res (message_at (parse_and_validate json_parse validates text)))))))
              (handler_of-Shuts first_res))

        -- An event that is no blank line does not come to its end before the socket is closed.
        pub event_task-Shuts :
            (now : ℕ) (e : ConnectionEvent)
            → is_skipped e ≡ false
            → Shuts (event_task json_parse validates p store env config now e)
        unfolding event_task
        event_task-Shuts now (line text) shown = line_task-Shuts now text shown
        event_task-Shuts now timed_out shown =
            on_copy-Shuts (λ q. record q { error = some (exception_of socket_timeout) })
              (error_task-Shuts (exception_of socket_timeout) first_res)
        event_task-Shuts now (failed_with e) shown =
            error_task-Shuts (transform_to_exception e) first_res
