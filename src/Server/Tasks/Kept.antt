-- ===== src/Server/Tasks/Kept.antt =====
-- Invariants of the single acts, through the tasks of the pipeline of src/server/btpsServer.ts.
use btps_sdk.Prelude.{
  ℕ, ◌≡◌, true, false, Option, none, some, List, [], ◌∷◌, Option-cases, inl, inr,
}
use btps_sdk.Crypto.{Platform}
use btps_sdk.Effects.{returned}
use btps_sdk.Errors.{Thrown, Exception, transform_to_exception, sig_verification, trust_not_allowed}
use btps_sdk.Middleware.{
  Phase, Step, before, after, on_error, signature_verification, trust_verification, on_artifact,
}
use btps_sdk.Server.Invariant.{
  IsInvariant, Keeps, report-Keeps, answer-Keeps, on_error-Keeps, on_destroy-Keeps,
  on_emitted-Keeps, on_forwarded-Keeps, on_request-Keeps,
}
use btps_sdk.Server.Pipeline.{
  Config, ResCtx, success_response, note_trust, note_signature, read_message, message_of, Run,
}
use btps_sdk.Server.Signature.{Processed, transporter, agent, verify_message_signature}
use btps_sdk.Server.Tasks.{once}
use btps_sdk.Server.Tasks.Pipeline.{
  middleware, error_task, listener_task, emit_task, handle_throw, emit_awaited_task, forward_task,
  process_task, deliver_task, after_trust_task, check_trust_task, after_signature_task,
  check_signature_task, pipeline_task,
}
use btps_sdk.Server.Tasks.Safety.{
  IsSafeBefore, once-Safe, pure-Safe, >>=-Safe, try_catch-Safe, on_copy-Safe, unawaited-Safe,
  at_once-Safe, unless_sent-Safe, if-Safe, on_store-bind-Safe, handler_task-Safe,
  middleware_task-Safe, closed-Safe,
}
use btps_sdk.Server.TrustCheck.{verify_trust}
use btps_sdk.Server.World.{World, Handler, Surroundings, error_response}
use btps_sdk.Trust.{Check}
use btps_sdk.Trust.Store.{TrustStore}

module _ (p : Platform) (store : TrustStore) (env : Surroundings) (config : Config store.State)
    {Q : Processed → Type 0} (P : World store.State → Type 0) (inv : IsInvariant env Q P) where
  open store use {State}

  pub middleware-Safe :
      (phase : Phase) (step : Step) (res : ResCtx)
      → IsSafeBefore P (middleware p store env config phase step res)
  middleware-Safe phase step res = middleware_task-Safe env P inv res _

  pub error_task-Safe :
      (e : Exception) (res : ResCtx) → IsSafeBefore P (error_task p store env config e res)
  unfolding error_task
  error_task-Safe e res = >>=-Safe P _ _ (middleware-Safe before on_error res) (λ _.
      >>=-Safe P _ _ (once-Safe P _ (report-Keeps p store env config P inv e)) (λ _.
        >>=-Safe P _ _ (once-Safe P _ (on_error-Keeps env P inv e.error res.req_id)) (λ _.
          >>=-Safe P _ _ (once-Safe P _ (on_destroy-Keeps env P inv))
            (λ _. >>=-Safe P _ _ (middleware-Safe after on_error res) (λ _. pure-Safe P tt)))))

  listener_task-Safe :
      (h : Handler State) (res : ResCtx) → IsSafeBefore P (listener_task p store env config h res)
  listener_task-Safe h res = on_copy-Safe P (λ q. q) _ (handler_task-Safe env P inv res h)

  emit_task-Safe :
      (ls : List (Processed → Handler State)) (d : Processed) (res : ResCtx)
      → IsSafeBefore P (emit_task p store env config ls d res)
  unfolding emit_task
  emit_task-Safe [] d res = pure-Safe P tt
  emit_task-Safe (l ∷ ls) d res =
      >>=-Safe P _ _ (listener_task-Safe (l d) res) (λ _. emit_task-Safe ls d res)

  handle_throw-Safe :
      (res : ResCtx) (e : Thrown) → IsSafeBefore P (handle_throw p store env config res e)
  handle_throw-Safe res e =
      let x = transform_to_exception e in
      unawaited-Safe P _
        (on_copy-Safe P (λ q. record q { error = some x }) _ (error_task-Safe x res))

  emit_awaited_task-Safe :
      (ls : List (Processed → Handler State)) (d : Processed) (res : ResCtx)
      → IsSafeBefore P (emit_awaited_task p store env config ls d res)
  unfolding emit_awaited_task
  emit_awaited_task-Safe [] d res = pure-Safe P tt
  emit_awaited_task-Safe (l ∷ ls) d res =
      at_once-Safe P _ _
        (try_catch-Safe P _ _ (listener_task-Safe (l d) res) (handle_throw-Safe res))
        (emit_awaited_task-Safe ls d res)

  forward_task-Safe :
      (d : Processed) (res : ResCtx) → Q d → IsSafeBefore P (forward_task p store env config d res)
  unfolding forward_task
  forward_task-Safe d res ok = elim (Option-cases config.handler_fn) [
    | inl e ↦ rw (e, forward_task) (pure-Safe P tt)
    | inr (f, e) ↦
        rw (e, forward_task)
          (>>=-Safe P _ _ (once-Safe P _ (on_forwarded-Keeps env P inv d ok))
            (λ _. listener_task-Safe (f d) res))
  ]

  process_task-Safe :
      (d : Processed) (res : ResCtx) → Q d → IsSafeBefore P (process_task p store env config d res)
  unfolding process_task
  process_task-Safe (agent fs respond_now) res ok =
      let d = agent fs respond_now in
      >>=-Safe P _ _ (once-Safe P _ (on_emitted-Keeps env P inv d ok)) (λ _.
        >>=-Safe P _ _
          (if-Safe P respond_now _ _ (λ _. emit_awaited_task-Safe config.agent_listeners d res)
            (emit_task-Safe config.agent_listeners d res))
          (λ _. >>=-Safe P _ _ (closed-Safe env P inv) (λ sent.
            if-Safe P sent _ _ (λ _. pure-Safe P true)
              (>>=-Safe P _ _ (forward_task-Safe d res ok) (λ _. pure-Safe P false)))))
  process_task-Safe (transporter fs) res ok =
      let d = transporter fs in
      >>=-Safe P _ _ (once-Safe P _ (on_emitted-Keeps env P inv d ok)) (λ _.
        >>=-Safe P _ _ (emit_task-Safe config.transporter_listeners d res)
          (λ _. >>=-Safe P _ _ (forward_task-Safe d res ok) (λ _. pure-Safe P false)))

  deliver_task-Safe :
      (d : Processed) (res : ResCtx) → Q d → IsSafeBefore P (deliver_task p store env config d res)
  unfolding deliver_task
  deliver_task-Safe d res ok = >>=-Safe P _ _ (middleware-Safe before on_artifact res) (λ sent.
      unless_sent-Safe P sent _ (
        >>=-Safe P _ _ (process_task-Safe d res ok) (λ processed. unless_sent-Safe P processed _ (
          >>=-Safe P _ _ (middleware-Safe after on_artifact res) (λ after_sent.
            unless_sent-Safe P after_sent _ (
              once-Safe P _ (
                answer-Keeps p store env config P inv
                  (success_response p store env config res))))))))

  read_message_keep :
      (m : Option Processed) (r : Run State) → P r.1 → P (message_of p store env config m r).0.1
  read_message_keep none r h = h
  read_message_keep (some d) r h = h

  read_message-Keeps : Keeps P (read_message p store env config)
  read_message-Keeps = record { keep = λ r h. read_message_keep r.0.message r h }

  -- What has passed both checks, each in some state of the store, may be delivered.
  module _ (now : ℕ)
      (justify : (d : Processed) (s t : State) (c c' : Check)
        → (verify_message_signature p store d s).1 ≡ returned c
        → c.is_valid ≡ true
        → (verify_trust store p.digest now d t).1 ≡ returned c'
        → c'.is_valid ≡ true
        → Q d) where
    after_trust_task-Safe :
        (d : Processed) (res : ResCtx) (s t : State) (c c' : Check)
        → (verify_message_signature p store d s).1 ≡ returned c
        → c.is_valid ≡ true
        → (verify_trust store p.digest now d t).1 ≡ returned c'
        → IsSafeBefore P (after_trust_task p store env config d res c')
    unfolding after_trust_task
    after_trust_task-Safe d res s t c c' signed valid trusted =
        >>=-Safe P _ _ (once-Safe P _ (on_request-Keeps P (note_trust p store env config c'))) (λ _.
          >>=-Safe P _ _ (middleware-Safe after trust_verification res) (λ sent.
            unless_sent-Safe P sent _ (
              if-Safe P c'.is_valid _ _
                (λ ok. deliver_task-Safe d res (justify d s t c c' signed valid trusted ok))
                (once-Safe P _ (
                  answer-Keeps p store env config P inv
                    (error_response env trust_not_allowed none))))))

    check_trust_task-Safe :
        (d : Processed) (res : ResCtx) (s : State) (c : Check)
        → (verify_message_signature p store d s).1 ≡ returned c
        → c.is_valid ≡ true
        → IsSafeBefore P (check_trust_task p store env config now d res)
    unfolding check_trust_task
    check_trust_task-Safe d res s c signed valid =
        >>=-Safe P _ _ (middleware-Safe before trust_verification res) (λ sent.
          unless_sent-Safe P sent _ (
            on_store-bind-Safe env P inv (verify_trust store p.digest now d)
              (after_trust_task p store env config d res)
              (λ c' t trusted. after_trust_task-Safe d res s t c c' signed valid trusted)))

    after_signature_task-Safe :
        (d : Processed) (res : ResCtx) (s : State) (c : Check)
        → (verify_message_signature p store d s).1 ≡ returned c
        → IsSafeBefore P (after_signature_task p store env config now d res c)
    unfolding after_signature_task
    after_signature_task-Safe d res s c signed =
        >>=-Safe P _ _ (once-Safe P _ (on_request-Keeps P (note_signature p store env config c)))
          (λ _. >>=-Safe P _ _ (middleware-Safe after signature_verification res) (λ sent.
            unless_sent-Safe P sent _ (
              if-Safe P c.is_valid _ _ (λ ok. check_trust_task-Safe d res s c signed ok)
                (once-Safe P _ (
                  answer-Keeps p store env config P inv
                    (error_response env sig_verification none))))))

    check_signature_task-Safe :
        (d : Processed) (res : ResCtx)
        → IsSafeBefore P (check_signature_task p store env config now d res)
    unfolding check_signature_task
    check_signature_task-Safe d res =
        on_store-bind-Safe env P inv (verify_message_signature p store d)
          (after_signature_task p store env config now d res)
          (λ c s signed. after_signature_task-Safe d res s c signed)

    pub pipeline_task-Safe :
        (res : ResCtx) → IsSafeBefore P (pipeline_task p store env config now res)
    unfolding pipeline_task
    pipeline_task-Safe res =
        >>=-Safe P _ _ (middleware-Safe before signature_verification res) (λ sent.
          unless_sent-Safe P sent _ (
            >>=-Safe P (once (read_message p store env config))
              (λ d. check_signature_task p store env config now d res)
              (once-Safe P _ read_message-Keeps) (λ d. check_signature_task-Safe d res)))
