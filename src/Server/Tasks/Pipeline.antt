-- ===== src/Server/Tasks/Pipeline.antt =====
-- `executeMiddleware`, `executeRequestPipeline`, `processMessage` and `handleOnSocketError` of
-- src/server/btpsServer.ts as tasks: each act of a handler, each check (which asks the store
-- once at most) and each answer is a turn.
use btps_sdk.Prelude.{ℕ, Bool, true, false, Option, none, some, List, [], ◌∷◌, map, if◌then◌else◌}
use btps_sdk.Crypto.{Platform}
use btps_sdk.Effects.{Outcome, returned, thrown}
use btps_sdk.Errors.{Thrown, Exception, sig_verification, trust_not_allowed, transform_to_exception}
use btps_sdk.Middleware.{
  Phase, before, after, Step, signature_verification, trust_verification, on_artifact, on_error,
}
use btps_sdk.Middleware.Loading.{get_middleware}
use btps_sdk.Server.Pipeline.{
  Config, ResCtx, on_store, on_world, on_request, socket_closed, note_trust, note_signature,
  success_response, read_message, report, answer,
}
use btps_sdk.Server.Signature.{Processed, transporter, agent, verify_message_signature}
use btps_sdk.Server.Tasks
use btps_sdk.Server.Tasks.{
  Task, turn, TaskOf, once, unless_sent, on_copy, forget, unawaited, at_once, try_catch,
}
use btps_sdk.Server.TrustCheck.{verify_trust}
use btps_sdk.Server.World.{
  emitted, forwarded, Act, Handler, Surroundings, log_entry, destroy, send_btps_error,
  error_response, act_step,
}
use btps_sdk.Trust.{Check}
use btps_sdk.Trust.Store.{TrustStore}

abbrev pub ended_by : Option Thrown → Outcome (Unit {0})
ended_by none = returned tt
ended_by (some e) = thrown e

module _ {S : Type 0} where
  infixl 5 ◌>>=◌ ◌>>◌
  abbrev ◌>>=◌ : {A B : Type 0} → TaskOf S A → (A → TaskOf S B) → TaskOf S B
  ◌>>=◌ = Tasks.◌>>=◌

  abbrev ◌>>◌ : {B : Type 0} → TaskOf S (Unit {0}) → TaskOf S B → TaskOf S B
  ◌>>◌ = Tasks.◌>>◌

module _ {S : Type 0} (env : Surroundings) (res : ResCtx) where
  unfoldable pub acts_task : List (Act S) → Option Thrown → TaskOf S (Unit {0})
  unfolding act_step
  acts_task [] throws = λ k. k (ended_by throws)
  acts_task (a ∷ acts) throws = once (act_step env res.reply res.req_id a) >> acts_task acts throws

  -- A handler chooses its script when it starts, and other tasks run between its acts.
  unfoldable pub handler_task : Handler S → TaskOf S (Unit {0})
  unfolding acts_task
  handler_task h k = turn (λ r. r) (λ r. let s = h r.0 r.1 in acts_task s.acts s.throws k)

  unfoldable pub middleware_task : List (Handler S) → TaskOf S Bool
  unfolding handler_task
  middleware_task [] = Tasks.pure false
  middleware_task (h ∷ hs) = do
    closed ← once socket_closed
    if closed then Tasks.pure true else (do
      handler_task h
      sent ← once socket_closed
      if sent then Tasks.pure true else middleware_task hs)

module _ (p : Platform) (store : TrustStore) (env : Surroundings)
    (config : Config store.State) where
  open store use {State}

  abbrev pub middleware : Phase → Step → ResCtx → TaskOf State Bool
  middleware phase step res =
      middleware_task env res (map (λ d. d.handler) (get_middleware phase step config.manager))

  unfoldable pub error_task : Exception → ResCtx → TaskOf State (Unit {0})
  unfolding middleware_task
  error_task e res = do
    _ ← middleware before on_error res
    once (report p store env config e)
    once (on_world (send_btps_error env e.error res.req_id))
    once (on_world destroy)
    _ ← middleware after on_error res
    Tasks.pure tt

  abbrev pub with_error : {A : Type 0} → Exception → TaskOf State A → TaskOf State A
  with_error e = on_copy (λ q. record q { error = some e })

  -- A listener is given the message and what answers it.
  abbrev pub listener_task : Handler State → ResCtx → TaskOf State (Unit {0})
  listener_task h res = on_copy (λ q. q) (handler_task env res h)

  -- The listeners are taken as synchronous functions, as in `emit`.
  unfoldable pub emit_task :
      List (Processed → Handler State) → Processed → ResCtx → TaskOf State (Unit {0})
  unfolding handler_task
  emit_task [] d res = Tasks.pure tt
  emit_task (l ∷ ls) d res = listener_task (l d) res >> emit_task ls d res

  -- The listeners run beside each other; the handling of what one throws is not awaited.
  abbrev pub handle_throw : ResCtx → Thrown → TaskOf State (Unit {0})
  handle_throw res e =
      let x = transform_to_exception e in unawaited (with_error x (error_task x res))

  unfoldable pub emit_awaited_task :
      List (Processed → Handler State) → Processed → ResCtx → TaskOf State (Unit {0})
  unfolding error_task handler_task
  emit_awaited_task [] d res = Tasks.pure tt
  emit_awaited_task (l ∷ ls) d res =
      at_once (try_catch (listener_task (l d) res) (handle_throw res)) (emit_awaited_task ls d res)

  unfoldable pub forward_task : Processed → ResCtx → TaskOf State (Unit {0})
  unfolding handler_task
  forward_task d res = elim config.handler_fn [
    | none ↦ Tasks.pure tt
    | some f ↦ once (on_world (log_entry (forwarded d))) >> listener_task (f d) res
  ]

  unfoldable pub process_task : Processed → ResCtx → TaskOf State Bool
  unfolding emit_task emit_awaited_task forward_task
  process_task (agent fs respond_now) res = do
    once (on_world (log_entry (emitted (agent fs respond_now))))
    if respond_now
        then emit_awaited_task config.agent_listeners (agent fs respond_now) res
        else emit_task config.agent_listeners (agent fs respond_now) res
    sent ← once socket_closed
    if sent then Tasks.pure true else (forward_task (agent fs respond_now) res >> Tasks.pure false)
  process_task (transporter fs) res = do
    once (on_world (log_entry (emitted (transporter fs))))
    emit_task config.transporter_listeners (transporter fs) res
    forward_task (transporter fs) res
    Tasks.pure false

  unfoldable pub deliver_task : Processed → ResCtx → TaskOf State (Unit {0})
  unfolding process_task middleware_task
  deliver_task d res = do
    sent ← middleware before on_artifact res
    unless_sent sent (do
      processed ← process_task d res
      unless_sent processed (do
        after_sent ← middleware after on_artifact res
        unless_sent after_sent
            (once (answer p store env config (success_response p store env config res)))))

  unfoldable pub after_trust_task : Processed → ResCtx → Check → TaskOf State (Unit {0})
  unfolding deliver_task
  after_trust_task d res check = do
    once (on_request (note_trust p store env config check))
    sent ← middleware after trust_verification res
    unless_sent sent (
        if check.is_valid
        then deliver_task d res
        else once (answer p store env config (error_response env trust_not_allowed none)))

  unfoldable pub check_trust_task : ℕ → Processed → ResCtx → TaskOf State (Unit {0})
  unfolding after_trust_task verify_trust
  check_trust_task now d res = do
    sent ← middleware before trust_verification res
    unless_sent sent (
        once (on_store (verify_trust store p.digest now d))
        >>= (λ check. after_trust_task d res check))

  unfoldable pub after_signature_task : ℕ → Processed → ResCtx → Check → TaskOf State (Unit {0})
  unfolding check_trust_task
  after_signature_task now d res check = do
    once (on_request (note_signature p store env config check))
    sent ← middleware after signature_verification res
    unless_sent sent (
        if check.is_valid
        then check_trust_task now d res
        else once (answer p store env config (error_response env sig_verification none)))

  unfoldable pub check_signature_task : ℕ → Processed → ResCtx → TaskOf State (Unit {0})
  unfolding after_signature_task verify_message_signature
  check_signature_task now d res = do
    check ← once (on_store (verify_message_signature p store d))
    after_signature_task now d res check

  unfoldable pub pipeline_task : ℕ → ResCtx → TaskOf State (Unit {0})
  unfolding check_signature_task
  pipeline_task now res = do
    sent ← middleware before signature_verification res
    unless_sent sent
        (once (read_message p store env config) >>= (λ d. check_signature_task now d res))
