-- ===== src/Server/Pipeline.antt =====
-- `executeRequestPipeline`, `processMessage` and `handleOnSocketError` of src/server/btpsServer.ts.
use btps_sdk.Prelude.{ℕ, Bool, true, false, Option, none, some, List, [], ◌∷◌, map, if◌then◌else◌}
use btps_sdk.Effects
use btps_sdk.Effects.{Outcome, returned, thrown}
use btps_sdk.Crypto.{Platform}
use btps_sdk.Errors.{Thrown, Exception, sig_verification, trust_not_allowed, transform_to_exception}
use btps_sdk.Json.{Json, get_field}
use btps_sdk.Middleware.{
  Phase, before, after, Step, signature_verification, trust_verification, on_artifact, on_error,
}
use btps_sdk.Middleware.Loading.{Manager, get_middleware}
use btps_sdk.Server.Signature.{Processed, transporter, agent, verify_message_signature}
use btps_sdk.Server.TrustCheck.{verify_trust}
use btps_sdk.Server.World.{
  btps_response, Response, emitted, forwarded, reported, World, ReqCtx, Handler, Surroundings,
  is_closed, log_entry, destroy, send_btps_response, send_btps_error, prepare_btps_response,
  run_script, execute_middleware, finish, send_throws, error_response,
}
use btps_sdk.Trust.{Check}
use btps_sdk.Trust.Store.{TrustStore}

-- The state of a request: its context and the world.
abbrev pub Run : Type 0 → Type 0
Run S = ReqCtx × World S

abbrev pub StepOf : Type 0 → Type 0 → Type 0
StepOf S A = Effects.Act (Run S) A

-- What the server was configured with: the middleware, the listeners of the two events, and the
-- handler of `forwardTo`. A listener is given the message; so is the handler.
pub record Config (S : Type 0) : Type 0 where
  pub manager : Manager (Handler S) (Unit {0})
  pub agent_listeners : List (Processed → Handler S)
  pub transporter_listeners : List (Processed → Handler S)
  pub handler_fn : Option (Processed → Handler S)

-- `resCtx`: the id that answers carry, and how `sendRes` changes a response.
pub record ResCtx : Type 0 where
  pub req_id : Option Json
  pub reply : Response → Response

abbrev pub message_id : Processed → Option Json
message_id (transporter fs) = get_field "id" fs
message_id (agent fs respond_now) = get_field "id" fs

module _ {S : Type 0} where
  infixl 5 ◌>>=◌ ◌>>◌
  abbrev ◌>>=◌ : {A B : Type 0} → StepOf S A → (A → StepOf S B) → StepOf S B
  ◌>>=◌ = Effects.◌>>=◌

  abbrev ◌>>◌ : {B : Type 0} → StepOf S (Unit {0}) → StepOf S B → StepOf S B
  ◌>>◌ = Effects.◌>>◌

  -- A use of the trust store, whose throw is passed on.
  abbrev pub stored : {A : Type 0} → ReqCtx → World S → S × Outcome A → Run S × Outcome A
  stored q w (s, o) = ((q, record w { store = s }), o)

  abbrev pub on_store : {A : Type 0} → Effects.Act S A → StepOf S A
  on_store m (q, w) = stored q w (m w.store)

  abbrev pub on_world : (World S → World S) → StepOf S (Unit {0})
  on_world f (q, w) = ((q, f w), returned tt)

  abbrev pub on_request : (ReqCtx → ReqCtx) → StepOf S (Unit {0})
  on_request f (q, w) = ((f q, w), returned tt)

  -- `if (b) return;`, and else the rest.
  abbrev pub unless_sent : Bool → StepOf S (Unit {0}) → StepOf S (Unit {0})
  unless_sent sent rest r = if sent then (r, returned tt) else rest r

  -- Runs on a copy of the request's context, `{ ...reqCtx, error }`.
  abbrev pub restored : {A : Type 0} → ReqCtx → Run S × Outcome A → Run S × Outcome A
  restored q ((_, w), o) = ((q, w), o)

  abbrev pub with_error : {A : Type 0} → Exception → StepOf S A → StepOf S A
  with_error e m (q, w) = restored q (m (record q { error = some e }, w))

  abbrev pub socket_closed : StepOf S Bool
  socket_closed (q, w) = ((q, w), returned (is_closed w.socket))

module _ (p : Platform) (store : TrustStore) (env : Surroundings)
    (config : Config store.State) where
  open store use {State}

  abbrev pub middleware : Phase → Step → ResCtx → StepOf State Bool
  middleware phase step res =
      execute_middleware env res.reply res.req_id
        (map (λ d. d.handler) (get_middleware phase step config.manager))

  -- `this.onError?.(e)`, whose throw is passed on.
  abbrev pub report : Exception → StepOf State (Unit {0})
  report e (q, w) = finish (env.on_error e) (q, log_entry (reported e) w)

  -- `sendBtpsResponse`, whose throw is passed on.
  abbrev pub answer : (World State → Response) → StepOf State (Unit {0})
  answer f (q, w) = finish (send_throws env (f w) w) (q, send_btps_response env (f w) w)

  -- `handleOnSocketError`; `sendBtpsError` is not awaited there, and what it throws is lost.
  unfoldable pub handle_on_socket_error : Exception → ResCtx → StepOf State (Unit {0})
  handle_on_socket_error e res = do
    _ ← middleware before on_error res
    report e
    on_world (send_btps_error env e.error res.req_id)
    on_world destroy
    _ ← middleware after on_error res
    Effects.pure tt

  -- A listener is given the message and what answers it, and does not write to the request.
  abbrev pub run_handler : Handler State → ResCtx → StepOf State (Unit {0})
  run_handler h res r = restored r.0 (run_script env res.reply res.req_id (h r.0 r.1) r)

  -- `emitter.emit`: the listeners run in order, and the first throw ends the call. The listeners are
  -- taken as synchronous functions: what one does or throws later, `emit` would not wait for.
  unfoldable pub emit :
      List (Processed → Handler State) → Processed → ResCtx → StepOf State (Unit {0})
  unfolding run_script
  emit [] d res = Effects.pure tt
  emit (l ∷ ls) d res = run_handler (l d) res >> emit ls d res

  -- `awaitableEmitIfNeeded` with `shouldAwait`: what a listener throws is handled on the spot, and
  -- the others run. The handling is not awaited there: what it throws itself is lost.
  abbrev pub drop_throw : Run State × Outcome (Unit {0}) → Run State × Outcome (Unit {0})
  drop_throw (r, o) = (r, returned tt)

  abbrev pub handle_throw : ResCtx → Thrown → StepOf State (Unit {0})
  handle_throw res e r =
      let x = transform_to_exception e in drop_throw (with_error x (handle_on_socket_error x res) r)

  unfoldable pub emit_awaited :
      List (Processed → Handler State) → Processed → ResCtx → StepOf State (Unit {0})
  unfolding handle_on_socket_error run_script
  emit_awaited [] d res = Effects.pure tt
  emit_awaited (l ∷ ls) d res =
      Effects.try_catch (run_handler (l d) res) (handle_throw res) >> emit_awaited ls d res

  -- `_forwardArtifact`
  unfoldable pub forward_artifact : Processed → ResCtx → StepOf State (Unit {0})
  unfolding run_script
  forward_artifact d res = elim config.handler_fn [
    | none ↦ Effects.pure tt
    | some f ↦ on_world (log_entry (forwarded d)) >> run_handler (f d) res
  ]

  -- `processMessage`: whether the response was sent.
  unfoldable pub process_message : Processed → ResCtx → StepOf State Bool
  unfolding emit emit_awaited forward_artifact
  process_message (agent fs respond_now) res = do
    on_world (log_entry (emitted (agent fs respond_now)))
    if respond_now
        then emit_awaited config.agent_listeners (agent fs respond_now) res
        else emit config.agent_listeners (agent fs respond_now) res
    sent ← socket_closed
    if sent
        then Effects.pure true
        else (forward_artifact (agent fs respond_now) res >> Effects.pure false)
  process_message (transporter fs) res = do
    on_world (log_entry (emitted (transporter fs)))
    emit config.transporter_listeners (transporter fs) res
    forward_artifact (transporter fs) res
    Effects.pure false

  abbrev pub set_error : Option Exception → ReqCtx → ReqCtx
  set_error none q = q
  set_error (some e) q = record q { error = some e }

  abbrev pub success_response : ResCtx → World State → Response
  success_response res w = prepare_btps_response env true 200 "success" btps_response res.req_id w

  -- The stages of `executeRequestPipeline`, the last one first: once the message is trusted, once
  -- its signature is valid, and from the start.
  unfoldable pub deliver : Processed → ResCtx → StepOf State (Unit {0})
  unfolding process_message execute_middleware
  deliver d res = do
    sent ← middleware before on_artifact res
    unless_sent sent (do
      processed ← process_message d res
      unless_sent processed (do
        after_sent ← middleware after on_artifact res
        unless_sent after_sent (answer (success_response res))))

  abbrev pub note_trust : Check → ReqCtx → ReqCtx
  note_trust check q = set_error check.error (record q { is_trusted = some check.is_valid })

  unfoldable pub after_trust : Processed → ResCtx → Check → StepOf State (Unit {0})
  unfolding deliver
  after_trust d res check = do
    on_request (note_trust check)
    sent ← middleware after trust_verification res
    unless_sent sent (
        if check.is_valid
        then deliver d res
        else answer (error_response env trust_not_allowed none))

  unfoldable pub check_trust : ℕ → Processed → ResCtx → StepOf State (Unit {0})
  unfolding after_trust verify_trust
  check_trust now d res = do
    sent ← middleware before trust_verification res
    unless_sent sent
        (on_store (verify_trust store p.digest now d) >>= (λ check. after_trust d res check))

  abbrev pub note_signature : Check → ReqCtx → ReqCtx
  note_signature check q = set_error check.error (record q { is_valid = some check.is_valid })

  unfoldable pub after_signature : ℕ → Processed → ResCtx → Check → StepOf State (Unit {0})
  unfolding check_trust
  after_signature now d res check = do
    on_request (note_signature check)
    sent ← middleware after signature_verification res
    unless_sent sent (
        if check.is_valid
        then check_trust now d res
        else answer (error_response env sig_verification none))

  unfoldable pub check_signature : ℕ → Processed → ResCtx → StepOf State (Unit {0})
  unfolding after_signature verify_message_signature
  check_signature now d res = do
    check ← on_store (verify_message_signature p store d)
    after_signature now d res check

  -- The message is read from the context after the first middleware, which may have replaced it.
  abbrev pub message_of : Option Processed → StepOf State Processed
  message_of none r = (r, thrown (Thrown.error "Cannot destructure property 'artifact'"))
  message_of (some d) r = (r, returned d)

  abbrev pub read_message : StepOf State Processed
  read_message r = message_of r.0.message r

  unfoldable pub execute_request_pipeline : ℕ → ResCtx → StepOf State (Unit {0})
  unfolding check_signature
  execute_request_pipeline now res = do
    sent ← middleware before signature_verification res
    unless_sent sent (read_message >>= (λ d. check_signature now d res))
