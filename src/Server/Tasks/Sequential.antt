-- ===== src/Server/Tasks/Sequential.antt =====
-- The tasks of src/server/btpsServer.ts, each with nothing between its turns, are the methods of the
-- pipeline and of a connection.
use btps_sdk.Prelude.{
  ℕ, ◌≡◌, refl, sym, true, false, none, some, List, [], ◌∷◌, Option-cases, inl, inr,
}
use btps_sdk.Crypto.{Platform}
use btps_sdk.Effects
use btps_sdk.Effects.{Outcome, returned, thrown, recover}
use btps_sdk.Errors.{Thrown, Exception, transform_to_exception, sig_verification, trust_not_allowed}
use btps_sdk.Middleware.{
  Phase, Step, before, after, on_error, signature_verification, trust_verification, on_artifact,
}
use btps_sdk.Server.Pipeline
use btps_sdk.Server.Pipeline.{
  Run, StepOf, Config, ResCtx, on_world, on_request, on_store, socket_closed, note_trust,
  note_signature, success_response, read_message, report, answer, restored, drop_throw, run_handler,
  handle_on_socket_error, emit, emit_awaited, forward_artifact, process_message, deliver,
  after_trust, check_trust, after_signature, check_signature, execute_request_pipeline,
}
use btps_sdk.Server.Signature.{Processed, transporter, agent, verify_message_signature}
use btps_sdk.Server.Tasks
use btps_sdk.Server.Tasks.{TaskOf, stop, run_alone}
use btps_sdk.Server.Tasks.Alone.{
  RunsAs, once-Runs, pure-Runs, >>=-Runs, try_catch-Runs, on_copy-Runs, unless_sent-Runs, if-Runs,
  IsQuiet, at_once-Runs, unawaited-Runs, Runs-as, handler_task-Runs, middleware_task-Runs,
}
use btps_sdk.Server.Tasks.Pipeline.{
  error_task, with_error, listener_task, emit_task, handle_throw, emit_awaited_task, forward_task,
  process_task, deliver_task, after_trust_task, check_trust_task, after_signature_task,
  check_signature_task, pipeline_task,
}
use btps_sdk.Server.World.{
  ReqCtx, Handler, Surroundings, run_script, log_entry, emitted, forwarded, destroy,
  send_btps_error, error_response,
}
use btps_sdk.Server.TrustCheck.{verify_trust}
use btps_sdk.Trust.{Check}
use btps_sdk.Trust.Store.{TrustStore}

module _ (p : Platform) (store : TrustStore) (env : Surroundings)
    (config : Config store.State) where
  open store use {State}

  pub middleware-Runs :
      (phase : Phase) (step : Step) (res : ResCtx)
      → RunsAs
          (Tasks.Pipeline.middleware p store env config phase step res)
          (Pipeline.middleware p store env config phase step res)
  middleware-Runs phase step res = middleware_task-Runs env res _

  pub error_task-Runs :
      (e : Exception) (res : ResCtx)
      → RunsAs
          (error_task p store env config e res)
          (handle_on_socket_error p store env config e res)
  unfolding error_task handle_on_socket_error
  error_task-Runs e res = >>=-Runs (middleware-Runs before on_error res) (λ _.
      >>=-Runs (once-Runs (report p store env config e)) (λ _.
        >>=-Runs (once-Runs (on_world (send_btps_error env e.error res.req_id))) (λ _.
          >>=-Runs (once-Runs (on_world destroy))
            (λ _. >>=-Runs (middleware-Runs after on_error res) (λ _. pure-Runs tt)))))

  with_error-restored :
      {A : Type 0} (e : Exception) (m : StepOf State A) (r : Run State)
      → restored r.0 (m (record (r.0) { error = some e }, r.1)) ≡ Pipeline.with_error e m r
  with_error-restored e m (q, w) = refl

  pub with_error-Runs :
      {A : Type 0} (e : Exception) {t : TaskOf State A} {m : StepOf State A}
      → RunsAs t m
      → RunsAs (with_error p store env config e t) (Pipeline.with_error e m)
  with_error-Runs e {t} {m} h =
      Runs-as (on_copy-Runs (λ q. record q { error = some e }) h) (with_error-restored e m)

  listener_task-Runs :
      (h : Handler State) (res : ResCtx)
      → RunsAs (listener_task p store env config h res) (run_handler p store env config h res)
  listener_task-Runs h res = on_copy-Runs (λ q. q) (handler_task-Runs env res h)

  emit_task-Runs :
      (ls : List (Processed → Handler State)) (d : Processed) (res : ResCtx)
      → RunsAs (emit_task p store env config ls d res) (emit p store env config ls d res)
  unfolding emit_task emit
  emit_task-Runs [] d res = pure-Runs tt
  emit_task-Runs (l ∷ ls) d res =
      >>=-Runs (listener_task-Runs (l d) res) (λ _. emit_task-Runs ls d res)

  drop_throw-restored :
      (q : ReqCtx) (x : Run State × Outcome (Unit {0}))
      → (((q, (restored q x).0.1), returned tt) ≡ drop_throw p store env config (restored q x))
  drop_throw-restored q ((_, w), o) = refl

  drop_throw-with_error :
      (e : Exception) (m : StepOf State (Unit {0})) (r : Run State)
      → ((r.0, (Pipeline.with_error e m r).0.1), returned tt)
        ≡ drop_throw p store env config (Pipeline.with_error e m r)
  drop_throw-with_error e m (q, w) = drop_throw-restored q (m (record q { error = some e }, w))

  handle_throw-Runs :
      (res : ResCtx) (e : Thrown)
      → RunsAs
          (handle_throw p store env config res e)
          (Pipeline.handle_throw p store env config res e)
  handle_throw-Runs res e =
      let x = transform_to_exception e in
      Runs-as (unawaited-Runs (with_error-Runs x (error_task-Runs x res)))
        (drop_throw-with_error x (handle_on_socket_error p store env config x res))

  handled-quiet :
      (res : ResCtx) (q : ReqCtx) (x : Run State × Outcome (Unit {0}))
      → recover (Pipeline.handle_throw p store env config res) (restored q x) ≡ (
        (q, (recover (Pipeline.handle_throw p store env config res) (restored q x)).0.1),
        returned tt,
      )
  handled-quiet res q ((_, w), returned tt) = refl
  handled-quiet res q ((_, w), thrown e) =
      let x = transform_to_exception e in
      sym (drop_throw-with_error x (handle_on_socket_error p store env config x res) (q, w))

  handled-IsQuiet :
      (h : Handler State) (res : ResCtx)
      → IsQuiet (
          Effects.try_catch
            (run_handler p store env config h res)
            (Pipeline.handle_throw p store env config res))
  handled-IsQuiet h res = record {
    quiet = λ r. handled-quiet res r.0 (run_script env res.reply res.req_id (h r.0 r.1) r);
  }

  >>-IsQuiet : (m n : StepOf State (Unit {0})) → IsQuiet m → IsQuiet n → IsQuiet (Effects.◌>>◌ m n)
  >>-IsQuiet m n hm hn = record {
    quiet = λ r. let e = hm.quiet r in rw e (hn.quiet (r.0, (m r).0.1));
  }

  emit_awaited-IsQuiet :
      (ls : List (Processed → Handler State)) (d : Processed) (res : ResCtx)
      → IsQuiet (emit_awaited p store env config ls d res)
  unfolding emit_awaited
  emit_awaited-IsQuiet [] d res = record { quiet = λ r. refl }
  emit_awaited-IsQuiet (l ∷ ls) d res =
      >>-IsQuiet _ _ (handled-IsQuiet (l d) res) (emit_awaited-IsQuiet ls d res)

  emit_awaited_task-Runs :
      (ls : List (Processed → Handler State)) (d : Processed) (res : ResCtx)
      → RunsAs
          (emit_awaited_task p store env config ls d res)
          (emit_awaited p store env config ls d res)
  unfolding emit_awaited_task emit_awaited
  emit_awaited_task-Runs [] d res = pure-Runs tt
  emit_awaited_task-Runs (l ∷ ls) d res =
      at_once-Runs (handled-IsQuiet (l d) res) (emit_awaited-IsQuiet ls d res)
        (try_catch-Runs (listener_task-Runs (l d) res) (handle_throw-Runs res))
        (emit_awaited_task-Runs ls d res)

  forward_task-Runs :
      (d : Processed) (res : ResCtx)
      → RunsAs (forward_task p store env config d res) (forward_artifact p store env config d res)
  unfolding forward_task forward_artifact
  forward_task-Runs d res = elim (Option-cases config.handler_fn) [
    | inl e ↦ rw (e, forward_task, forward_artifact) (pure-Runs tt)
    | inr (f, e) ↦
        rw (e, forward_task, forward_artifact)
          (>>=-Runs (once-Runs (on_world (log_entry (forwarded d))))
            (λ _. listener_task-Runs (f d) res))
  ]

  process_task-Runs :
      (d : Processed) (res : ResCtx)
      → RunsAs (process_task p store env config d res) (process_message p store env config d res)
  unfolding process_task process_message
  process_task-Runs (agent fs respond_now) res =
      let d = agent fs respond_now in
      >>=-Runs (once-Runs (on_world (log_entry (emitted d)))) (λ _.
        >>=-Runs
          (if-Runs respond_now (emit_awaited_task-Runs config.agent_listeners d res)
            (emit_task-Runs config.agent_listeners d res))
          (λ _. >>=-Runs (once-Runs socket_closed) (λ sent.
            if-Runs sent (pure-Runs true)
              (>>=-Runs (forward_task-Runs d res) (λ _. pure-Runs false)))))
  process_task-Runs (transporter fs) res =
      let d = transporter fs in
      >>=-Runs (once-Runs (on_world (log_entry (emitted d)))) (λ _.
        >>=-Runs (emit_task-Runs config.transporter_listeners d res)
          (λ _. >>=-Runs (forward_task-Runs d res) (λ _. pure-Runs false)))

  deliver_task-Runs :
      (d : Processed) (res : ResCtx)
      → RunsAs (deliver_task p store env config d res) (deliver p store env config d res)
  unfolding deliver_task deliver
  deliver_task-Runs d res = >>=-Runs (middleware-Runs before on_artifact res) (λ sent.
      unless_sent-Runs sent (
        >>=-Runs (process_task-Runs d res) (λ processed. unless_sent-Runs processed (
          >>=-Runs (middleware-Runs after on_artifact res) (λ after_sent.
            unless_sent-Runs after_sent
              (once-Runs (answer p store env config (success_response p store env config res))))))))

  after_trust_task-Runs :
      (d : Processed) (res : ResCtx) (c : Check)
      → RunsAs
          (after_trust_task p store env config d res c)
          (after_trust p store env config d res c)
  unfolding after_trust_task after_trust
  after_trust_task-Runs d res c =
      >>=-Runs (once-Runs (on_request (note_trust p store env config c))) (λ _.
        >>=-Runs (middleware-Runs after trust_verification res) (λ sent. unless_sent-Runs sent (
          if-Runs c.is_valid (deliver_task-Runs d res)
            (once-Runs (answer p store env config (error_response env trust_not_allowed none))))))

  check_trust_task-Runs :
      (now : ℕ) (d : Processed) (res : ResCtx)
      → RunsAs
          (check_trust_task p store env config now d res)
          (check_trust p store env config now d res)
  unfolding check_trust_task check_trust
  check_trust_task-Runs now d res =
      >>=-Runs (middleware-Runs before trust_verification res) (λ sent. unless_sent-Runs sent (
        >>=-Runs (once-Runs (on_store (verify_trust store p.digest now d)))
          (λ c. after_trust_task-Runs d res c)))

  after_signature_task-Runs :
      (now : ℕ) (d : Processed) (res : ResCtx) (c : Check)
      → RunsAs
          (after_signature_task p store env config now d res c)
          (after_signature p store env config now d res c)
  unfolding after_signature_task after_signature
  after_signature_task-Runs now d res c =
      >>=-Runs (once-Runs (on_request (note_signature p store env config c))) (λ _.
        >>=-Runs (middleware-Runs after signature_verification res) (λ sent. unless_sent-Runs sent (
          if-Runs c.is_valid (check_trust_task-Runs now d res)
            (once-Runs (answer p store env config (error_response env sig_verification none))))))

  pub pipeline_task-Runs :
      (now : ℕ) (res : ResCtx)
      → RunsAs
          (pipeline_task p store env config now res)
          (execute_request_pipeline p store env config now res)
  unfolding pipeline_task execute_request_pipeline check_signature_task check_signature
  pipeline_task-Runs now res = >>=-Runs (middleware-Runs before signature_verification res) (λ sent.
      unless_sent-Runs sent (
        >>=-Runs (once-Runs (read_message p store env config)) (λ d.
          >>=-Runs (once-Runs (on_store (verify_message_signature p store d)))
            (λ c. after_signature_task-Runs now d res c))))
