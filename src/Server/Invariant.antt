-- ===== src/Server/Invariant.antt =====
-- Properties of the world that the single acts of src/server/btpsServer.ts keep, and the steps that
-- are made of one act.
use btps_sdk.Prelude.{Option, none, some}
use btps_sdk.Crypto.{Platform}
use btps_sdk.Effects
use btps_sdk.Effects.{Outcome, returned, thrown, then_run, recover}
use btps_sdk.Errors.{BtpError, Thrown, Exception}
use btps_sdk.Json.{Json}
use btps_sdk.Server.Pipeline.{
  Run, StepOf, Config, on_store, on_world, on_request, stored, report, answer,
}
use btps_sdk.Server.Signature.{Processed}
use btps_sdk.Server.World.{
  Response, emitted, forwarded, reported, World, ReqCtx, Act, send_res, send_error, end_socket,
  destroy_socket, change_request, change_store, Surroundings, log_entry, destroy, end_writing,
  send_btps_response, send_btps_error, perform, act_step, act_throws, send_throws, finish,
}
use btps_sdk.Trust.Store.{TrustStore}

-- The single acts keep `P`; a delivery keeps it for the messages of `Q`.
pub record IsInvariant {S : Type 0} (env : Surroundings) (Q : Processed → Type 0)
    (P : World S → Type 0) : Type 0 where
  pub on_response : (r : Response) (w : World S) → P w → P (send_btps_response env r w)
  pub on_end : (w : World S) → P w → P (end_writing w)
  pub on_destroy : (w : World S) → P w → P (destroy w)
  pub on_change : (s : S) (w : World S) → P w → P (record w { store = s })
  pub on_report : (e : Exception) (w : World S) → P w → P (log_entry (reported e) w)
  pub on_emitted : (d : Processed) (w : World S) → Q d → P w → P (log_entry (emitted d) w)
  pub on_forwarded : (d : Processed) (w : World S) → Q d → P w → P (log_entry (forwarded d) w)

module _ {S : Type 0} (P : World S → Type 0) where
  pub record Keeps {A : Type 0} (m : StepOf S A) : Type 0 where
    pub keep : (r : Run S) → P r.1 → P (m r).0.1

  pub on_request-Keeps : (f : ReqCtx → ReqCtx) → Keeps (on_request f)
  on_request-Keeps f = record { keep = λ r h. h }

module _ {S : Type 0} (env : Surroundings) {Q : Processed → Type 0} (P : World S → Type 0)
    (inv : IsInvariant env Q P) where
  send_btps_error-Keeps :
      (e : BtpError) (id : Option Json) (w : World S) → P w → P (send_btps_error env e id w)
  unfolding send_btps_error
  send_btps_error-Keeps e id w h = inv.on_response _ w h

  perform-Keeps :
      (reply : Response → Response) (id : Option Json) (a : Act S) (r : Run S)
      → P r.1
      → P (perform env reply id a r).1
  unfolding perform
  perform-Keeps reply id (send_res x) (q, w) h = inv.on_response (reply x) w h
  perform-Keeps reply id (send_error awaited e) (q, w) h = send_btps_error-Keeps e id w h
  perform-Keeps reply id end_socket (q, w) h = inv.on_end w h
  perform-Keeps reply id destroy_socket (q, w) h = inv.on_destroy w h
  perform-Keeps reply id (change_request f) (q, w) h = h
  perform-Keeps reply id (change_store f) (q, w) h = inv.on_change (f w.store) w h

  finish-Keeps : (t : Option Thrown) (r : Run S) → P r.1 → P (finish t r).0.1
  finish-Keeps none r h = h
  finish-Keeps (some e) r h = h

  pub act_step-Keeps :
      (reply : Response → Response) (id : Option Json) (a : Act S)
      → Keeps P (act_step env reply id a)
  unfolding act_step
  act_step-Keeps reply id a = record {
    keep = λ r h.
        finish-Keeps (act_throws env reply id a r) (perform env reply id a r)
          (perform-Keeps reply id a r h);
  }

  stored-Keeps :
      {A : Type 0} (q : ReqCtx) (w : World S) (x : S × Outcome A) → P w → P (stored q w x).0.1
  stored-Keeps q w (s, o) h = inv.on_change s w h

  pub on_store-Keeps : {A : Type 0} (m : Effects.Act S A) → Keeps P (on_store m)
  on_store-Keeps m = record { keep = λ r h. stored-Keeps r.0 r.1 (m r.1.store) h }

  pub on_error-Keeps :
      (e : BtpError) (id : Option Json) → Keeps P (on_world (send_btps_error env e id))
  on_error-Keeps e id = record { keep = λ r h. send_btps_error-Keeps e id r.1 h }

  pub on_destroy-Keeps : Keeps P (on_world destroy)
  on_destroy-Keeps = record { keep = λ r h. inv.on_destroy r.1 h }

  pub on_emitted-Keeps : (d : Processed) → Q d → Keeps P (on_world (log_entry (emitted d)))
  on_emitted-Keeps d ok = record { keep = λ r h. inv.on_emitted d r.1 ok h }

  pub on_forwarded-Keeps : (d : Processed) → Q d → Keeps P (on_world (log_entry (forwarded d)))
  on_forwarded-Keeps d ok = record { keep = λ r h. inv.on_forwarded d r.1 ok h }

module _ (p : Platform) (store : TrustStore) (env : Surroundings) (config : Config store.State)
    {Q : Processed → Type 0} (P : World store.State → Type 0) (inv : IsInvariant env Q P) where
  open store use {State}

  pub report-Keeps : (e : Exception) → Keeps P (report p store env config e)
  report-Keeps e = record {
    keep = λ r h.
        finish-Keeps env P inv (env.on_error e) (r.0, log_entry (reported e) r.1)
          (inv.on_report e r.1 h);
  }

  pub answer-Keeps : (f : World State → Response) → Keeps P (answer p store env config f)
  answer-Keeps f = record {
    keep = λ r h.
        finish-Keeps env P inv (send_throws env (f r.1) r.1)
          (r.0, send_btps_response env (f r.1) r.1) (inv.on_response (f r.1) r.1 h);
  }
