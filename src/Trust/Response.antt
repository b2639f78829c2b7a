-- ===== src/Trust/Response.antt =====
-- `validateTrustResponse` of src/core/trust/index.ts, over any trust store.
use Prim.Native.String
use btps_sdk.Prelude.{
  ◌≡◌, refl, ◌↔◌, String, true, Option, none, some, ◌==◌, eq_iff, not, if◌then◌else◌, arith,
}
use btps_sdk.Errors.{trust_not_allowed}
use btps_sdk.Effects.{returned, Act, ◌>>=◌, pure}
use btps_sdk.Trust.{pending, TrustRecord, is_pending, Check, passed, failed, compute_trust_id}
use btps_sdk.Trust.Store.{TrustStore}

abbrev concat : String → String → String
concat = String.◌++◌

-- The checks on the record that was found under the flipped pair.
unfoldable pub judge_response : String → String → Option TrustRecord → Check
judge_response sender_id receiver_id none = failed trust_not_allowed (
    some (
      concat "No pending trust request found from " (concat receiver_id (concat " to " sender_id))))
judge_response sender_id receiver_id (some trust) =
    if not (is_pending trust.status)
    then failed trust_not_allowed (
        some (
          concat "Trust request from "
            (concat receiver_id (concat " to " (concat sender_id " is not pending")))))
    else if not (trust.receiver_id == sender_id)
    then failed trust_not_allowed
        (some (concat "Only " (concat trust.receiver_id " can respond to this trust request")))
    else passed

judge_response_iff :
    (sender_id receiver_id : String) (trust : Option TrustRecord)
    → ((judge_response sender_id receiver_id trust).is_valid ≡ true)
      ↔ ((r : TrustRecord) × (trust ≡ some r) × (r.status ≡ pending) × (r.receiver_id ≡ sender_id))
unfolding judge_response
judge_response_iff sender_id receiver_id none = (λ h. cc, λ h. cc (h.1))
judge_response_iff sender_id receiver_id (some trust) = (
  λ h. (trust, refl, ground arith, ground (arith, eq_iff trust.receiver_id sender_id)),
  λ h. ground (arith, eq_iff trust.receiver_id sender_id),
)

module _ (store : TrustStore) (digest : String → String) where
  open store use {State, get_by_id}

  unfoldable pub validate_trust_response : String → String → Act State Check
  unfolding judge_response
  validate_trust_response sender_id receiver_id = do
    trust ← get_by_id (compute_trust_id digest receiver_id sender_id)
    pure (judge_response sender_id receiver_id trust)

  -- When the store answers, the response is judged, and it passes exactly when the record of the
  -- pair in the other direction is pending and names the responder as the receiver of the request.
  pub validate_trust_response_iff :
      (sender_id receiver_id : String) (s s' : State) (trust : Option TrustRecord)
      → get_by_id (compute_trust_id digest receiver_id sender_id) s ≡ (s', returned trust)
      → (check : Check) × (validate_trust_response sender_id receiver_id s ≡ (s', returned check))
        × ((check.is_valid ≡ true) ↔ (
            (r : TrustRecord) × (trust ≡ some r)
            × (r.status ≡ pending)
            × (r.receiver_id ≡ sender_id)))
  unfolding validate_trust_response
  validate_trust_response_iff sender_id receiver_id s s' trust found = (
    judge_response sender_id receiver_id trust,
    rw (found, ◌>>=◌),
    judge_response_iff sender_id receiver_id trust,
  )
