-- ===== src/Server/TrustCheck.antt =====
-- The trust checks of src/server/btpsServer.ts, over any trust store.
use btps_sdk.Prelude.{ℕ, String, Option, none, some, ◌==◌, if◌then◌else◌}
use btps_sdk.Effects.{Act, pure, ◌>>=◌}
use btps_sdk.Errors.{trust_not_allowed, trust_already_active}
use btps_sdk.Json.{Fields, text_at}
use btps_sdk.Server.Signature.{Processed, transporter, agent}
use btps_sdk.Text.{concat}
use btps_sdk.Trust.{
  TrustRecord, is_trust_active, Check, passed, failed, validate_trust_request, compute_trust_id,
}
use btps_sdk.Trust.Response.{validate_trust_response}
use btps_sdk.Trust.Store.{TrustStore}

module _ (store : TrustStore) (digest : String → String) (now : ℕ) where
  open store use {State, get_by_id}

  -- The verdict on an agent's trust record.
  abbrev agent_verdict : Fields → Option TrustRecord → Check
  agent_verdict artifact none =
      failed trust_not_allowed
        (some (concat "Agent " (concat (text_at "agentId" artifact) " not trusted")))
  agent_verdict artifact (some found) = record {
    is_valid = is_trust_active now (some found);
    error = none;
  }

  unfoldable pub verify_agent_trust : Fields → Act State Check
  verify_agent_trust artifact =
      if text_at "action" artifact == "auth.request" then pure passed else (do
        found ←
            get_by_id (compute_trust_id digest (text_at "agentId" artifact) (text_at "to" artifact))
        pure (agent_verdict artifact found))

  -- The verdict on any other message than a trust request or response.
  abbrev document_verdict : Option TrustRecord → Check
  document_verdict found =
      if is_trust_active now found then passed else failed trust_already_active none

  unfoldable pub verify_transporter_trust : Fields → Act State Check
  verify_transporter_trust artifact =
      if text_at "type" artifact == "TRUST_RES"
      then validate_trust_response store digest (text_at "from" artifact) (text_at "to" artifact)
      else (do
        found ←
            get_by_id (compute_trust_id digest (text_at "from" artifact) (text_at "to" artifact))
        pure (
            if text_at "type" artifact == "TRUST_REQ"
            then validate_trust_request now found
            else document_verdict found))

  unfoldable pub verify_trust : Processed → Act State Check
  unfolding verify_agent_trust verify_transporter_trust
  verify_trust (agent artifact respond_now) = verify_agent_trust artifact
  verify_trust (transporter artifact) = verify_transporter_trust artifact
