-- ===== src/Authentication/Agents/Exchange.antt =====
-- `validateAndReissueRefreshToken` of src/core/authentication/BtpsAuthentication.ts: the exchange of a
-- refresh token, and the rotation of the agent's key.
use btps_sdk.Prelude.{
  ℕ, ◌+◌, String, Option, none, some, [], ◌∷◌, ◌++◌, ◌==◌, or_else, if◌then◌else◌,
}
use btps_sdk.Authentication.Agents
use btps_sdk.Authentication.Agents.{
  TokenConfig, ReissueOptions, Reissue, issued, refused, RefreshValidation, valid_agent,
  invalid_agent, agent_info_of, agent_info_at, non_empty, lifted, on_trust, on_tokens, attempt,
  refresh_issue, validate_refresh_token,
}
use btps_sdk.Authentication.Tokens.Store.{TokenStore}
use btps_sdk.Crypto.{Platform, get_fingerprint_from_pem}
use btps_sdk.Dates.{at}
use btps_sdk.Effects.{Outcome, returned, thrown, Act, pure, ◌>>=◌, ◌>>◌}
use btps_sdk.Errors.{BtpError, authentication_invalid, transform_to_exception}
use btps_sdk.Pem.{pem_to_base64}
use btps_sdk.Text.{concat}
use btps_sdk.Trust.{accepted, TrustRecord, compute_trust_id}
use btps_sdk.Trust.Store.{Patch, patch_of, TrustStore}

module _ (p : Platform) (store : TrustStore) (tokens : TokenStore) (config : TokenConfig) where
  abbrev State : Type 0
  State = Agents.State p store tokens config

  -- The rotation of the key, if another one is given.
  abbrev pub rotate : ℕ → TrustRecord → String → String → Patch → Patch
  rotate now found public_key fingerprint patch =
      if found.public_key_fingerprint == fingerprint then patch else record patch {
        key_history = some (
            found.key_history
            ++ record {
              fingerprint = found.public_key_fingerprint;
              first_seen = found.decided_at;
              last_seen = at now;
            }
              ∷ []);
        public_key_base64 = some (pem_to_base64 public_key);
        public_key_fingerprint = some fingerprint;
      }

  abbrev pub rotated : ℕ → TrustRecord → Option String → Patch → Outcome Patch
  rotated now found none patch = returned patch
  rotated now found (some key) patch = elim (get_fingerprint_from_pem p key "sha256") [
    | thrown e ↦ thrown e
    | returned f ↦ returned (rotate now found key f patch)
  ]

  abbrev pub renewal : ℕ → ReissueOptions → ℕ
  renewal now o = now + or_else o.trust_expiry_ms config.refresh_token_expiry_ms

  abbrev pub renewed : ℕ → ReissueOptions → TrustRecord → Patch
  renewed now o found = record (patch_of found) {
    expires_at = some (some (at (renewal now o)));
    metadata = some (
        some (
          agent_info_of
            (some (or_else o.agent_info (or_else (agent_info_at found.metadata) "{}")))));
  }

  abbrev pub decided : ℕ → ReissueOptions → Patch → Patch
  decided now o patch = record patch {
    decided_by = some o.decided_by;
    privacy_type = elim o.privacy_type [ none ↦ patch.privacy_type | some t ↦ some t ];
    status = some accepted;
    decided_at = some (at now);
  }

  abbrev refuse : BtpError → String → Reissue
  refuse e cause = refused (record { error = e; cause = some cause })

  -- The old token is removed only when the trust record was updated.
  abbrev reissue :
      ℕ
      → String
      → String
      → String
      → String
      → ReissueOptions
      → Outcome TrustRecord
      → Act State Reissue
  reissue now agent_id user_identity token fresh o (thrown e) =
      pure (refused (transform_to_exception e))
  reissue now agent_id user_identity token fresh o (returned updated) = do
    on_tokens (tokens.remove agent_id token)
    on_tokens (
        tokens.store now (
          refresh_issue p store tokens config fresh agent_id user_identity o.decrypt_by
            o.agent_info))
    pure (
        issued (record {
          agent_id = agent_id;
          refresh_token = fresh;
          expires_at = at (renewal now o);
          decrypt_by = o.decrypt_by;
        }))

  abbrev reissue_for :
      ℕ
      → String
      → String
      → String
      → String
      → ReissueOptions
      → Option TrustRecord
      → Act State Reissue
  reissue_for now agent_id user_identity token fresh o none = pure (
      refuse authentication_invalid
        (concat "Trust record not found for " (concat agent_id (concat " → " user_identity))))
  reissue_for now agent_id user_identity token fresh o (some found) = do
    patch ← lifted (rotated now found (non_empty o.public_key) (renewed now o found))
    result ← attempt (
        on_trust
          (store.update (compute_trust_id p.digest agent_id user_identity) (decided now o patch)))
    reissue now agent_id user_identity token fresh o result

  abbrev reissue_valid :
      ℕ → String → String → String → ReissueOptions → RefreshValidation → Act State Reissue
  reissue_valid now agent_id token fresh o (invalid_agent e) =
      pure (refuse authentication_invalid "Invalid or expired refresh token")
  reissue_valid now agent_id token fresh o (valid_agent a user_identity) = do
    found ← on_trust (store.get_by_id (compute_trust_id p.digest agent_id user_identity))
    reissue_for now agent_id user_identity token fresh o found

  unfoldable pub validate_and_reissue :
      ℕ → String → String → String → ReissueOptions → Act State Reissue
  unfolding validate_refresh_token get_fingerprint_from_pem compute_trust_id pem_to_base64
  validate_and_reissue now agent_id token fresh o = do
    result ← validate_refresh_token p store tokens config now agent_id token
    reissue_valid now agent_id token fresh o result
