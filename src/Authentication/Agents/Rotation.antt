-- ===== src/Authentication/Agents/Rotation.antt =====
-- src/core/authentication/BtpsAuthentication.ts over the token store in memory: the exchange of a
-- refresh token.
use mathlib.Core.List.{map-append}
use btps_sdk.Prelude.{
  ℕ, ◌+◌, ◌≤◌, ◌≡◌, ◌≢◌, refl, ap, ◌∙◌, String, none, some, false, arith, List, [], ◌∷◌, ◌++◌, map,
  ◌==◌, if◌then◌else◌, Bool-cases, inl, inr,
}
use btps_sdk.Authentication.Agents.{
  TokenConfig, ReissueOptions, issued, refused, RefreshValidation, valid_agent, invalid_agent,
  validate_refresh_token, refresh_issue, State, non_empty,
}
use btps_sdk.Authentication.Agents.Exchange.{
  validate_and_reissue, rotated, rotate, renewed, decided, renewal,
}
use btps_sdk.Authentication.Tokens.{
  make_key, store_token, get_token, remove_token, document_of, has_expired, TokenDocument,
}
use btps_sdk.Authentication.Tokens.Store.{TokenStore, memory_tokens}
use btps_sdk.Crypto.{Platform, get_fingerprint_from_pem}
use btps_sdk.Dates.{at}
use btps_sdk.Effects.{returned}
use btps_sdk.Errors.{plain, authentication_invalid}
use btps_sdk.JsMap.{get}
use btps_sdk.JsMap.Laws.{get-set_self, get-set_ne, get-delete_self}
use btps_sdk.Trust.{accepted, TrustRecord, compute_trust_id}
use btps_sdk.Trust.Store.{TrustStore, Patch, merge}

module _ (p : Platform) (store : TrustStore) (config : TokenConfig) where
  abbrev pub expired_token : RefreshValidation
  expired_token =
      invalid_agent (record { error = plain "Invalid or expired refresh token"; cause = none })

  pub validate_refresh_token-found :
      (now : ℕ) (agent_id token : String) (d : TokenDocument)
      (s : State p store (memory_tokens p.digest) config)
      → get (make_key p.digest agent_id token) s.1 ≡ some d
      → has_expired now d ≡ false
      → validate_refresh_token p store (memory_tokens p.digest) config now agent_id token s
        ≡ (s, returned (valid_agent d.agent_id d.user_identity))
  unfolding validate_refresh_token get_token
  validate_refresh_token-found now agent_id token d s h e = rw (h, e) refl

  pub validate_refresh_token-missing :
      (now : ℕ) (agent_id token : String) (s : State p store (memory_tokens p.digest) config)
      → get (make_key p.digest agent_id token) s.1 ≡ none
      → validate_refresh_token p store (memory_tokens p.digest) config now agent_id token s
        ≡ (s, returned expired_token)
  unfolding validate_refresh_token get_token
  validate_refresh_token-missing now agent_id token s h = rw h refl

  -- The tokens after the exchange of one for another.
  abbrev pub exchanged :
      ℕ
      → String
      → String
      → String
      → String
      → ReissueOptions
      → State p store (memory_tokens p.digest) config
      → btps_sdk.Authentication.Tokens.Tokens
  exchanged now agent_id user token fresh o s =
      store_token p.digest now
        (refresh_issue p store (memory_tokens p.digest) config fresh agent_id user o.decrypt_by
          o.agent_info)
        (remove_token p.digest agent_id token s.1)

  validate_and_reissue-exchanged :
      (now : ℕ) (agent_id token fresh : String) (o : ReissueOptions) (d : TokenDocument)
      (found updated : TrustRecord) (patch : Patch) (read written : store.State)
      (s : State p store (memory_tokens p.digest) config)
      → get (make_key p.digest agent_id token) s.1 ≡ some d
      → has_expired now d ≡ false
      → store.get_by_id (compute_trust_id p.digest agent_id d.user_identity) s.0
        ≡ (read, returned (some found))
      → rotated p store
          (memory_tokens p.digest)
          config
          now
          found
          (non_empty o.public_key)
          (renewed p store (memory_tokens p.digest) config now o found)
        ≡ returned patch
      → store.update
          (compute_trust_id p.digest agent_id d.user_identity)
          (decided p store (memory_tokens p.digest) config now o patch)
          read
        ≡ (written, returned updated)
      → validate_and_reissue p store (memory_tokens p.digest) config now agent_id token fresh o s
        ≡ (
          (written, exchanged now agent_id d.user_identity token fresh o s),
          returned (
              issued (record {
                agent_id = agent_id;
                refresh_token = fresh;
                expires_at = at (renewal p store (memory_tokens p.digest) config now o);
                decrypt_by = o.decrypt_by;
              })),
        )
  unfolding validate_and_reissue validate_refresh_token get_token
  validate_and_reissue-exchanged now agent_id token fresh o d found updated patch read written s h e
        g r u =
      rw h (rw e (rw g (rw r (rw u refl))))

  -- A valid refresh token is exchanged for the fresh one, when the trust store has the agent's record
  -- and updates it and the given key, if any, has a fingerprint: the answer holds the fresh token,
  -- which is valid for the same user until its expiry, and the old one is refused from then on. The
  -- two tokens may not have the same key in the store.
  pub validate_and_reissue-once :
      (now later again : ℕ) (agent_id token fresh : String) (o : ReissueOptions) (d : TokenDocument)
      (found updated : TrustRecord) (patch : Patch) (read written : store.State)
      (s : State p store (memory_tokens p.digest) config)
      → make_key p.digest agent_id fresh ≢ make_key p.digest agent_id token
      → later ≤ now + config.refresh_token_expiry_ms
      → get (make_key p.digest agent_id token) s.1 ≡ some d
      → has_expired now d ≡ false
      → store.get_by_id (compute_trust_id p.digest agent_id d.user_identity) s.0
        ≡ (read, returned (some found))
      → rotated p store
          (memory_tokens p.digest)
          config
          now
          found
          (non_empty o.public_key)
          (renewed p store (memory_tokens p.digest) config now o found)
        ≡ returned patch
      → store.update
          (compute_trust_id p.digest agent_id d.user_identity)
          (decided p store (memory_tokens p.digest) config now o patch)
          read
        ≡ (written, returned updated)
      → let done =
          validate_and_reissue p store
            (memory_tokens p.digest)
            config
            now
            agent_id
            token
            fresh
            o
            s in
        (done.1
          ≡ returned (
              issued (record {
                agent_id = agent_id;
                refresh_token = fresh;
                expires_at = at (renewal p store (memory_tokens p.digest) config now o);
                decrypt_by = o.decrypt_by;
              })))
        × (validate_refresh_token p store
              (memory_tokens p.digest)
              config
              later
              agent_id
              fresh
              done.0
            ≡ (done.0, returned (valid_agent agent_id d.user_identity)))
        × (validate_refresh_token p store
              (memory_tokens p.digest)
              config
              again
              agent_id
              token
              done.0
            ≡ (done.0, returned expired_token))
  unfolding store_token remove_token
  validate_and_reissue-once now later again agent_id token fresh o d found updated patch read
        written s ne l h e g r u =
      rw
        (validate_and_reissue-exchanged now agent_id token fresh o d found updated patch read
          written s h e g r u)
        (
          refl,
          validate_refresh_token-found later agent_id fresh
              (document_of now (
                refresh_issue p store (memory_tokens p.digest) config fresh agent_id d.user_identity
                  o.decrypt_by o.agent_info))
              (written, exchanged now agent_id d.user_identity token fresh o s) (get-set_self _ _ _)
              (ground arith),
          validate_refresh_token-missing again agent_id token
              (written, exchanged now agent_id d.user_identity token fresh o s)
              (get-set_ne _ _ _ _ ne ∙ get-delete_self _ s.1),
        )

  -- A refresh token that the token store does not hold is refused, and both stores stay as they are.
  pub validate_and_reissue-missing :
      (now : ℕ) (agent_id token fresh : String) (o : ReissueOptions)
      (s : State p store (memory_tokens p.digest) config)
      → get (make_key p.digest agent_id token) s.1 ≡ none
      → validate_and_reissue p store (memory_tokens p.digest) config now agent_id token fresh o s
        ≡ (
          s,
          returned (
              refused (record {
                error = authentication_invalid;
                cause = some "Invalid or expired refresh token";
              })),
        )
  unfolding validate_and_reissue validate_refresh_token get_token
  validate_and_reissue-missing now agent_id token fresh o s h = rw h refl

-- The fingerprints that a record has had, the current one last.
abbrev pub fingerprints : TrustRecord → List String
fingerprints r = map (λ h. h.fingerprint) r.key_history ++ r.public_key_fingerprint ∷ []

module _ (p : Platform) (store : TrustStore) (tokens : TokenStore) (config : TokenConfig) where
  rotated-returned :
      (now : ℕ) (found : TrustRecord) (key f : String) (patch renewal : Patch)
      → get_fingerprint_from_pem p key "sha256" ≡ returned f
      → rotated p store tokens config now found (some key) renewal ≡ returned patch
      → patch ≡ rotate p store tokens config now found key f renewal
  rotated-returned now found key f patch renewal h r = cc (h, r)

  -- The record that a reissue with a key of fingerprint `f` writes is accepted, was decided now by
  -- the caller, and has had the same fingerprints as before if `f` is the current one, and otherwise
  -- those followed by `f`: no earlier fingerprint is lost.
  pub fingerprints-rotated :
      (now : ℕ) (o : ReissueOptions) (found : TrustRecord) (key f : String) (patch : Patch)
      → get_fingerprint_from_pem p key "sha256" ≡ returned f
      → rotated p store tokens config now found
          (some key)
          (renewed p store tokens config now o found)
        ≡ returned patch
      → let written = merge found (decided p store tokens config now o patch) in
        (written.status ≡ accepted)
        × (written.decided_by ≡ o.decided_by)
        × (written.decided_at ≡ at now)
        × (fingerprints written ≡ (
            if found.public_key_fingerprint == f
            then fingerprints found
            else fingerprints found ++ f ∷ []))
  unfolding merge
  fingerprints-rotated now o found key f patch h r =
      rw (rotated-returned now found key f patch (renewed p store tokens config now o found) h r)
        (elim (Bool-cases (found.public_key_fingerprint == f)) [
          | inl e ↦ rw e (refl, refl, refl, refl)
          | inr e ↦ rw e (
            refl,
            refl,
            refl,
            ap (λ fs. fs ++ f ∷ []) (map-append (λ h. h.fingerprint) found.key_history _),
          )
        ])
