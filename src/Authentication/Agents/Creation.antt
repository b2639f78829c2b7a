-- ===== src/Authentication/Agents/Creation.antt =====
-- src/core/authentication/BtpsAuthentication.ts over the token store in memory: new agents.
use btps_sdk.Prelude.{
  ℕ, ◌+◌, ◌≤◌, ◌≡◌, refl, String, some, arith, or_else, Option, none, eqb, if◌then◌else◌,
}
use btps_sdk.Authentication.Agents.{
  nonzero_or, TokenConfig, CreateAgentOptions, valid_agent, agent_record, agent_info_at,
  create_agent_trust_record, create_agent, refresh_issue, generate_agent_id, validate_refresh_token,
  State,
}
use btps_sdk.Authentication.Agents.Rotation.{validate_refresh_token-found}
use btps_sdk.Authentication.Tokens.{Tokens, store_token, document_of}
use btps_sdk.Authentication.Tokens.Store.{memory_tokens}
use btps_sdk.Crypto.{Platform, get_fingerprint_from_pem}
use btps_sdk.Dates.{at}
use btps_sdk.Effects.{returned}
use btps_sdk.JsMap.Laws.{get-set_self}
use btps_sdk.Trust.{TrustRecord, compute_trust_id}
use btps_sdk.Trust.Store.{TrustStore}

-- 0 counts as no number.
abbrev nonzero : Option ℕ → Option ℕ
nonzero none = none
nonzero (some k) = if eqb k 0 then none else some k

nonzero_or-or_else :
    (t : Option ℕ) (n : ℕ) → nonzero_or (some (or_else t n)) n ≡ or_else (nonzero t) n
nonzero_or-or_else none n = ground arith
nonzero_or-or_else (some k) n = ground arith

module _ (p : Platform) (store : TrustStore) (config : TokenConfig) where
  -- The options as `createAgent` passes them on.
  abbrev pub with_expiry : CreateAgentOptions → CreateAgentOptions
  with_expiry o = record o {
    trust_expiry_ms = some (or_else o.trust_expiry_ms config.refresh_token_expiry_ms);
  }

  -- The tokens with that of a new agent.
  abbrev with_token : ℕ → String → String → TrustRecord → Tokens → Tokens
  with_token now fresh decrypt_by created = store_token p.digest now (
      refresh_issue p store (memory_tokens p.digest) config fresh created.sender_id
        created.receiver_id decrypt_by (agent_info_at created.metadata))

  create_agent-created :
      (now : ℕ) (uuid fresh f decrypt_by : String) (o : CreateAgentOptions) (created : TrustRecord)
      (written : store.State) (s : State p store (memory_tokens p.digest) config)
      → get_fingerprint_from_pem p o.public_key "sha256" ≡ returned f
      → store.create
          (agent_record p store
            (memory_tokens p.digest)
            config
            now
            (generate_agent_id uuid)
            (with_expiry o)
            f)
          (some (compute_trust_id p.digest (generate_agent_id uuid) o.user_identity))
          s.0
        ≡ (written, returned created)
      → create_agent p store (memory_tokens p.digest) config now uuid fresh o decrypt_by s ≡ (
        (written, with_token now fresh decrypt_by created s.1),
        returned (record {
          agent_id = created.sender_id;
          refresh_token = fresh;
          expires_at =
              at (now + or_else (nonzero o.trust_expiry_ms) config.refresh_token_expiry_ms);
          decrypt_by = decrypt_by;
        }),
      )
  unfolding create_agent create_agent_trust_record
  create_agent-created now uuid fresh f decrypt_by o created written s h c =
      rw (h, c) (rw (nonzero_or-or_else o.trust_expiry_ms config.refresh_token_expiry_ms) refl)

  -- When the trust store creates the record of a new agent, the answer names its agent, the fresh
  -- refresh token and an expiry of as many milliseconds as the options say, or as the configuration
  -- says if they say none or 0; and that refresh token is valid for the record's agent and user until
  -- the configured expiry.
  pub create_agent-validate :
      (now later : ℕ) (uuid fresh f decrypt_by : String) (o : CreateAgentOptions)
      (created : TrustRecord) (written : store.State)
      (s : State p store (memory_tokens p.digest) config)
      → later ≤ now + config.refresh_token_expiry_ms
      → get_fingerprint_from_pem p o.public_key "sha256" ≡ returned f
      → store.create
          (agent_record p store
            (memory_tokens p.digest)
            config
            now
            (generate_agent_id uuid)
            (with_expiry o)
            f)
          (some (compute_trust_id p.digest (generate_agent_id uuid) o.user_identity))
          s.0
        ≡ (written, returned created)
      → let done =
          create_agent p store (memory_tokens p.digest) config now uuid fresh o decrypt_by s in
        (done.1
          ≡ returned (record {
            agent_id = created.sender_id;
            refresh_token = fresh;
            expires_at =
                at (now + or_else (nonzero o.trust_expiry_ms) config.refresh_token_expiry_ms);
            decrypt_by = decrypt_by;
          }))
        × (validate_refresh_token p store
              (memory_tokens p.digest)
              config
              later
              created.sender_id
              fresh
              done.0
            ≡ (done.0, returned (valid_agent created.sender_id created.receiver_id)))
  unfolding store_token
  create_agent-validate now later uuid fresh f decrypt_by o created written s l h c =
      rw (create_agent-created now uuid fresh f decrypt_by o created written s h c) (
        refl,
        validate_refresh_token-found p store config later created.sender_id fresh
            (document_of now (
              refresh_issue p store (memory_tokens p.digest) config fresh created.sender_id
                created.receiver_id decrypt_by (agent_info_at created.metadata)))
            (written, with_token now fresh decrypt_by created s.1) (get-set_self _ _ s.1)
            (ground arith),
      )
