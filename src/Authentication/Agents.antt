-- ===== src/Authentication/Agents.antt =====
-- src/core/authentication/BtpsAuthentication.ts, the server's side: agents, their refresh tokens, and
-- the tokens with which a user authenticates an agent. It works on a trust store and a token store,
-- which are parameters. The time is an argument, and so are the random texts that a call makes.
pub mod Exchange
pub mod AuthTokens
pub mod Rotation
pub mod Creation
pub mod Tests
use Prim.Native.String
use btps_sdk.Prelude.{
  ℕ, ◌+◌, ◌*◌, String, Bool, true, false, Option, none, some, List, [], ◌∷◌, ◌++◌, ◌==◌, eqb,
  or_else, if◌then◌else◌,
}
use btps_sdk.Authentication.Tokens.{TokenDocument, Issue}
use btps_sdk.Authentication.Tokens.Store.{TokenStore}
use btps_sdk.Crypto.{Platform, get_fingerprint_from_pem}
use btps_sdk.Dates.{DateText, at}
use btps_sdk.Effects.{Outcome, returned, thrown, Act, pure, throw, ◌>>=◌, ◌>>◌}
use btps_sdk.Errors.{
  BtpError, plain, authentication_invalid, Thrown, exception, error, other, Exception,
  transform_to_exception,
}
use btps_sdk.JsMap.{JsMap, get}
use btps_sdk.Pem.{pem_to_base64}
use btps_sdk.Text.{concat}
use btps_sdk.Trust.{accepted, PrivacyType, encrypted, KeyHistory, TrustRecord, compute_trust_id}
use btps_sdk.Trust.Store.{Patch, patch_of, TrustStore}

-- The two expiries of the token configuration; the length and the alphabet of a user's token are
-- arguments of the function that generates it.
pub record TokenConfig : Type 0 where
  pub auth_token_expiry_ms : ℕ
  pub refresh_token_expiry_ms : ℕ

-- `DEFAULT_TOKEN_CONFIG`
abbrev pub default_token_config : TokenConfig
default_token_config = record {
  auth_token_expiry_ms = 15 * 60 * 1000;
  refresh_token_expiry_ms = 7 * 24 * 60 * 60 * 1000;
}

-- `CreateAgentOptions`; `agent_info` is its JSON text.
pub record CreateAgentOptions : Type 0 where
  pub user_identity : String
  pub public_key : String
  pub agent_info : Option String
  pub decided_by : String
  pub privacy_type : Option PrivacyType
  pub trust_expiry_ms : Option ℕ

-- The options of a reissue: the user is known, and the key may be left out.
pub record ReissueOptions : Type 0 where
  pub public_key : Option String
  pub agent_info : Option String
  pub decided_by : String
  pub privacy_type : Option PrivacyType
  pub trust_expiry_ms : Option ℕ
  pub decrypt_by : String

-- `BTPAuthResDoc`
pub record AuthDoc : Type 0 where
  pub agent_id : String
  pub refresh_token : String
  pub expires_at : DateText
  pub decrypt_by : String

-- `{ data, error }` of a reissue.
pub data Reissue : Type 0 where
  issued : AuthDoc → Reissue
  refused : Exception → Reissue

-- `AuthValidationResult`
pub data AuthValidation : Type 0 where
  valid_user : (user_identity : String) → AuthValidation
  invalid_user : Thrown → AuthValidation

-- The result of `validateRefreshToken`.
pub data RefreshValidation : Type 0 where
  valid_agent : (agent_id user_identity : String) → RefreshValidation
  invalid_agent : Exception → RefreshValidation

-- `generateAgentId` with its prefix.
abbrev pub generate_agent_id : String → String
generate_agent_id uuid = concat "btps_ag" (concat "_" uuid)

-- `{ agentInfo }`, where an undefined value is no key.
abbrev pub agent_info_of : Option String → JsMap String
agent_info_of none = []
agent_info_of (some info) = ("agentInfo", info) ∷ []

-- `metadata?.agentInfo`
abbrev pub agent_info_at : Option (JsMap String) → Option String
agent_info_at none = none
agent_info_at (some m) = get "agentInfo" m

-- A present number that is not 0.
abbrev pub nonzero_or : Option ℕ → ℕ → ℕ
nonzero_or none n = n
nonzero_or (some k) n = if eqb k 0 then n else k

abbrev non_empty : Option String → Option String
non_empty none = none
non_empty (some s) = if s == "" then none else some s

abbrev lifted : {S A : Type 0} → Outcome A → Act S A
lifted o s = (s, o)

-- A use of one of the two stores, beside the other.
abbrev pub beside : {S T A : Type 0} → T → S × Outcome A → (S × T) × Outcome A
beside t (s, o) = ((s, t), o)

abbrev pub before : {S T A : Type 0} → S → T × Outcome A → (S × T) × Outcome A
before s (t, o) = ((s, t), o)

abbrev pub on_trust : {S T A : Type 0} → Act S A → Act (S × T) A
on_trust m (s, t) = beside t (m s)

abbrev pub on_tokens : {S T A : Type 0} → Act T A → Act (S × T) A
on_tokens m (s, t) = before s (m t)

-- What `try` and `catch` make of a call: the state that it leaves and its outcome as a value.
abbrev pub settled : {S A : Type 0} → S × Outcome A → S × Outcome (Outcome A)
settled (s, o) = (s, returned o)

abbrev pub attempt : {S A : Type 0} → Act S A → Act S (Outcome A)
attempt m s = settled (m s)

module _ (p : Platform) (store : TrustStore) (tokens : TokenStore) (config : TokenConfig) where
  abbrev pub State : Type 0
  State = store.State × tokens.State

  -- The record that `createAgentTrustRecord` passes to the store, which gives it its id.
  abbrev pub agent_record : ℕ → String → CreateAgentOptions → String → TrustRecord
  agent_record now agent_id o fingerprint = record {
    id = "";
    sender_id = agent_id;
    receiver_id = o.user_identity;
    status = accepted;
    created_at = at now;
    decided_by = o.decided_by;
    decided_at = at now;
    expires_at = some (at (now + nonzero_or o.trust_expiry_ms config.refresh_token_expiry_ms));
    public_key_base64 = pem_to_base64 o.public_key;
    public_key_fingerprint = fingerprint;
    key_history = [];
    privacy_type = or_else o.privacy_type encrypted;
    retry_after_date = none;
    metadata = some (agent_info_of (some (or_else o.agent_info "{}")));
  }

  unfoldable pub create_agent_trust_record : ℕ → String → CreateAgentOptions → Act State TrustRecord
  unfolding get_fingerprint_from_pem compute_trust_id pem_to_base64
  create_agent_trust_record now uuid o = do
    fingerprint ← lifted (get_fingerprint_from_pem p o.public_key "sha256")
    let new_record = agent_record now (generate_agent_id uuid) o fingerprint
    created ← on_trust (
        store.create new_record
          (some (compute_trust_id p.digest (generate_agent_id uuid) o.user_identity)))
    pure (record created { expires_at = new_record.expires_at })

  abbrev pub refresh_issue : String → String → String → String → Option String → Issue
  refresh_issue token agent_id user_identity decrypt_by agent_info = record {
    token = token;
    agent_id = some agent_id;
    user_identity = user_identity;
    expiry_ms = config.refresh_token_expiry_ms;
    decrypt_by = decrypt_by;
    metadata = some (agent_info_of agent_info);
  }

  -- `uuid` and `fresh` are the random texts of the agent's id and of its refresh token.
  unfoldable pub create_agent :
      ℕ → String → String → CreateAgentOptions → String → Act State AuthDoc
  unfolding create_agent_trust_record
  create_agent now uuid fresh o decrypt_by = do
    created ← create_agent_trust_record now uuid (record o {
      trust_expiry_ms = some (or_else o.trust_expiry_ms config.refresh_token_expiry_ms);
    })
    on_tokens (
        tokens.store now (
          refresh_issue fresh created.sender_id created.receiver_id decrypt_by
            (agent_info_at created.metadata)))
    pure (record {
      agent_id = created.sender_id;
      refresh_token = fresh;
      expires_at = or_else created.expires_at (at now);
      decrypt_by = decrypt_by;
    })

  abbrev pub auth_issue : String → String → String → Option (JsMap String) → Issue
  auth_issue token user_identity decrypt_by metadata = record {
    token = token;
    agent_id = none;
    user_identity = user_identity;
    expiry_ms = config.auth_token_expiry_ms;
    decrypt_by = decrypt_by;
    metadata = metadata;
  }

  unfoldable pub store_auth_token :
      ℕ → String → String → String → Option (JsMap String) → Act State (Unit {0})
  store_auth_token now token user_identity decrypt_by metadata =
      on_tokens (tokens.store now (auth_issue token user_identity decrypt_by metadata))

  -- `error instanceof Error ? error : new BTPErrorException(...)`
  abbrev validation_failure : Thrown → Thrown
  validation_failure (exception e) = exception e
  validation_failure (error m) = error m
  validation_failure (other j) = exception (plain "Token validation failed")

  -- The body of the `try` block: the token is removed when it was found.
  abbrev use_auth_token : String → String → Option TokenDocument → Act State AuthValidation
  use_auth_token user_identity token none =
      pure (invalid_user (exception (plain "Invalid or expired auth token")))
  use_auth_token user_identity token (some d) =
      on_tokens (tokens.remove user_identity token) >> pure (valid_user d.user_identity)

  abbrev auth_result : Outcome AuthValidation → AuthValidation
  auth_result (returned v) = v
  auth_result (thrown e) = invalid_user (validation_failure e)

  unfoldable pub validate_auth_token : ℕ → String → String → Act State AuthValidation
  validate_auth_token now user_identity token = do
    result ←
        attempt
          (on_tokens (tokens.get now user_identity token) >>= use_auth_token user_identity token)
    pure (auth_result result)

  abbrev refresh_result : Outcome (Option TokenDocument) → RefreshValidation
  refresh_result (returned none) =
      invalid_agent (record { error = plain "Invalid or expired refresh token"; cause = none })
  refresh_result (returned (some d)) = valid_agent d.agent_id d.user_identity
  refresh_result (thrown e) = invalid_agent (transform_to_exception e)

  unfoldable pub validate_refresh_token : ℕ → String → String → Act State RefreshValidation
  unfolding transform_to_exception
  validate_refresh_token now agent_id token = do
    result ← attempt (on_tokens (tokens.get now agent_id token))
    pure (refresh_result result)

  unfoldable pub cleanup : ℕ → Act State (Unit {0})
  cleanup now = do on_tokens (tokens.cleanup now); on_tokens (tokens.cleanup now)
