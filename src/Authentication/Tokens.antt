-- ===== src/Authentication/Tokens.antt =====
-- src/core/authentication/storage/InMemoryTokenStore.ts: tokens by the identifier of the agent and
-- the token. `new Date()` is the argument `now`; `digest` is that of the trust identifiers.
pub mod Refinement
pub mod Store
use btps_sdk.Prelude.{
  ℕ, ◌+◌, String, Bool, Option, none, some, List, [], or_else, if◌then◌else◌, length,
}
use btps_sdk.Dates.{DateText, at, is_before}
use btps_sdk.JsMap.{JsMap, get, set, delete, keys_where, delete_all}
use btps_sdk.Trust.{compute_trust_id}

-- `BTPsTokenDocument`; `metadata` holds the JSON text of each value.
pub record TokenDocument : Type 0 where
  pub token : String
  pub agent_id : String
  pub user_identity : String
  pub created_at : DateText
  pub expires_at : DateText
  pub decrypt_by : String
  pub metadata : Option (JsMap String)

-- `now > expiresAt`
abbrev pub has_expired : ℕ → TokenDocument → Bool
has_expired now d = is_before d.expires_at now

-- The arguments of `store`.
pub record Issue : Type 0 where
  pub token : String
  pub agent_id : Option String
  pub user_identity : String
  pub expiry_ms : ℕ
  pub decrypt_by : String
  pub metadata : Option (JsMap String)

abbrev pub document_of : ℕ → Issue → TokenDocument
document_of now i = record {
  token = i.token;
  agent_id = or_else i.agent_id "anonymous";
  user_identity = i.user_identity;
  created_at = at now;
  expires_at = at (now + i.expiry_ms);
  decrypt_by = i.decrypt_by;
  metadata = i.metadata;
}

abbrev pub Tokens : Type 0
Tokens = JsMap TokenDocument

-- What `get` makes of the token under a key.
abbrev pub check_expiry : ℕ → String → Option TokenDocument → Tokens → Tokens × Option TokenDocument
check_expiry now key none m = (m, none)
check_expiry now key (some d) m = if has_expired now d then (delete key m, none) else (m, some d)

module _ (digest : String → String) where
  unfoldable pub make_key : String → String → String
  make_key agent_id token = compute_trust_id digest agent_id token

  unfoldable pub store_token : ℕ → Issue → Tokens → Tokens
  unfolding make_key
  store_token now i m =
      set (make_key (or_else i.agent_id i.user_identity) i.token) (document_of now i) m

  unfoldable pub get_token : ℕ → String → String → Tokens → Tokens × Option TokenDocument
  unfolding make_key
  get_token now agent_id token m =
      check_expiry now (make_key agent_id token) (get (make_key agent_id token) m) m

  unfoldable pub remove_token : String → String → Tokens → Tokens
  unfolding make_key
  remove_token agent_id token m = delete (make_key agent_id token) m

unfoldable pub cleanup_tokens : ℕ → Tokens → Tokens
cleanup_tokens now m = delete_all (keys_where (has_expired now) m) m

unfoldable pub size_of : Tokens → ℕ
size_of m = length m

unfoldable pub clear_tokens : Tokens → Tokens
clear_tokens m = []
