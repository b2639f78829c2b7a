-- ===== src/Authentication/Agents/Tests.antt =====
-- An agent of src/core/authentication/BtpsAuthentication.ts at concrete inputs, and the theorems at them.
use btps_sdk.Prelude.{◌≡◌, ◌+◌, refl, ap, String, some, none, [], ◌∷◌, ◌==◌, arith}
use btps_sdk.Authentication.Agents.{
  default_token_config, CreateAgentOptions, ReissueOptions, issued, valid_user, invalid_user,
  valid_agent, State, agent_record, generate_agent_id, create_agent, store_auth_token,
  validate_auth_token, validate_refresh_token,
}
use btps_sdk.Authentication.Agents.Exchange.{rotate, renewed, decided, validate_and_reissue}
use btps_sdk.Authentication.Agents.AuthTokens.{validate_auth_token-once}
use btps_sdk.Authentication.Agents.Creation.{create_agent-validate, with_expiry}
use btps_sdk.Authentication.Agents.Rotation.{
  validate_and_reissue-once, fingerprints-rotated, fingerprints, expired_token,
}
use btps_sdk.Authentication.Tokens.{TokenDocument, make_key, store_token, get_token, remove_token}
use btps_sdk.Authentication.Tokens.Store.{memory_tokens}
use btps_sdk.Crypto.{get_fingerprint_from_pem}
use btps_sdk.Dates.{at}
use btps_sdk.Effects.{returned}
use btps_sdk.Errors.{plain, exception}
use btps_sdk.JsMap
use btps_sdk.Pem.{pem_to_base64, after_prefix, without_first, without_line_ends}
use btps_sdk.Samples.{platform, pem}
use btps_sdk.Text.{trim, trim_start, trim_end, is_space, ends_with, concat}
use btps_sdk.Trust.{accepted, pending, encrypted, TrustRecord, compute_trust_id, to_lower_case}
use btps_sdk.Trust.Store.{TrustStore, Patch, merge}

agents : Unit {0}
unfolding create_agent store_auth_token validate_auth_token validate_refresh_token
    validate_and_reissue store_token get_token remove_token make_key JsMap.get JsMap.set
    JsMap.delete compute_trust_id to_lower_case get_fingerprint_from_pem pem_to_base64 without_first
    after_prefix without_line_ends trim trim_start trim_end is_space ends_with merge
agents = tt

-- A trust store of one record, whose every operation finds it.
abbrev one_record : TrustStore
one_record = record {
  State = TrustRecord;
  get_by_id = λ id r. (r, returned (some r));
  create = λ new id r. (new, returned new);
  update = λ id patch r. (merge r patch, returned (merge r patch));
}

abbrev digest : String → String
digest = platform.digest

abbrev other_pem : String
other_pem = "-----BEGIN PUBLIC KEY-----\nother\n-----END PUBLIC KEY-----"

abbrev agent : TrustRecord
agent = record {
  id = "btps_ag_1:b$y.com";
  sender_id = "btps_ag_1";
  receiver_id = "b$y.com";
  status = pending;
  created_at = at 10;
  decided_by = "b$y.com";
  decided_at = at 10;
  expires_at = some (at 100);
  public_key_base64 = "k";
  public_key_fingerprint = pem;
  key_history = [];
  privacy_type = encrypted;
  retry_after_date = none;
  metadata = none;
}

abbrev options : CreateAgentOptions
options = record {
  user_identity = "b$y.com";
  public_key = pem;
  agent_info = none;
  decided_by = "b$y.com";
  privacy_type = none;
  trust_expiry_ms = some 0;
}

abbrev reissue_options : ReissueOptions
reissue_options = record {
  public_key = some other_pem;
  agent_info = none;
  decided_by = "b$y.com";
  privacy_type = none;
  trust_expiry_ms = some 50;
  decrypt_by = "b$y.com";
}

abbrev start : State platform one_record (memory_tokens digest) default_token_config
start = (agent, [])

validate_auth_token-once_example :
    let tokens = memory_tokens digest in
    let config = default_token_config in
    let stored =
      (store_auth_token platform one_record tokens config 10 "T" "b$y.com" "b$y.com" none
        start).0 in
    let used = validate_auth_token platform one_record tokens config 20 "b$y.com" "T" stored in
    (used.1 ≡ returned (valid_user "b$y.com"))
    × (validate_auth_token platform one_record tokens config 30 "b$y.com" "T" used.0
        ≡ (used.0, returned (invalid_user (exception (plain "Invalid or expired auth token")))))
validate_auth_token-once_example =
    validate_auth_token-once platform one_record default_token_config 10 20 30 "b$y.com" "T"
      "b$y.com" none start (omega arith)

create_agent-validate_example :
    let tokens = memory_tokens digest in
    let config = default_token_config in
    let done = create_agent platform one_record tokens config 10 "1" "R" options "b$y.com" start in
    (done.1
      ≡ returned (record {
        agent_id = "btps_ag_1";
        refresh_token = "R";
        expires_at = at (10 + 604800000);
        decrypt_by = "b$y.com";
      }))
    × (validate_refresh_token platform one_record tokens config 604800000 "btps_ag_1" "R" done.0
        ≡ (done.0, returned (valid_agent "btps_ag_1" "b$y.com")))
unfolding agents
create_agent-validate_example =
    create_agent-validate platform one_record default_token_config 10 604800000 "1" "R" pem
      "b$y.com" options
      (agent_record platform one_record (memory_tokens digest) default_token_config 10
        (generate_agent_id "1") (with_expiry platform one_record default_token_config options) pem)
      _ start (omega arith) refl refl

-- The refresh token of the agent, in the store.
abbrev refresh : TokenDocument
refresh = record {
  token = "R";
  agent_id = "btps_ag_1";
  user_identity = "b$y.com";
  created_at = at 10;
  expires_at = at 100;
  decrypt_by = "b$y.com";
  metadata = none;
}

abbrev key_of : String → String
key_of token = concat "btps_ag_1:" token

abbrev refreshable : State platform one_record (memory_tokens digest) default_token_config
refreshable = (agent, ("btps_ag_1:r", refresh) ∷ [])

abbrev reissue_patch : Patch
reissue_patch =
    rotate platform one_record (memory_tokens digest) default_token_config 20 agent other_pem
      other_pem
      (renewed platform one_record (memory_tokens digest) default_token_config 20 reissue_options
        agent)

abbrev reissued : TrustRecord
reissued = merge agent (
    decided platform one_record (memory_tokens digest) default_token_config 20 reissue_options
      reissue_patch)

validate_and_reissue-once_example :
    let tokens = memory_tokens digest in
    let config = default_token_config in
    let done =
      validate_and_reissue platform one_record tokens config 20 "btps_ag_1" "R" "S" reissue_options
        refreshable in
    (done.1
      ≡ returned (
          issued (record {
            agent_id = "btps_ag_1";
            refresh_token = "S";
            expires_at = at 70;
            decrypt_by = "b$y.com";
          })))
    × (validate_refresh_token platform one_record tokens config 1000 "btps_ag_1" "S" done.0
        ≡ (done.0, returned (valid_agent "btps_ag_1" "b$y.com")))
    × (validate_refresh_token platform one_record tokens config 30 "btps_ag_1" "R" done.0
        ≡ (done.0, returned (expired_token platform one_record config)))
unfolding agents
validate_and_reissue-once_example =
    validate_and_reissue-once platform one_record default_token_config 20 1000 30 "btps_ag_1" "R"
      "S" reissue_options refresh agent reissued reissue_patch agent reissued refreshable
      (λ e. cc (ap (λ s. s == "btps_ag_1:s") e)) (omega arith) refl refl refl refl refl

fingerprints-rotated_example :
    let tokens = memory_tokens digest in
    let config = default_token_config in
    let written =
      merge agent (decided platform one_record tokens config 20 reissue_options reissue_patch) in
    (written.status ≡ accepted)
    × (written.decided_by ≡ "b$y.com")
    × (written.decided_at ≡ at 20)
    × (fingerprints written ≡ pem ∷ other_pem ∷ [])
unfolding agents
fingerprints-rotated_example =
    fingerprints-rotated platform one_record (memory_tokens digest) default_token_config 20
      reissue_options agent other_pem other_pem reissue_patch refl refl
