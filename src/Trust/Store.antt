-- ===== src/Trust/Store.antt =====
-- src/core/trust/storage/AbstractTrustStore.ts: what the server and the authentication ask of a
-- trust store, as operations on its state that may throw.
use btps_sdk.Prelude.{String, Option, some, List, or_else}
use btps_sdk.JsMap.{JsMap}
use btps_sdk.Dates.{DateText}
use btps_sdk.Effects.{Act}
use btps_sdk.Trust.{Status, PrivacyType, KeyHistory, TrustRecord}

-- `Partial<BTPTrustRecord>`. For an optional field, `some none` is a key that holds undefined.
pub record Patch : Type 0 where
  pub id : Option String
  pub sender_id : Option String
  pub receiver_id : Option String
  pub status : Option Status
  pub created_at : Option DateText
  pub decided_by : Option String
  pub decided_at : Option DateText
  pub expires_at : Option (Option DateText)
  pub public_key_base64 : Option String
  pub public_key_fingerprint : Option String
  pub key_history : Option (List KeyHistory)
  pub privacy_type : Option PrivacyType
  pub retry_after_date : Option (Option DateText)
  pub metadata : Option (Option (JsMap String))

-- `{ ...record, ...patch }`
unfoldable pub merge : TrustRecord → Patch → TrustRecord
merge r p = record {
  id = or_else p.id r.id;
  sender_id = or_else p.sender_id r.sender_id;
  receiver_id = or_else p.receiver_id r.receiver_id;
  status = or_else p.status r.status;
  created_at = or_else p.created_at r.created_at;
  decided_by = or_else p.decided_by r.decided_by;
  decided_at = or_else p.decided_at r.decided_at;
  expires_at = or_else p.expires_at r.expires_at;
  public_key_base64 = or_else p.public_key_base64 r.public_key_base64;
  public_key_fingerprint = or_else p.public_key_fingerprint r.public_key_fingerprint;
  key_history = or_else p.key_history r.key_history;
  privacy_type = or_else p.privacy_type r.privacy_type;
  retry_after_date = or_else p.retry_after_date r.retry_after_date;
  metadata = or_else p.metadata r.metadata;
}

-- `{ ...record }` as a patch: every key of the record.
abbrev pub patch_of : TrustRecord → Patch
patch_of r = record {
  id = some r.id;
  sender_id = some r.sender_id;
  receiver_id = some r.receiver_id;
  status = some r.status;
  created_at = some r.created_at;
  decided_by = some r.decided_by;
  decided_at = some r.decided_at;
  expires_at = some r.expires_at;
  public_key_base64 = some r.public_key_base64;
  public_key_fingerprint = some r.public_key_fingerprint;
  key_history = some r.key_history;
  privacy_type = some r.privacy_type;
  retry_after_date = some r.retry_after_date;
  metadata = some r.metadata;
}

-- `create` takes the record without its id, and perhaps the id.
pub record TrustStore : Type 1 where
  pub State : Type 0
  pub get_by_id : String → Act State (Option TrustRecord)
  pub create : TrustRecord → Option String → Act State TrustRecord
  pub update : String → Patch → Act State TrustRecord
