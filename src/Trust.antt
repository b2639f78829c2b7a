-- ===== src/Trust.antt =====
-- src/core/trust/types.ts and src/core/trust/index.ts: the trust record, and the decisions that
-- are made on it. `crypto.createHash('sha256')` with its hex digest is the parameter `digest`.
pub mod Store
pub mod JsonStore
pub mod Response
pub mod Decisions
pub mod Ids
use Prim.Native.Char.{Char, code}
use Prim.Native.String
use Prim.Native.String.char_at
use btps_sdk.Prelude.{
  ℕ, ◌-◌, String, Bool, true, false, ◌&&◌, not, Option, none, some, List, leb, if◌then◌else◌, ◌==◌,
}
use btps_sdk.JsMap.{JsMap}
use btps_sdk.Dates.{DateText, is_before, is_after, is_by}
use btps_sdk.Errors.{BtpError, Exception, trust_already_active, trust_blocked, trust_not_allowed}

-- `BTPTrustStatus`
pub data Status : Type 0 where
  accepted rejected revoked pending blocked : Status

-- `BTPEncryptionType`
pub data PrivacyType : Type 0 where
  unencrypted encrypted mixed : PrivacyType

pub record KeyHistory : Type 0 where
  pub fingerprint : String
  pub first_seen : DateText
  pub last_seen : DateText

-- `metadata` holds unknown values: the JSON text of each.
pub record TrustRecord : Type 0 where
  pub id : String
  pub sender_id : String
  pub receiver_id : String
  pub status : Status
  pub created_at : DateText
  pub decided_by : String
  pub decided_at : DateText
  pub expires_at : Option DateText
  pub public_key_base64 : String
  pub public_key_fingerprint : String
  pub key_history : List KeyHistory
  pub privacy_type : PrivacyType
  pub retry_after_date : Option DateText
  pub metadata : Option (JsMap String)

abbrev pub is_accepted : Status → Bool
is_accepted accepted = true
is_accepted _ = false

abbrev pub is_blocked : Status → Bool
is_blocked blocked = true
is_blocked _ = false

abbrev pub is_pending : Status → Bool
is_pending pending = true
is_pending _ = false

-- `d && test(d)` for an optional date.
abbrev pub dated : (DateText → Bool) → Option DateText → Bool
dated test none = false
dated test (some d) = test d

unfoldable pub is_trust_active : ℕ → Option TrustRecord → Bool
is_trust_active now none = false
is_trust_active now (some trust) =
    if not (is_accepted trust.status)
    then false
    else if dated (λ d. is_before d now) trust.expires_at
    then false
    else true

-- `{ isValid, error }`
pub record Check : Type 0 where
  pub is_valid : Bool
  pub error : Option Exception

abbrev pub passed : Check
passed = record { is_valid = true; error = none }

abbrev pub failed : BtpError → Option String → Check
failed e cause = record { is_valid = false; error = some (record { error = e; cause = cause }) }

abbrev status_is : (Status → Bool) → Option TrustRecord → Bool
status_is test none = false
status_is test (some trust) = test trust.status

abbrev retry_after : Option TrustRecord → Option DateText
retry_after none = none
retry_after (some trust) = trust.retry_after_date

unfoldable pub validate_trust_request : ℕ → Option TrustRecord → Check
unfolding is_trust_active
validate_trust_request now trust =
    if is_trust_active now trust
    then failed trust_already_active none
    else if status_is is_blocked trust
    then failed trust_blocked none
    else if dated (λ d. is_after d now) (retry_after trust)
    then failed trust_not_allowed none
    else passed

unfoldable pub can_retry_trust : ℕ → Option TrustRecord → Bool
can_retry_trust now none = true
can_retry_trust now (some trust) =
    if is_accepted trust.status
    then false
    else if is_blocked trust.status
    then false
    else elim trust.retry_after_date [ none ↦ true | some d ↦ is_by d now ]

-- `toLowerCase` of an ASCII character; any other character stays.
abbrev pub lower : Char → Char
lower c =
    if leb b'A' (code c) && leb (code c) b'Z'
    then String.char_at "abcdefghijklmnopqrstuvwxyz" (code c - b'A')
    else c

-- `toLowerCase`, for the letters of ASCII.
unfoldable pub to_lower_case : String → String
to_lower_case String.[] = ""
to_lower_case (String.◌∷◌ c s) = String.◌∷◌ (lower c) (to_lower_case s)

unfoldable pub compute_trust_id : (String → String) → String → String → String
unfolding to_lower_case
compute_trust_id digest sender_id receiver_id =
    digest (to_lower_case (String.◌++◌ sender_id (String.◌++◌ ":" receiver_id)))
