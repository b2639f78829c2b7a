-- ===== src/Errors.antt =====
-- src/core/error: the protocol's error constants with their codes and messages, and the exception
-- that carries one of them.
use Prim.Native.Nat.{ℕ}
use btps_sdk.Prelude.{String, Option, none, some}

-- `code?: string | number`
pub data Code : Type 0 where
  text : String → Code
  number : ℕ → Code

-- `BTPError`
pub record BtpError : Type 0 where
  pub code : Option Code
  pub message : String

abbrev pub coded : String → String → BtpError
coded c m = record { code = some (text c); message = m }

-- `new BTPErrorException({ message })`
abbrev pub plain : String → BtpError
plain m = record { code = none; message = m }

abbrev pub socket_closed : BtpError
socket_closed = coded "BTP_ERROR_SOCKET_CLOSED" "Socket already closed"

abbrev pub identity_error : BtpError
identity_error =
    coded "BTP_ERROR_IDENTITY" "BTPS identity is expected in the format username$domain."

abbrev pub trust_non_existent : BtpError
trust_non_existent =
    coded "BTP_ERROR_TRUST_NON_EXISTENT" "BTPS trust record does not exist or has been expired"

abbrev pub action_type : BtpError
action_type = coded "BTPS_ERROR_ACTION_TYPE" "BTPS action type is not valid"

abbrev pub trust_blocked : BtpError
trust_blocked =
    coded "BTP_ERROR_TRUST_BLOCKED" "BTPS trust request is not allowed. Contact receiver"

abbrev pub trust_not_allowed : BtpError
trust_not_allowed =
    coded "BTP_ERROR_TRUST_NOT_ALLOWED"
      "BTPS trust request is not allowed at this time. Contact receiver"

abbrev pub trust_already_active : BtpError
trust_already_active =
    coded "BTP_ERROR_TRUST_ALREADY_ACTIVE" "BTPS trust record already exist. Request invalid"

abbrev pub selector_not_found : BtpError
selector_not_found = coded "BTP_ERROR_SELECTOR_NOT_FOUND" "No valid selector found"

abbrev pub resolve_pubkey : BtpError
resolve_pubkey = coded "BTP_ERROR_RESOLVE_PUBKEY" "No valid public-key found"

abbrev pub rate_limiter : BtpError
rate_limiter = coded "BTP_ERROR_RATE_LIMITER" "Too many request than its allowed"

abbrev pub invalid_json : BtpError
invalid_json = coded "BTP_ERROR_INVALID_JSON" "Invalid JSON format"

abbrev pub validation_error : BtpError
validation_error = coded "BTP_ERROR_VALIDATION" "BTPS artifact validation failed"

abbrev pub sig_mismatch : BtpError
sig_mismatch = coded "BTP_ERROR_SIG_MISMATCH" "fingerprint mis-match"

abbrev pub sig_verification : BtpError
sig_verification = coded "BTP_ERROR_SIG_VERIFICATION" " Signature verification failed"

abbrev pub delegation_sig_verification : BtpError
delegation_sig_verification =
    coded "BTP_ERROR_DELEGATION_SIG_VERIFICATION" "Delegation signature verification failed"

abbrev pub attestation_verification : BtpError
attestation_verification =
    coded "BTP_ERROR_ATTESTATION_VERIFICATION" "Attestation verification failed"

abbrev pub delegation_invalid : BtpError
delegation_invalid = coded "BTP_ERROR_DELEGATION_INVALID" "Delegation is invalid"

abbrev pub unsupported_encrypt : BtpError
unsupported_encrypt = coded "BTP_ERROR_UNSUPPORTED_ENCRYPT" "Unsupported encryption algorithm"

abbrev pub decryption_unintended : BtpError
decryption_unintended =
    coded "BTP_ERROR_DECRYPTION_UNINTENDED"
      "Decryption failed: Message was not intended for this receiver."

abbrev pub unknown_error : BtpError
unknown_error = coded "BTP_UNKNOWN_ERROR" "Unknown error"

abbrev pub socket_timeout : BtpError
socket_timeout = coded "BTP_ERROR_SOCKET_TIMEOUT" "Socket timeout. Connection closed"

abbrev pub authentication_invalid : BtpError
authentication_invalid = coded "BTP_ERROR_AUTHENTICATION_INVALID" "Authentication failed"

-- What may be thrown: a protocol exception, another `Error`, or any other value, as its JSON text.
pub data Thrown : Type 0 where
  exception : BtpError → Thrown
  error : String → Thrown
  other : String → Thrown

-- `BTPErrorException` with its `cause` as text; `meta` is left out.
pub record Exception : Type 0 where
  pub error : BtpError
  pub cause : Option String

-- The exception that a caught value becomes.
unfoldable pub transform_to_exception : Thrown → Exception
transform_to_exception (exception e) = record { error = e; cause = none }
transform_to_exception (error m) = record { error = plain m; cause = none }
transform_to_exception (other j) = record { error = unknown_error; cause = some j }
