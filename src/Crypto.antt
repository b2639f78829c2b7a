-- ===== src/Crypto.antt =====
-- src/core/crypto/index.ts: fingerprints, signatures and their verification. The primitives of the
-- platform are parameters: `Platform` lists those that the program calls.
pub mod Laws
pub mod Encryption
pub mod Documents
pub mod UserToken
pub mod RoundTrip
pub mod Exchange
pub mod Tests
use Prim.Native.String
use btps_sdk.Prelude.{
  ℕ, String, Bool, true, false, ◌||◌, not, Option, none, some, List, [], ◌∷◌, ◌==◌, if◌then◌else◌,
  ◌≡◌,
}
use text.Mathlib.Text.{starts_with}
use btps_sdk.Dns.{pem_header, pem_footer}
use btps_sdk.Errors.{Thrown, exception, error, other, Exception, sig_mismatch, sig_verification}
use btps_sdk.Effects.{Outcome, returned, thrown}
use btps_sdk.Json.{Json, str, obj, Fields, end, field, text_at, fields_of}
use btps_sdk.Text.{trim, ends_with}
use btps_sdk.Trust.{Check, passed, failed}

-- Node's functions, each over the texts that it is given: `JSON.stringify`, the hexadecimal
-- SHA-256 digest, the digest of a public key's DER form by a hash algorithm, `crypto.sign` and
-- `crypto.verify` with the hash algorithm first, `dns.resolveTxt`, and the printing of an error.
pub record Platform : Type 0 where
  pub stringify : Json → String
  pub digest : String → String
  pub key_digest : String → String → Outcome String
  pub sign : String → String → String → Outcome String
  pub verify : String → String → String → String → Outcome Bool
  pub resolve_txt : String → Outcome (List (List String))
  pub print : Thrown → String

-- `PemKeys`
pub record PemKeys : Type 0 where
  pub public_key : String
  pub private_key : String

-- `BTPSignature`
pub record Signature : Type 0 where
  pub algorithm_hash : String
  pub value : String
  pub fingerprint : String

-- A signature as it stands in a message, and as it is read from one.
abbrev pub signature_json : Signature → Json
signature_json s = obj (
    field "algorithmHash" (str s.algorithm_hash)
      (field "value" (str s.value) (field "fingerprint" (str s.fingerprint) end)))

abbrev pub signature_of : Option Json → Signature
signature_of j = elim (fields_of j) [
  | none ↦ record { algorithm_hash = "undefined"; value = "undefined"; fingerprint = "undefined" }
  | some fs ↦ record {
    algorithm_hash = text_at "algorithmHash" fs;
    value = text_at "value" fs;
    fingerprint = text_at "fingerprint" fs;
  }
]

infixl 5 ◌>>=◌
abbrev pub ◌>>=◌ : {A B : Type 0} → Outcome A → (A → Outcome B) → Outcome B
returned a >>= f = f a
thrown e >>= f = thrown e

module _ (p : Platform) where
  unfoldable pub get_fingerprint_from_pem : String → String → Outcome String
  unfolding trim ends_with
  get_fingerprint_from_pem pem algorithm =
      let normalized = trim pem in
      if not (starts_with normalized pem_header) || not (ends_with normalized pem_footer)
      then thrown (exception sig_mismatch)
      else p.key_digest algorithm normalized

  -- A payload that is a text is taken as it is.
  abbrev pub payload_text : Json → String
  payload_text (str s) = s
  payload_text j = p.stringify j

  unfoldable pub sign_btp_payload : Json → PemKeys → Outcome Signature
  unfolding get_fingerprint_from_pem
  sign_btp_payload payload keys = do
    value ← p.sign "sha256" (payload_text payload) keys.private_key
    fingerprint ← get_fingerprint_from_pem keys.public_key "sha256"
    returned (record { algorithm_hash = "sha256"; value = value; fingerprint = fingerprint })

  -- `senderFingerprint !== signature.fingerprint`, where a throw has left it undefined.
  abbrev pub same_fingerprint : Outcome String → String → Bool
  same_fingerprint (returned f) g = f == g
  same_fingerprint (thrown e) g = false

  abbrev pub verdict : Bool → Check
  verdict true = passed
  verdict false = failed sig_verification none

  unfoldable pub verify_signature : Json → Signature → String → Outcome Check
  unfolding get_fingerprint_from_pem
  verify_signature payload signature sender_pub_key =
      if same_fingerprint (get_fingerprint_from_pem sender_pub_key signature.algorithm_hash)
        signature.fingerprint
      then (do
        is_valid ←
            p.verify signature.algorithm_hash (payload_text payload) sender_pub_key signature.value
        returned (verdict is_valid))
      else returned (failed sig_mismatch none)
