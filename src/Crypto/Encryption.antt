-- ===== src/Crypto/Encryption.antt =====
-- src/core/crypto/index.ts: the encryption of a document for its receiver, and its decryption. Byte
-- arrays are their base64 texts. The random key and the random vector are arguments.
use btps_sdk.Prelude.{String, Bool, not, Option, none, some, ◌==◌, if◌then◌else◌}
use btps_sdk.Effects.{Outcome, returned, thrown}
use btps_sdk.Errors.{
  BtpError, coded, Thrown, exception, error, other, unknown_error, unsupported_encrypt,
  decryption_unintended,
}
use btps_sdk.Json.{Json, str, obj, Fields, end, field, text_at}

-- The functions of the platform: AES-GCM by its algorithm, key and vector, with the ciphertext and
-- its tag; RSA with OAEP; `JSON.stringify` and `JSON.parse`; whether a thrown value is the error of
-- an OAEP decoding; and the name of an error.
pub record Ciphers : Type 0 where
  pub encrypt : (algorithm key iv text : String) → Outcome (String × String)
  pub decrypt : (algorithm key iv tag ciphertext : String) → Outcome String
  pub public_encrypt : (pem content : String) → Outcome String
  pub private_decrypt : (pem content : String) → Outcome String
  pub json_text : Json → String
  pub json_parse : String → Outcome Json
  pub is_oaep_error : Thrown → Bool
  pub name_of : Thrown → String

-- `BTPCryptoOptions['encryption']`
pub record EncryptionOptions : Type 0 where
  pub algorithm : String
  pub mode : String

-- `BTPEncryption`
pub record Encryption : Type 0 where
  pub algorithm : String
  pub encrypted_key : String
  pub iv : String
  pub auth_tag : String
  pub type : String

-- `{ data, encryption }`, the data as `content`
pub record Encrypted : Type 0 where
  pub content : String
  pub encryption : Encryption

-- `{ data, error }`, the data as `content`
pub record Decrypted : Type 0 where
  pub content : Option Json
  pub error : Option BtpError

abbrev pub encryption_json : Encryption → Json
encryption_json e = obj (
    field "algorithm" (str e.algorithm) (
      field "encryptedKey" (str e.encrypted_key)
        (field "iv" (str e.iv) (field "authTag" (str e.auth_tag) (field "type" (str e.type) end)))))

abbrev pub encryption_of : Fields → Encryption
encryption_of fs = record {
  algorithm = text_at "algorithm" fs;
  encrypted_key = text_at "encryptedKey" fs;
  iv = text_at "iv" fs;
  auth_tag = text_at "authTag" fs;
  type = text_at "type" fs;
}

infixl 5 ◌>>=◌
abbrev pub ◌>>=◌ : {A B : Type 0} → Outcome A → (A → Outcome B) → Outcome B
returned a >>= f = f a
thrown e >>= f = thrown e

module _ (c : Ciphers) where
  -- A payload that is a text is taken as it is, and a missing one is the empty text.
  abbrev pub plain_text : Option Json → String
  plain_text none = ""
  plain_text (some (str s)) = s
  plain_text (some j) = c.json_text j

  unfoldable pub encrypt_btp_payload :
      Option Json → String → EncryptionOptions → String → String → Outcome Encrypted
  encrypt_btp_payload payload receiver_pub_pem options aes_key iv = do
    sealed ← c.encrypt options.algorithm aes_key iv (plain_text payload)
    encrypted_key ← c.public_encrypt receiver_pub_pem aes_key
    returned (record {
      content = sealed.0;
      encryption = record {
        algorithm = options.algorithm;
        encrypted_key = encrypted_key;
        iv = iv;
        auth_tag = sealed.1;
        type = options.mode;
      };
    })

  -- The error that a caught value becomes.
  abbrev decryption_error : Thrown → BtpError
  decryption_error e = if c.is_oaep_error e then decryption_unintended else elim e [
    | exception b ↦ coded (c.name_of (exception b)) b.message
    | error m ↦ coded (c.name_of (error m)) m
    | other j ↦ unknown_error
  ]

  abbrev decrypted : Outcome Json → Decrypted
  decrypted (returned j) = record { content = some j; error = none }
  decrypted (thrown e) = record { content = none; error = some (decryption_error e) }

  unfoldable pub decrypt_btp_payload : Option Json → Encryption → String → Decrypted
  decrypt_btp_payload payload encryption receiver_priv_pem =
      if not (encryption.algorithm == "aes-256-gcm")
      then record { content = none; error = some unsupported_encrypt }
      else decrypted (do
        key ← c.private_decrypt receiver_priv_pem encryption.encrypted_key
        text ←
            c.decrypt encryption.algorithm key encryption.iv encryption.auth_tag
              (plain_text payload)
        c.json_parse text)
