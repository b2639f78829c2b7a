-- ===== src/Crypto/Documents.antt =====
-- src/core/crypto/signEncrypt.ts and src/core/crypto/decryptVerify.ts: a document that is encrypted and
-- signed for its receiver, and read by it. The random and clock values of a call are arguments.
use btps_sdk.Prelude.{String, ◌&&◌, not, Option, none, some, ◌==◌, is_some, if◌then◌else◌}
use btps_sdk.Crypto.{
  Platform, PemKeys, Signature, signature_json, signature_of, sign_btp_payload, verify_signature,
}
use btps_sdk.Crypto.Encryption.{
  Ciphers, EncryptionOptions, Encryption, Encrypted, Decrypted, encryption_json, encryption_of,
  encrypt_btp_payload, decrypt_btp_payload,
}
use btps_sdk.Dns.{resolve_public_key}
use btps_sdk.Effects.{Outcome, returned, thrown}
use btps_sdk.Errors.{Thrown, exception, error, identity_error, resolve_pubkey}
use btps_sdk.Identity.{parse_identity}
use btps_sdk.Json.{
  Json, null, str, obj, Fields, field, get_field, set_field, without, string_of, fields_of,
  is_truthy,
}
use btps_sdk.Trust.{Check}

-- `BTPCryptoOptions`, without the hash algorithm, which is always SHA-256.
pub record CryptoOptions : Type 0 where
  pub encryption : Option EncryptionOptions

-- `BTPCryptoResponse`
pub record CryptoResponse : Type 0 where
  pub payload : Option Fields
  pub error : Option Thrown

-- What a call takes from the clock and from the random generators.
pub record Fresh : Type 0 where
  pub id : String
  pub now : String
  pub aes_key : String
  pub iv : String

abbrev pub gen_error : Thrown → CryptoResponse
gen_error e = record { payload = none; error = some e }

abbrev pub produced : Fields → CryptoResponse
produced fs = record { payload = some fs; error = none }

-- A text that is there and not empty.
abbrev pub given : Option String → Option String
given none = none
given (some s) = if s == "" then none else some s

-- `{ ...o, k: v }` for a value that may be undefined.
abbrev pub set_given : String → Option Json → Fields → Fields
set_given k none fs = fs
set_given k (some v) fs = set_field k v fs

-- `o.k ?? v`
abbrev pub present_or : Option Json → Json → Json
present_or none v = v
present_or (some null) v = v
present_or (some w) v = w

abbrev pub options_encryption : Option CryptoOptions → Option EncryptionOptions
options_encryption none = none
options_encryption (some o) = o.encryption

-- The document as it is sent, with the description of its encryption.
pub record Sealed : Type 0 where
  pub document : Option Json
  pub encryption : Option Encryption

abbrev pub encryption_field : Option Encryption → Json
encryption_field none = null
encryption_field (some e) = encryption_json e

-- `needsDecryption`, with what it needs: a description of the encryption, a key, and a text.
abbrev pub decryption_of :
    Option Fields → Option String → Option String → Option (Encryption × (String × String))
decryption_of (some (field k v fs)) (some pem) (some text) =
    some (encryption_of (field k v fs), (pem, text))
decryption_of _ _ _ = none

abbrev pub decryptable : Fields → Option String → Option (Encryption × (String × String))
decryptable rest receiver_private_pem =
    decryption_of (fields_of (get_field "encryption" rest)) (given receiver_private_pem)
      (given (string_of (get_field "document" rest)))

-- What the encryption of a document comes to.
pub data Sealing : Type 0 where
  sealed : Sealed → Sealing
  failed : Thrown → Sealing

module _ (p : Platform) (c : Ciphers) where
  abbrev pub sealed_outcome : Fresh → Outcome Encrypted → Sealing
  sealed_outcome fresh (thrown e) = failed e
  sealed_outcome fresh (returned x) =
      sealed (record { document = some (str x.content); encryption = some x.encryption })

  abbrev seal_for : Fresh → Option Json → Option EncryptionOptions → String → Sealing
  seal_for fresh document none pem = sealed (record { document = document; encryption = none })
  seal_for fresh document (some eo) pem =
      sealed_outcome fresh (encrypt_btp_payload c document pem eo fresh.aes_key fresh.iv)

  abbrev seal_with : Fresh → Option Json → Option EncryptionOptions → Option String → Sealing
  seal_with fresh document eo none = failed (exception resolve_pubkey)
  seal_with fresh document eo (some pem) = seal_for fresh document eo pem

  -- Without a receiver or a selector the document stays as it is.
  unfoldable pub seal :
      Fresh
      → Option String
      → Option String
      → Option Json
      → Option EncryptionOptions
      → Outcome Sealing
  unfolding encrypt_btp_payload
  seal fresh (some to) (some selector) document eo = elim (parse_identity to) [
    | none ↦ returned (failed (exception identity_error))
    | some _ ↦ elim (resolve_public_key p.resolve_txt p.print to selector) [
      | thrown e ↦ thrown e
      | returned key ↦ returned (seal_with fresh document eo (given key))
    ]
  ]
  seal fresh none selector document eo =
      returned (sealed (record { document = document; encryption = none }))
  seal fresh (some to) none document eo =
      returned (sealed (record { document = document; encryption = none }))

  -- `docToSign`
  abbrev pub doc_to_sign : Fresh → Fields → Sealed → Fields
  doc_to_sign fresh rest s = set_field "encryption" (encryption_field s.encryption) (
      set_given "document" s.document (
        set_field "issuedAt" (present_or (get_field "issuedAt" rest) (str fresh.now))
          (set_field "id" (present_or (get_field "id" rest) (str fresh.id)) rest)))

  abbrev pub signed_response : Fields → Outcome Signature → CryptoResponse
  signed_response doc (thrown e) = gen_error e
  signed_response doc (returned s) = produced (set_field "signature" (signature_json s) doc)

  abbrev pub sign_sealed : Fresh → PemKeys → Fields → Sealing → CryptoResponse
  sign_sealed fresh keys rest (failed e) = gen_error e
  sign_sealed fresh keys rest (sealed s) =
      let doc = doc_to_sign fresh rest s in signed_response doc (sign_btp_payload p (obj doc) keys)

  abbrev pub signed_outcome : Fresh → PemKeys → Fields → Outcome Sealing → Outcome CryptoResponse
  signed_outcome fresh keys rest (thrown e) = thrown e
  signed_outcome fresh keys rest (returned s) = returned (sign_sealed fresh keys rest s)

  unfoldable pub sign_encrypt :
      Fresh → Option String → PemKeys → Fields → Option CryptoOptions → Outcome CryptoResponse
  unfolding seal
  sign_encrypt fresh to keys payload options =
      signed_outcome fresh keys (without "document" payload) (
        seal fresh (given to) (given (string_of (get_field "selector" payload)))
          (get_field "document" payload) (options_encryption options))

  abbrev pub decrypted_document : Option Json → Option (Encryption × (String × String)) → Decrypted
  decrypted_document document none = record { content = document; error = none }
  decrypted_document document (some (e, (pem, text))) =
      decrypt_btp_payload c (some (str text)) e pem

  abbrev opened_payload : Fields → Option Json → Option Json → Option Json → CryptoResponse
  opened_payload rest signature content delegation =
      let signed = set_given "signature" signature rest in
      let read = if is_truthy content then set_given "document" content signed else signed in
      produced (if is_truthy delegation then set_given "delegation" delegation read else read)

  abbrev pub opened_document : Fields → Option Json → Option Json → Decrypted → CryptoResponse
  opened_document rest signature delegation d = elim d.error [
    | some e ↦ gen_error (exception e)
    | none ↦ opened_payload rest signature d.content delegation
  ]

  -- What is made of a message whose signature was checked.
  abbrev pub open_checked : Fields → Option String → Fields → Outcome Check → Outcome CryptoResponse
  open_checked payload receiver_private_pem rest (thrown e) = thrown e
  open_checked payload receiver_private_pem rest (returned check) =
      if not check.is_valid && is_some check.error
      then returned
          (gen_error (elim check.error [ none ↦ error "undefined" | some e ↦ exception e.error ]))
      else returned (
          opened_document rest (get_field "signature" payload) (get_field "delegation" payload) (
            decrypted_document (get_field "document" rest) (decryptable rest receiver_private_pem)))

  -- The signature is checked over the message without the signature and the delegation.
  unfoldable pub decrypt_verify : String → Fields → Option String → Outcome CryptoResponse
  unfolding decrypt_btp_payload
  decrypt_verify sender_pub_pem payload receiver_private_pem =
      let rest = without "delegation" (without "signature" payload) in
      open_checked payload receiver_private_pem rest (
        verify_signature p (obj rest) (signature_of (get_field "signature" payload)) sender_pub_pem)
