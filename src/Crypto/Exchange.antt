-- ===== src/Crypto/Exchange.antt =====
-- src/core/crypto/signEncrypt.ts and src/core/crypto/decryptVerify.ts, one after the other.
use btps_sdk.Prelude.{◌≡◌, refl, ap, ◌∙◌, String, true, false, Option, none, some, ◌==◌}
use btps_sdk.Crypto.{
  Platform, PemKeys, Signature, sign_btp_payload, signature_json, signature_of, verify_signature,
}
use btps_sdk.Crypto.Documents.{
  Fresh, sealed, Sealing, seal, signed_outcome, sealed_outcome, signed_response, doc_to_sign,
  sign_encrypt, decrypt_verify, open_checked, opened_document, decrypted_document, decryption_of,
  decryptable, present_or, produced, given,
}
use btps_sdk.Crypto.Encryption.{
  Ciphers, EncryptionOptions, Encrypted, plain_text, encrypt_btp_payload, encryption_json,
}
use btps_sdk.Crypto.Laws.{IsKeyPair, verify_signature-sign_btp_payload}
use btps_sdk.Crypto.RoundTrip.{IsCipher, IsRsaPair, decrypt_btp_payload-encrypt_btp_payload}
use btps_sdk.Dns.{resolve_public_key}
use btps_sdk.Effects.{Outcome, returned}
use btps_sdk.Identity.{ParsedIdentity, parse_identity}
use btps_sdk.Json.{
  Json, str, obj, Fields, get_field, set_field, without, string_of, fields_of, is_truthy,
}
use btps_sdk.Json.Laws.{
  get_field-set_field_ne, get_field-set_field_self, get_field-without-none, without-absent,
  without-set_field,
}

module _ (p : Platform) (c : Ciphers) (fresh : Fresh) (keys : PemKeys) where
  -- The signed part of a message with an encrypted document.
  abbrev pub encrypted_doc : Fields → Encrypted → Fields
  encrypted_doc payload x =
      doc_to_sign p c fresh (without "document" payload)
        (record { document = some (str x.content); encryption = some x.encryption })

  abbrev pub encrypted_message : Fields → Encrypted → Signature → Fields
  encrypted_message payload x s = set_field "signature" (signature_json s) (encrypted_doc payload x)

  seal-encrypted :
      (to selector pem : String) (i : ParsedIdentity) (key : Option String) (j : Json)
      (eo : EncryptionOptions) (x : Encrypted)
      → parse_identity to ≡ some i
      → resolve_public_key p.resolve_txt p.print to selector ≡ returned key
      → given key ≡ some pem
      → encrypt_btp_payload c (some j) pem eo fresh.aes_key fresh.iv ≡ returned x
      → seal p c fresh (some to) (some selector) (some j) (some eo)
        ≡ returned
            (sealed (record { document = some (str x.content); encryption = some x.encryption }))
  unfolding seal
  seal-encrypted to selector pem i key j eo x h4 h5 h6 h7 =
      rw (h4, seal) (rw h5 (rw h6 (ap (λ e. returned (sealed_outcome p c fresh e)) h7)))

  seal-payload :
      (to selector : String) (payload : Fields) (j : Json) (eo : EncryptionOptions)
      (o : Outcome Sealing)
      → given (some to) ≡ some to
      → given (string_of (get_field "selector" payload)) ≡ some selector
      → get_field "document" payload ≡ some j
      → seal p c fresh (some to) (some selector) (some j) (some eo) ≡ o
      → seal p c fresh
          (given (some to))
          (given (string_of (get_field "selector" payload)))
          (get_field "document" payload)
          (some eo)
        ≡ o
  seal-payload to selector payload j eo o h1 h2 h3 h = rw (h1, h2, h3) h

  -- With a receiver and a selector whose key the receiver's domain publishes, a document is sent
  -- encrypted for that key, and signed.
  pub sign_encrypt-encrypted :
      (to selector pem : String) (i : ParsedIdentity) (key : Option String) (payload : Fields)
      (j : Json) (eo : EncryptionOptions) (x : Encrypted) (s : Signature)
      → given (some to) ≡ some to
      → given (string_of (get_field "selector" payload)) ≡ some selector
      → get_field "document" payload ≡ some j
      → parse_identity to ≡ some i
      → resolve_public_key p.resolve_txt p.print to selector ≡ returned key
      → given key ≡ some pem
      → encrypt_btp_payload c (some j) pem eo fresh.aes_key fresh.iv ≡ returned x
      → sign_btp_payload p (obj (encrypted_doc payload x)) keys ≡ returned s
      → sign_encrypt p c fresh (some to) keys payload (some (record { encryption = some eo }))
        ≡ returned (produced (encrypted_message payload x s))
  unfolding sign_encrypt
  sign_encrypt-encrypted to selector pem i key payload j eo x s h1 h2 h3 h4 h5 h6 h7 h8 =
      ap (signed_outcome p c fresh keys (without "document" payload)) (
        seal-payload to selector payload j eo _ h1 h2 h3
          (seal-encrypted to selector pem i key j eo x h4 h5 h6 h7))
      ∙ ap (λ r. returned (signed_response p c (encrypted_doc payload x) r)) h8

  get_field-encrypted_doc :
      (payload : Fields) (x : Encrypted) (k : String)
      → get_field k payload ≡ none
      → ("encryption" == k) ≡ false
      → ("document" == k) ≡ false
      → ("issuedAt" == k) ≡ false
      → ("id" == k) ≡ false
      → get_field k (encrypted_doc payload x) ≡ none
  get_field-encrypted_doc payload x k h a b d e =
      get_field-set_field_ne "encryption" k _ _ a
      ∙ get_field-set_field_ne "document" k _ _ b
      ∙ get_field-set_field_ne "issuedAt" k _ _ d
      ∙ get_field-set_field_ne "id" k _ _ e
      ∙ get_field-without-none "document" k payload h

  abbrev unsealed : Fields → Encrypted → Fields
  unsealed payload x =
      let rest = without "document" payload in
      set_field "document" (str x.content) (
        set_field "issuedAt" (present_or (get_field "issuedAt" rest) (str fresh.now))
          (set_field "id" (present_or (get_field "id" rest) (str fresh.id)) rest))

  document-encrypted_doc :
      (payload : Fields) (x : Encrypted)
      → get_field "document" (encrypted_doc payload x) ≡ some (str x.content)
  document-encrypted_doc payload x =
      get_field-set_field_ne "encryption" "document" _ (unsealed payload x) refl
      ∙ get_field-set_field_self "document" (str x.content) _

  decryptable-encrypted_doc :
      (payload : Fields) (x : Encrypted) (priv_pem : String)
      → given (some priv_pem) ≡ some priv_pem
      → given (some x.content) ≡ some x.content
      → decryptable (encrypted_doc payload x) (some priv_pem)
        ≡ some (x.encryption, (priv_pem, x.content))
  unfolding get_field
  decryptable-encrypted_doc payload x priv_pem h k =
      (λ i.
        decryption_of
          (fields_of (
            get_field-set_field_self "encryption" (encryption_json x.encryption)
              (unsealed payload x) i))
          (h i) (given (string_of (document-encrypted_doc payload x i))))
      ∙ (λ i. decryption_of (fields_of (some (encryption_json x.encryption))) (some priv_pem) (k i))

  -- A message with an encrypted and signed document, read by its receiver with the sender's public key
  -- and the receiver's private one, is the message as it was sent with the document in the place of
  -- its ciphertext. The conditions: the message has no signature and no delegation before; the
  -- document is truthy, and the parser of JSON reads it back from the text that was encrypted (which
  -- it does not for a document that is a text itself); the algorithm is aes-256-gcm; the sender's keys
  -- are a key pair (what is signed with the one is verified with the other), the cipher and the
  -- receiver's RSA keys invert their encryption, and the receiver's key and the ciphertext are no
  -- empty texts; and the encryption and the signing succeeded.
  pub decrypt_verify-encrypted :
      (payload : Fields) (j : Json) (pem priv_pem : String) (eo : EncryptionOptions) (x : Encrypted)
      (s : Signature)
      → IsKeyPair p keys
      → IsCipher c
      → IsRsaPair c pem priv_pem
      → eo.algorithm ≡ "aes-256-gcm"
      → c.json_parse (plain_text c (some j)) ≡ returned j
      → is_truthy (some j) ≡ true
      → given (some priv_pem) ≡ some priv_pem
      → given (some x.content) ≡ some x.content
      → get_field "signature" payload ≡ none
      → get_field "delegation" payload ≡ none
      → encrypt_btp_payload c (some j) pem eo fresh.aes_key fresh.iv ≡ returned x
      → sign_btp_payload p (obj (encrypted_doc payload x)) keys ≡ returned s
      → decrypt_verify p c keys.public_key (encrypted_message payload x s) (some priv_pem)
        ≡ returned (produced (set_field "document" j (encrypted_message payload x s)))
  unfolding decrypt_verify get_field
  decrypt_verify-encrypted payload j pem priv_pem eo x s kp ic rsa aes reads truthy hp hx hs hd he
        hsig =
      let doc = encrypted_doc payload x in
      let msg = encrypted_message payload x s in
      let signed = get_field-set_field_self "signature" (signature_json s) doc in
      let unsigned = get_field-encrypted_doc payload x "signature" hs refl refl refl refl in
      let undelegated = get_field-encrypted_doc payload x "delegation" hd refl refl refl refl in
      let rest : without "delegation" (without "signature" msg) ≡ doc =
        ap (without "delegation") (without-set_field "signature" (signature_json s) doc unsigned)
        ∙ without-absent "delegation" doc undelegated in
      (λ i.
        open_checked p c msg (some priv_pem) (rest i)
          (verify_signature p (obj (rest i)) (signature_of (signed i)) keys.public_key))
      ∙ ap (open_checked p c msg (some priv_pem) doc)
          (verify_signature-sign_btp_payload p (obj doc) keys s kp hsig)
      ∙ (λ i. returned (
          opened_document p c doc (signed i)
            ((get_field-set_field_ne "signature" "delegation" (signature_json s) doc refl
                ∙ undelegated)
              i)
            (decrypted_document p c (get_field "document" doc)
              (decryptable-encrypted_doc payload x priv_pem hp hx i))))
      ∙ ap (λ d. returned (opened_document p c doc (some (signature_json s)) none d))
          (decrypt_btp_payload-encrypt_btp_payload c j pem priv_pem eo fresh.aes_key fresh.iv x ic
            rsa aes reads he)
      ∙ rw truthy refl
