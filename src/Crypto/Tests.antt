-- ===== src/Crypto/Tests.antt =====
-- Encryption of src/core/crypto at concrete inputs, with ciphers that only wrap what they are given.
use btps_sdk.Prelude.{
  ℕ, List, [], ◌∷◌, ◌≡◌, refl, arith, eq_iff, false, none, some, ◌==◌, if◌then◌else◌,
}
use btps_sdk.Crypto.{Signature, sign_btp_payload, get_fingerprint_from_pem}
use btps_sdk.Crypto.Documents.{Fresh, decrypt_verify, produced}
use btps_sdk.Crypto.Encryption.{
  Ciphers, EncryptionOptions, Encrypted, encrypt_btp_payload, decrypt_btp_payload,
}
use btps_sdk.Crypto.Exchange.{encrypted_message, decrypt_verify-encrypted}
use btps_sdk.Crypto.UserToken.{size, generate_user_token, IsToken, generate_user_token-IsToken}
use btps_sdk.Effects.{returned, thrown}
use btps_sdk.Errors.{error}
use btps_sdk.Json.{num, str, Fields, field, end, get_field, set_field}
use btps_sdk.Samples.{platform, keys, pem}
use btps_sdk.Text.{trim, trim_start, trim_end, is_space, ends_with}

-- The number 1 is the only value that has a text, and texts are their own ciphertexts.
abbrev pub ciphers : Ciphers
ciphers = record {
  encrypt = λ algorithm key iv text. returned (text, "tag");
  decrypt = λ algorithm key iv tag ciphertext. returned ciphertext;
  public_encrypt = λ pem content. returned content;
  private_decrypt = λ pem content. returned content;
  json_text = λ j. "1";
  json_parse = λ s. if s == "1" then returned (num 1) else thrown (error "Unexpected token");
  is_oaep_error = λ e. false;
  name_of = λ e. "SyntaxError";
}

abbrev pub fresh : Fresh
fresh = record { id = "id"; now = "now"; aes_key = "key"; iv = "iv" }

abbrev gcm : EncryptionOptions
gcm = record { algorithm = "aes-256-gcm"; mode = "standardEncrypt" }

abbrev encrypted : Encrypted
encrypted = record {
  content = "1";
  encryption = record {
    algorithm = "aes-256-gcm";
    encrypted_key = "key";
    iv = "iv";
    auth_tag = "tag";
    type = "standardEncrypt";
  };
}

-- A document that is a text comes back as what its own text means.
decrypt_text :
    decrypt_btp_payload ciphers (some (str encrypted.content)) encrypted.encryption "private"
    ≡ record { content = some (num 1); error = none }
unfolding decrypt_btp_payload encrypt_btp_payload
decrypt_text = refl

encrypt_text : encrypt_btp_payload ciphers (some (str "1")) pem gcm "key" "iv" ≡ returned encrypted
unfolding encrypt_btp_payload
encrypt_text = refl

abbrev payload : Fields
payload = field "to" (str "b$y.com") (field "selector" (str "btps1") (field "document" (num 1) end))

abbrev signature : Signature
signature = record { algorithm_hash = "sha256"; value = "{}"; fingerprint = pem }

decrypt_verify-encrypted_example :
    decrypt_verify platform ciphers pem
      (encrypted_message platform ciphers fresh keys payload encrypted signature)
      (some "private")
    ≡ returned (
        produced (
          set_field "document"
            (num 1)
            (encrypted_message platform ciphers fresh keys payload encrypted signature)))
unfolding encrypt_btp_payload sign_btp_payload get_fingerprint_from_pem trim trim_start trim_end
    is_space ends_with get_field
decrypt_verify-encrypted_example =
    decrypt_verify-encrypted platform ciphers fresh keys payload (num 1) pem "private" gcm encrypted
      signature (λ message value signed. ground (arith, eq_iff value message))
      (λ a k i t x g e. ground arith) (λ a b e. ground arith) refl refl refl refl refl refl refl
      refl refl

-- A digest of 24 bytes.
abbrev bytes : List ℕ
bytes =
    0 ∷ 1 ∷ 2 ∷ 3 ∷ 4 ∷ 5 ∷ 6 ∷ 7 ∷ 8 ∷ 9 ∷ 10 ∷ 11 ∷ 12 ∷ 13 ∷ 14 ∷ 15 ∷ 16 ∷ 17 ∷ 18 ∷ 19 ∷ 20
    ∷ 21 ∷ 255 ∷ 254 ∷ []

default_token :
    generate_user_token (λ s. bytes) (λ s. s) "entropy" "a$b.com" none none
    ≡ returned "ABCDEFGHJKLM"
unfolding generate_user_token
default_token = refl

generate_user_token-IsToken_example :
    IsToken "ABC" 8
      (generate_user_token (λ s. bytes) (λ s. s) "entropy" "a$b.com" (some 8) (some "ABC"))
unfolding size
generate_user_token-IsToken_example =
    generate_user_token-IsToken (λ s. bytes) (λ s. s) "entropy" "a$b.com" "ABC" 8 (λ s. omega arith)
      (omega arith) (λ s h. refl)
