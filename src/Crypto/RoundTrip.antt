-- ===== src/Crypto/RoundTrip.antt =====
-- What is encrypted by src/core/crypto/index.ts and signed by src/core/crypto/signEncrypt.ts, read again.
use btps_sdk.Prelude.{◌≡◌, refl, subst, String, none, some, arith}
use btps_sdk.Crypto.Encryption.{
  Ciphers, EncryptionOptions, Encrypted, plain_text, encrypt_btp_payload, decrypt_btp_payload,
  ◌>>=◌,
}
use btps_sdk.Effects.{Outcome, returned, thrown}
use btps_sdk.Json.{Json, str}

module _ (c : Ciphers) where
  -- Decryption undoes encryption, and RSA with the private key undoes it with the public one.
  abbrev pub IsCipher : Type 0
  IsCipher =
      (algorithm key iv text ciphertext tag : String)
      → c.encrypt algorithm key iv text ≡ returned (ciphertext, tag)
      → c.decrypt algorithm key iv tag ciphertext ≡ returned text

  abbrev pub IsRsaPair : String → String → Type 0
  IsRsaPair pub_pem priv_pem =
      (content encrypted : String)
      → c.public_encrypt pub_pem content ≡ returned encrypted
      → c.private_decrypt priv_pem encrypted ≡ returned content

  encrypted_parts :
      (e : Outcome (String × String)) (k : Outcome String) (o : EncryptionOptions) (iv : String)
      (x : Encrypted)
      → (e >>= (λ sealed. k >>= (λ encrypted_key. returned (record {
        content = sealed.0;
        encryption = record {
          algorithm = o.algorithm;
          encrypted_key = encrypted_key;
          iv = iv;
          auth_tag = sealed.1;
          type = o.mode;
        };
      }))))
        ≡ returned x
      → (e ≡ returned (x.content, x.encryption.auth_tag))
        × (k ≡ returned x.encryption.encrypted_key)
        × (x.encryption.algorithm ≡ o.algorithm)
        × (x.encryption.iv ≡ iv)
  encrypted_parts (thrown e) k o iv x h = absurd (cc h)
  encrypted_parts (returned s) (thrown e) o iv x h = absurd (cc h)
  encrypted_parts (returned s) (returned k) o iv x h = ground arith

  -- A payload that is encrypted with AES-256-GCM for a public key is decrypted with its private key to
  -- the same value, if the value is what the parser reads in the text that stands for it.
  pub decrypt_btp_payload-encrypt_btp_payload :
      (payload : Json) (pub_pem priv_pem : String) (o : EncryptionOptions) (key iv : String)
      (x : Encrypted)
      → IsCipher
      → IsRsaPair pub_pem priv_pem
      → o.algorithm ≡ "aes-256-gcm"
      → c.json_parse (plain_text c (some payload)) ≡ returned payload
      → encrypt_btp_payload c (some payload) pub_pem o key iv ≡ returned x
      → decrypt_btp_payload c (some (str x.content)) x.encryption priv_pem
        ≡ record { content = some payload; error = none }
  unfolding encrypt_btp_payload decrypt_btp_payload
  decrypt_btp_payload-encrypt_btp_payload payload pub_pem priv_pem o key iv x cipher pair aes reads
        h =
      let (sealed, wrapped, alg, vector) = encrypted_parts _ _ o iv x h in
      rw (alg, vector, aes, pair key x.encryption.encrypted_key wrapped)
        (rw
          (cipher "aes-256-gcm" key iv (plain_text c (some payload)) x.content x.encryption.auth_tag
            (subst
              (λ a.
                c.encrypt a key iv (plain_text c (some payload))
                ≡ returned (x.content, x.encryption.auth_tag))
              aes sealed))
          (rw reads refl))
