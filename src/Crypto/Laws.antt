-- ===== src/Crypto/Laws.antt =====
-- What a verified signature means, and that what is signed is verified.
use btps_sdk.Prelude.{◌≡◌, ◌↔◌, String, Bool, true, eq_iff, eq_refl, arith, if◌then◌else◌, none}
use btps_sdk.Effects.{Outcome, returned, thrown}
use btps_sdk.Json.{Json}
use btps_sdk.Trust.{passed, failed}
use btps_sdk.Errors.{sig_mismatch}
use btps_sdk.Crypto.{
  Platform, PemKeys, Signature, get_fingerprint_from_pem, payload_text, sign_btp_payload,
  verify_signature, same_fingerprint, verdict, ◌>>=◌,
}

signed_parts :
    (v f : Outcome String) (s : Signature)
    → (v >>= (λ value. f >>= (λ fingerprint.
        returned (record { algorithm_hash = "sha256"; value = value; fingerprint = fingerprint }))))
      ≡ returned s
    → (v ≡ returned s.value) × (f ≡ returned s.fingerprint) × (s.algorithm_hash ≡ "sha256")
signed_parts (thrown e) f s h = cc
signed_parts (returned v) (thrown e) s h = cc
signed_parts (returned v) (returned f) s h = ground arith

module _ (p : Platform) where
  -- What the platform is asked for in a verification.
  pub record IsAuthentic (payload : Json) (s : Signature) (pem : String) : Type 0 where
    pub same_key : get_fingerprint_from_pem p pem s.algorithm_hash ≡ returned s.fingerprint
    pub checked : p.verify s.algorithm_hash (payload_text p payload) pem s.value ≡ returned true

  accepted_of :
      (f : Outcome String) (v : Outcome Bool) (g : String)
      → (if same_fingerprint p f g
          then v >>= (λ b. returned (verdict p b))
          else returned (failed sig_mismatch none))
        ≡ returned passed
      → (f ≡ returned g) × (v ≡ returned true)
  accepted_of (thrown e) v g h = cc
  accepted_of (returned f) (thrown e) g h = ground arith
  accepted_of (returned f) (returned b) g h = ground (arith, eq_iff f g)

  -- A verification passes exactly when the key's fingerprint is the one that the signature names
  -- and the platform verifies the signature over the payload's text with that key.
  pub verify_signature_iff :
      (payload : Json) (s : Signature) (pem : String)
      → (verify_signature p payload s pem ≡ returned passed) ↔ IsAuthentic payload s pem
  unfolding verify_signature
  verify_signature_iff payload s pem = (
    λ h. let (f, v) = accepted_of _ _ s.fingerprint h in record { same_key = f; checked = v },
    λ a. rw (a.same_key, eq_refl, a.checked),
  )

  -- The platform verifies with the public key what was signed with the private one.
  abbrev pub IsKeyPair : PemKeys → Type 0
  IsKeyPair keys =
      (message value : String)
      → p.sign "sha256" message keys.private_key ≡ returned value
      → p.verify "sha256" message keys.public_key value ≡ returned true

  -- What is signed with a key pair is verified with its public key.
  pub verify_signature-sign_btp_payload :
      (payload : Json) (keys : PemKeys) (s : Signature)
      → IsKeyPair keys
      → sign_btp_payload p payload keys ≡ returned s
      → verify_signature p payload s keys.public_key ≡ returned passed
  unfolding sign_btp_payload
  verify_signature-sign_btp_payload payload keys s pair h =
      let (signed, named, sha) = signed_parts _ _ s h in
      (verify_signature_iff payload s keys.public_key).1
        (record { same_key = rw sha named; checked = rw sha (pair _ s.value signed) })
