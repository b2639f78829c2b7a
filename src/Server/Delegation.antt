-- ===== src/Server/Delegation.antt =====
-- What `verifyDelegation` and `verifyAttestation` of src/server/btpsServer.ts accept.
use btps_sdk.Prelude.{
  ap, ◌≡◌, ◌≢◌, ◌⊎◌, refl, String, Bool, true, false, none, some, inl, inr, Bool-cases,
  Option-cases, arith, eq_iff, ◌==◌,
}
use btps_sdk.Crypto.{Platform, verify_signature}
use btps_sdk.Effects.{Outcome, returned, thrown}
use btps_sdk.Errors.{Thrown, BtpError}
use btps_sdk.Json.{Json, obj, Fields, set_field, get_field, without, text_at, fields_of}
use btps_sdk.Server.Signature.{
  resolve_key, check_with, on_key, with_error, signed_part, signature_at, verify_attestation,
  verify_delegated, verify_delegation,
}
use btps_sdk.Trust.{Check, passed}

pub Outcome-cases :
    {A : Type 0} (o : Outcome A) → ((a : A) × (o ≡ returned a)) ⊎ ((e : Thrown) × (o ≡ thrown e))
Outcome-cases (returned a) = inl (a, refl)
Outcome-cases (thrown e) = inr (e, refl)

-- Whether a check returned that its object is valid.
abbrev verdict_of : Outcome Check → Bool
verdict_of (returned c) = c.is_valid
verdict_of (thrown e) = false

module _ (p : Platform) where
  -- A payload's signature was checked with a key, and the verdict is that it is valid.
  pub record IsVerified (pem : String) (payload : Json) (carrier : Fields) : Type 0 where
    pub verdict : Check
    pub checked : verify_signature p payload (signature_at carrier) pem ≡ returned verdict
    pub valid : verdict.is_valid ≡ true

  -- The delegator's key is the one that the name service gives for it, and signed the message with
  -- the delegation; the agent's key, that the delegation names, signed the message without it.
  pub record IsDelegated (artifact delegation : Fields) : Type 0 where
    pub delegator_pem : String
    pub found :
        resolve_key p (text_at "signedBy" delegation) (text_at "selector" delegation)
        ≡ returned (some delegator_pem)
    pub delegator :
        IsVerified delegator_pem
          (obj (set_field "delegation" (signed_part delegation) artifact))
          delegation
    pub delegate :
        IsVerified
          (text_at "agentPubKey" delegation)
          (signed_part (without "delegation" artifact))
          (without "delegation" artifact)

  check_with-IsVerified :
      (no_key : Check) (pem : String) (payload : Json) (carrier : Fields) (e : BtpError)
      (cause : String) (c : Check)
      → check_with p no_key (some pem) payload (signature_at carrier) (with_error e cause)
        ≡ returned c
      → c.is_valid ≡ true
      → IsVerified pem payload carrier
  check_with-IsVerified no_key pem payload carrier e cause c =
      elim (Outcome-cases (verify_signature p payload (signature_at carrier) pem)) [
        | inl (v, s) ↦
            rw (s, check_with)
              (λ h ok. record { verdict = v; checked = s; valid = cc (ap verdict_of h, ok) })
        | inr (t, s) ↦ rw (s, check_with) (λ h ok. absurd (cc h))
      ]

  verify_delegated-IsDelegated :
      (artifact delegation : Fields) (c : Check)
      → verify_delegated p artifact delegation ≡ returned c
      → c.is_valid ≡ true
      → IsDelegated artifact delegation
  unfolding verify_delegated
  verify_delegated-IsDelegated artifact delegation c =
      elim (Outcome-cases
        (resolve_key p (text_at "signedBy" delegation) (text_at "selector" delegation))) [
          | inr (t, s) ↦ rw (s, verify_delegated) (λ h ok. absurd (cc h))
          | inl (none, s) ↦ rw (s, verify_delegated) (λ h ok. absurd (cc (ap verdict_of h, ok)))
          | inl (some pem, s) ↦
              rw (s, verify_delegated)
                (elim (Outcome-cases (
                  verify_signature p
                    (obj (set_field "delegation" (signed_part delegation) artifact))
                    (signature_at delegation) pem)) [
                      | inr (t, e) ↦ rw (e, on_key) (λ h ok. absurd (cc h))
                      | inl (v, e) ↦ elim (Bool-cases v.is_valid) [
                        | inr bad ↦ rw (e, on_key, bad) (λ h ok. absurd (cc (ap verdict_of h, ok)))
                        | inl good ↦
                            rw (e, on_key, good)
                              (λ h ok. record {
                                delegator_pem = pem;
                                found = s;
                                delegator = record { verdict = v; checked = e; valid = good };
                                delegate = check_with-IsVerified passed _ _ _ _ _ c h ok;
                              })
                      ]
                    ])
        ]

  -- The attestor's key is the one that the name service gives for it, and signed the delegation
  -- with the attestation, less its signature.
  pub record IsAttested (delegation attestation : Fields) : Type 0 where
    pub attestor_pem : String
    pub found :
        resolve_key p (text_at "signedBy" attestation) (text_at "selector" attestation)
        ≡ returned (some attestor_pem)
    pub attestor :
        IsVerified attestor_pem
          (obj
            (set_field "attestation" (signed_part attestation) (without "attestation" delegation)))
          attestation

  verify_attestation-IsAttested :
      (delegation attestation : Fields) (c : Check)
      → verify_attestation p delegation attestation ≡ returned c
      → c.is_valid ≡ true
      → IsAttested delegation attestation
  unfolding verify_attestation
  verify_attestation-IsAttested delegation attestation c =
      elim (Outcome-cases
        (resolve_key p (text_at "signedBy" attestation) (text_at "selector" attestation))) [
          | inr (t, s) ↦ rw (s, verify_attestation) (λ h ok. absurd (cc h))
          | inl (none, s) ↦ rw (s, verify_attestation) (λ h ok. absurd (cc (ap verdict_of h, ok)))
          | inl (some pem, s) ↦
              rw (s, verify_attestation)
                (λ h ok. record {
                  attestor_pem = pem;
                  found = s;
                  attestor = check_with-IsVerified passed _ _ _ _ _ c h ok;
                })
        ]

  -- Who stands behind a delegation: a delegator other than the sender, or an attestor.
  abbrev pub IsBacked : Fields → Fields → Type 0
  IsBacked artifact delegation =
      ((fields_of (get_field "attestation" delegation) ≡ none)
        × (text_at "signedBy" delegation ≢ text_at "from" artifact))
      ⊎ ((attestation : Fields) × (fields_of (get_field "attestation" delegation)
            ≡ some attestation)
          × IsAttested delegation attestation)

  -- A delegation that is verified as valid: the name service gives the delegator's key, with which
  -- the signature over the message with the delegation is valid; the signature over the message
  -- without it is valid with the agent's key that the delegation names; and there is no attestation
  -- and the delegator is not the sender, or there is one, whose signature over the delegation is
  -- valid with the key that the name service gives for the attestor.
  pub verify_delegation-IsDelegated :
      (artifact delegation : Fields) (c : Check)
      → verify_delegation p artifact delegation ≡ returned c
      → c.is_valid ≡ true
      → IsDelegated artifact delegation × IsBacked artifact delegation
  unfolding verify_delegation
  verify_delegation-IsDelegated artifact delegation c =
      elim (Option-cases (fields_of (get_field "attestation" delegation))) [
        | inl alone ↦ elim (Bool-cases (text_at "signedBy" delegation == text_at "from" artifact)) [
          | inl same ↦
              rw (alone, verify_delegation, same) (λ h ok. absurd (cc (ap verdict_of h, ok)))
          | inr other ↦
              rw (alone, verify_delegation, other)
                (λ h ok. (
                  verify_delegated-IsDelegated artifact delegation c h ok,
                  inl (
                    refl,
                    λ e.
                        ground
                          (arith, eq_iff (text_at "signedBy" delegation) (text_at "from" artifact)),
                  ),
                ))
        ]
        | inr (a, attested) ↦ elim (Outcome-cases (verify_attestation p delegation a)) [
          | inr (t, e) ↦ rw (attested, verify_delegation, e) (λ h ok. absurd (cc h))
          | inl (v, e) ↦ elim (Bool-cases v.is_valid) [
            | inr bad ↦
                rw (attested, verify_delegation, e, bad) (λ h ok. absurd (cc (ap verdict_of h, ok)))
            | inl good ↦
                rw (attested, verify_delegation, e, good)
                  (λ h ok. (
                    verify_delegated-IsDelegated artifact delegation c h ok,
                    inr (a, refl, verify_attestation-IsAttested delegation a v e good),
                  ))
          ]
        ]
      ]
