-- ===== src/Server/Signature.antt =====
-- The signature checks of src/server/btpsServer.ts: of an agent's message, of a transporter's, of a
-- delegation and of its attestation. A message is the object that was parsed, not a typed copy.
use btps_sdk.Prelude.{String, Bool, ◌&&◌, not, Option, none, some, ◌==◌, is_some, if◌then◌else◌}
use btps_sdk.Crypto.{Platform, Signature, signature_of, get_fingerprint_from_pem, verify_signature}
use btps_sdk.Dns
use btps_sdk.Dns.{base64_to_pem, is_blank}
use btps_sdk.Effects.{Outcome, returned, thrown, Act, pure, ◌>>=◌}
use btps_sdk.Errors.{
  BtpError, sig_verification, resolve_pubkey, attestation_verification, delegation_invalid,
  delegation_sig_verification,
}
use btps_sdk.Json.{
  Json, obj, Fields, get_field, set_field, without, string_of, text_at, fields_of, is_truthy,
}
use btps_sdk.Text.{concat}
use btps_sdk.Trust.{TrustRecord, Check, passed, failed, compute_trust_id}
use btps_sdk.Trust.Store.{TrustStore}

-- `ProcessedArtifact`
pub data Processed : Type 0 where
  transporter : Fields → Processed
  agent : Fields → (respond_now : Bool) → Processed

abbrev pub lift : {S A : Type 0} → Outcome A → Act S A
lift o s = (s, o)

-- A text that is there and not empty.
abbrev pub non_blank : Option String → Option String
non_blank none = none
non_blank (some s) = if s == "" then none else some s

-- `(document as BTPAuthReqDoc)?.publicKey`, where it is truthy.
abbrev pub document_key : Fields → Option String
document_key artifact = elim (fields_of (get_field "document" artifact)) [
  | none ↦ none
  | some fs ↦ non_blank (string_of (get_field "publicKey" fs))
]

-- `const { signature, ...signedMsg } = artifact`
abbrev pub signed_part : Fields → Json
signed_part artifact = obj (without "signature" artifact)

abbrev pub signature_at : Fields → Signature
signature_at artifact = signature_of (get_field "signature" artifact)

-- The same verdict, with another error where there is one.
abbrev pub with_error : BtpError → String → Check → Check
with_error e cause c = record {
  is_valid = c.is_valid;
  error = if is_some c.error then some (record { error = e; cause = some cause }) else none;
}

module _ (p : Platform) where
  unfoldable pub resolve_key : String → String → Outcome (Option String)
  resolve_key identity selector =
      elim (Dns.resolve_public_key p.resolve_txt p.print identity selector) [
        | thrown e ↦ thrown e
        | returned key ↦ returned (non_blank key)
      ]

  -- A check of a payload under a key that may be missing.
  abbrev pub check_with : Check → Option String → Json → Signature → (Check → Check) → Outcome Check
  check_with no_key none payload s adjust = returned no_key
  check_with no_key (some pem) payload s adjust = elim (verify_signature p payload s pem) [
    | thrown e ↦ thrown e
    | returned c ↦ returned (adjust c)
  ]

  abbrev pub on_key : Outcome (Option String) → (Option String → Outcome Check) → Outcome Check
  on_key (thrown e) f = thrown e
  on_key (returned k) f = f k

  unfoldable pub verify_attestation : Fields → Fields → Outcome Check
  unfolding resolve_key
  verify_attestation delegation attestation =
      let signed_by = text_at "signedBy" attestation in
      on_key (resolve_key signed_by (text_at "selector" attestation)) (λ key.
        check_with
          (failed resolve_pubkey
            (some (concat "Attestor " (concat signed_by " public key not found"))))
          key
          (obj
            (set_field "attestation" (signed_part attestation) (without "attestation" delegation)))
          (signature_at attestation)
          (with_error attestation_verification
            (concat "Attestation signature verification failed of attestor " signed_by)))

  -- The checks of a delegation once its attestation, if any, has passed: the delegator's signature
  -- over the message with the delegation, and the agent's over the message without it.
  unfoldable pub verify_delegated : Fields → Fields → Outcome Check
  unfolding resolve_key
  verify_delegated artifact delegation =
      let signed_by = text_at "signedBy" delegation in
      on_key (resolve_key signed_by (text_at "selector" delegation)) (λ key. elim key [
        | none ↦ returned (
            failed resolve_pubkey
              (some (concat "Delegator " (concat signed_by " public key not found"))))
        | some pem ↦
            elim (verify_signature p
              (obj (set_field "delegation" (signed_part delegation) artifact))
              (signature_at delegation) pem) [
                | thrown e ↦ thrown e
                | returned c ↦
                    if not c.is_valid
                    then returned (
                        failed delegation_sig_verification (
                          some (
                            concat "Delegation signature verification failed of delegator "
                              signed_by)))
                    else check_with passed (some (text_at "agentPubKey" delegation))
                        (signed_part (without "delegation" artifact))
                        (signature_at (without "delegation" artifact))
                        (with_error delegation_sig_verification (
                          concat
                            "Delegated artifact's original artifact signature verification failed of agent "
                            (text_at "agentId" delegation)))
              ]
      ])

  -- An attestation is taken as there when it is an object.
  unfoldable pub verify_delegation : Fields → Fields → Outcome Check
  unfolding verify_attestation verify_delegated
  verify_delegation artifact delegation = elim (fields_of (get_field "attestation" delegation)) [
    | none ↦
        if text_at "signedBy" delegation == text_at "from" artifact
        then returned (
            failed delegation_invalid (
              some
                "Custom managed domain delegation requires attestation. Either provide attestation or directly send without delegation via transporter"))
        else verify_delegated artifact delegation
    | some attestation ↦ elim (verify_attestation delegation attestation) [
      | thrown e ↦ thrown e
      | returned c ↦ if c.is_valid then verify_delegated artifact delegation else returned c
    ]
  ]

  -- The branch of `verifySignature` for a transporter's message.
  unfoldable pub verify_transporter_signature : Fields → Outcome Check
  unfolding verify_delegation resolve_key
  verify_transporter_signature artifact = elim (fields_of (get_field "delegation" artifact)) [
    | some delegation ↦ verify_delegation artifact delegation
    | none ↦ on_key (resolve_key (text_at "from" artifact) (text_at "selector" artifact)) (λ key.
        check_with (failed resolve_pubkey none) key (signed_part artifact) (signature_at artifact)
          (λ c. c))
  ]

  module _ (store : TrustStore) where
    open store use {State, get_by_id}

    -- The key of an agent that is refreshing its session: the one in the document if its
    -- fingerprint is not the stored one, and else the stored one.
    abbrev refreshed_key : TrustRecord → Option String → Outcome (Option String)
    refreshed_key record_found none = returned none
    refreshed_key record_found (some key) = elim (get_fingerprint_from_pem p key "sha256") [
      | thrown e ↦ thrown e
      | returned f ↦ returned (
          some (
            if record_found.public_key_fingerprint == f
            then base64_to_pem record_found.public_key_base64
            else key))
    ]

    abbrev stored_key : Fields → Option TrustRecord → Outcome (Option String)
    stored_key artifact none = returned none
    stored_key artifact (some found) =
        if is_truthy (get_field "document" artifact) && text_at "action" artifact == "auth.refresh"
        then refreshed_key found (document_key artifact)
        else returned (some (base64_to_pem found.public_key_base64))

    unfoldable pub get_agent_public_key : Fields → Act State (Option String)
    unfolding base64_to_pem
    get_agent_public_key artifact =
        if text_at "action" artifact == "auth.request" then pure (document_key artifact) else (do
          found ←
              get_by_id
                (compute_trust_id p.digest (text_at "agentId" artifact) (text_at "to" artifact))
          lift (stored_key artifact found))

    abbrev agent_cause : Fields → String
    agent_cause artifact = concat "Agent " (
        concat (text_at "agentId" artifact) (
          if text_at "action" artifact == "auth.request"
          then " public key not found in auth request document"
          else " not trusted or not found in trust store"))

    unfoldable pub verify_agent_signature : Fields → Act State Check
    unfolding get_agent_public_key
    verify_agent_signature artifact = do
      key ← get_agent_public_key artifact
      lift (
          check_with (failed sig_verification (some (agent_cause artifact))) (non_blank key)
            (signed_part artifact) (signature_at artifact) (λ c. c))

    unfoldable pub verify_message_signature : Processed → Act State Check
    unfolding verify_agent_signature verify_transporter_signature
    verify_message_signature (agent artifact respond_now) = verify_agent_signature artifact
    verify_message_signature (transporter artifact) = lift (verify_transporter_signature artifact)
