-- ===== src/Client/Payloads.antt =====
-- What src/client/btpsAgent.ts and src/client/btpsTransporter.ts sign.
use btps_sdk.Prelude.{
  ◌≡◌, refl, sym, ◌∙◌, String, Bool, true, Option, none, some, Option-cases, inl, inr, subst,
}
use btps_sdk.Client.{Options}
use btps_sdk.Client.{Opening, send}
use btps_sdk.Client.Agent.{
  Command, Draft, drafted, stopped, put_document, artifact_fields, on_signed, opening_of,
  sign_draft, sign_transport, draft_transport, command_options, transporter_action, agent_artifact,
  command_opening,
}
use btps_sdk.Client.Transporter.{
  own_keys, has_document, sign_encrypt_artifact, sign_encrypt_payload,
}
use btps_sdk.Crypto.{Platform, PemKeys, Signature, signature_json}
use btps_sdk.Crypto.Documents.{
  CryptoResponse, Fresh, Sealing, sealed, failed, seal, sign_encrypt, signed_outcome, sign_sealed,
  signed_response, doc_to_sign, given, CryptoOptions, options_encryption,
}
use btps_sdk.Crypto.Encryption.{Ciphers, EncryptionOptions}
use btps_sdk.Dns.{Address, resolve_public_key}
use btps_sdk.Effects.{Outcome, returned, thrown}
use btps_sdk.Errors.{Thrown}
use btps_sdk.Identity.{parse_identity}
use btps_sdk.Json.{
  Json, null, obj, Fields, end, get_field, set_field, string_of, without, is_truthy,
}
use btps_sdk.Server.Delegation.{Outcome-cases}
use btps_sdk.Client.Steps.{if_cases}
use btps_sdk.Json.Laws.{get_field-set_field_self, get_field-set_field_ne}

module _ (p : Platform) (c : Ciphers) (o : Options) where
  -- What is sent, if anything is, is the text of a message with this document and a signature, which is not
  -- encrypted.
  abbrev pub SendsPlain : Json → Opening → Type 0
  SendsPlain j (send text) =
      (msg : Fields) × (text ≡ p.stringify (obj msg))
      × (get_field "document" msg ≡ some j)
      × (get_field "encryption" msg ≡ some null)
      × ((s : Signature) × (get_field "signature" msg ≡ some (signature_json s)))
  SendsPlain j _ = Unit

  -- A draft names no selector of a key.
  abbrev IsUnselected : Json → Draft → Type 0
  IsUnselected j (drafted fs) = get_field "selector" fs ≡ none
  IsUnselected j (stopped x) = SendsPlain j x

  response-IsUnselected :
      (j : Json) (e : Option Thrown) (payload : Option Fields) (base : Fields)
      → get_field "selector" base ≡ none
      → IsUnselected j (
          on_signed
            (returned (record { error = e; payload = payload }))
            (λ fs. drafted (set_field "document" (obj fs) base)))
  response-IsUnselected j (some e) payload base h = tt
  response-IsUnselected j none none base h =
      get_field-set_field_ne "document" "selector" (obj end) base refl ∙ h
  response-IsUnselected j none (some fs) base h =
      get_field-set_field_ne "document" "selector" (obj fs) base refl ∙ h

  on_signed-IsUnselected :
      (j : Json) (x : Outcome CryptoResponse) (base : Fields)
      → get_field "selector" base ≡ none
      → IsUnselected j (on_signed x (λ fs. drafted (set_field "document" (obj fs) base)))
  on_signed-IsUnselected j (thrown e) base h = tt
  on_signed-IsUnselected j (returned r) base h = response-IsUnselected j r.error r.payload base h

  seal-unselected :
      (fresh : Fresh) (to : Option String) (document : Option Json) (eo : Option EncryptionOptions)
      → seal p c fresh to none document eo
        ≡ returned (sealed (record { document = document; encryption = none }))
  unfolding seal
  seal-unselected fresh none document eo = refl
  seal-unselected fresh (some to) document eo = refl

  signed_response-SendsPlain :
      (j : Json) (fresh : Fresh) (rest : Fields) (s : Outcome Signature)
      → SendsPlain j (
          opening_of p.stringify (
            on_signed
              (returned (
                signed_response p c
                  (doc_to_sign p c fresh rest (record { document = some j; encryption = none }))
                  s))
              drafted))
  signed_response-SendsPlain j fresh rest (thrown e) = tt
  signed_response-SendsPlain j fresh rest (returned s) = (
    _,
    refl,
    get_field-set_field_ne "signature" "document" (signature_json s) _ refl
        ∙ get_field-set_field_ne "encryption" "document" null _ refl
        ∙ get_field-set_field_self "document" j _,
    get_field-set_field_ne "signature" "encryption" (signature_json s) _ refl
        ∙ get_field-set_field_self "encryption" null _,
    (s, get_field-set_field_self "signature" (signature_json s) _),
  )

  sign_encrypt_artifact-SendsPlain :
      (j : Json) (fresh : Fresh) (fs : Fields) (options : Option CryptoOptions)
      → get_field "selector" fs ≡ none
      → get_field "document" fs ≡ some j
      → SendsPlain j (
          opening_of p.stringify (on_signed (sign_encrypt_artifact p c o fresh fs options) drafted))
  unfolding sign_encrypt_artifact sign_encrypt
  sign_encrypt_artifact-SendsPlain j fresh fs options h d =
      elim (Option-cases (parse_identity o.identity)) [
        | inl e ↦ rw (e, sign_encrypt_artifact) tt
        | inr (i, e) ↦
            rw (e, sign_encrypt_artifact)
              (subst
                (λ x. SendsPlain j (
                  opening_of p.stringify (
                    on_signed (signed_outcome p c fresh (own_keys p c o) (without "document" fs) x)
                      drafted)))
                (sym (
                  (λ k.
                    seal p c fresh (given (string_of (get_field "to" fs))) (given (string_of (h k)))
                      (d k) (options_encryption options))
                  ∙ seal-unselected fresh _ (some j) (options_encryption options)))
                (signed_response-SendsPlain j fresh (without "document" fs) _))
      ]

  module _ (agent_id : String) where
    put_document-SendsPlain :
        (fresh : Fresh) (m : Command) (draft : Draft) (j : Json)
        → m.document ≡ some j
        → is_truthy (some j) ≡ true
        → IsUnselected j draft
        → SendsPlain j
            (opening_of p.stringify (sign_draft p c o agent_id fresh m (put_document m draft)))
    put_document-SendsPlain fresh m (stopped x) j d t h = h
    put_document-SendsPlain fresh m (drafted base) j d t h =
        rw (d, t)
          (sign_encrypt_artifact-SendsPlain j fresh (set_field "document" j base)
            (command_options m) (get_field-set_field_ne "document" "selector" j base refl ∙ h)
            (get_field-set_field_self "document" j base))

    sign_transport-IsUnselected :
        (fresh : Fresh) (m : Command) (type : String) (j : Json) (a : Outcome (Option Address))
        (base : Fields)
        → get_field "selector" base ≡ none
        → IsUnselected j (sign_transport p c o agent_id fresh m type j a base)
    sign_transport-IsUnselected fresh m type j (thrown e) base h = tt
    sign_transport-IsUnselected fresh m type j (returned none) base h = tt
    sign_transport-IsUnselected fresh m type j (returned (some a)) base h =
        on_signed-IsUnselected j _ base h

    draft_transport-IsUnselected :
        (fresh : Fresh) (m : Command) (type : Option String) (j : Json) (base : Fields)
        → m.document ≡ some j
        → is_truthy (some j) ≡ true
        → get_field "selector" base ≡ none
        → IsUnselected j (draft_transport p c o agent_id fresh m type base)
    draft_transport-IsUnselected fresh m none j base d t h = h
    draft_transport-IsUnselected fresh m (some type) j base d t h =
        rw (d, t) (sign_transport-IsUnselected fresh m type j _ base h)

    -- Where a command has a truthy document, what it sends, if it sends anything, is the text of a
    -- message with a signature whose document is the command's own as the caller gave it, and which
    -- is not encrypted: for every action (also those for which a message of a transporter is made of
    -- the document first), whatever encryption the command's options ask for, and whatever the
    -- receiver publishes.
    pub command_opening-SendsPlain :
        (fresh fresh' : Fresh) (m : Command) (j : Json)
        → m.document ≡ some j
        → is_truthy (some j) ≡ true
        → SendsPlain j (command_opening p c o agent_id fresh fresh' m)
    unfolding command_opening agent_artifact get_field
    command_opening-SendsPlain fresh fresh' m j d t = put_document-SendsPlain fresh' m _ j d t (
        draft_transport-IsUnselected fresh m (transporter_action m.action_type) j
          (artifact_fields m.action_type agent_id m.to) d t refl)

  -- Not encrypted, or not sent at all.
  abbrev IsPlain : Outcome Sealing → Type 0
  IsPlain (returned (sealed s)) = s.encryption ≡ none
  IsPlain _ = Unit

  -- The message, if there is one, has no encryption.
  abbrev pub IsClear : Outcome CryptoResponse → Type 0
  IsClear (thrown e) = Unit
  IsClear (returned r) = elim r.payload [
    | none ↦ Unit
    | some fs ↦ get_field "encryption" fs ≡ some null
  ]

  seal-IsPlain :
      (fresh : Fresh) (to selector : Option String) (document : Option Json)
      → IsPlain (seal p c fresh to selector document none)
  unfolding seal
  seal-IsPlain fresh none selector document = refl
  seal-IsPlain fresh (some to) none document = refl
  seal-IsPlain fresh (some to) (some selector) document = elim (Option-cases (parse_identity to)) [
    | inl e ↦ rw (e, seal) tt
    | inr (i, e) ↦ elim (Outcome-cases (resolve_public_key p.resolve_txt p.print to selector)) [
      | inr (t, f) ↦ rw (e, f, seal) tt
      | inl (key, f) ↦ elim (Option-cases (given key)) [
        | inl g ↦ rw (e, seal) (rw f (rw g tt))
        | inr (pem, g) ↦ rw (e, seal) (rw f (rw g refl))
      ]
    ]
  ]

  signed_response-IsClear :
      (fresh : Fresh) (rest : Fields) (document : Option Json) (s : Outcome Signature)
      → IsClear (
          returned (
            signed_response p c
              (doc_to_sign p c fresh rest (record { document = document; encryption = none }))
              s))
  signed_response-IsClear fresh rest document (thrown e) = tt
  signed_response-IsClear fresh rest document (returned s) =
      get_field-set_field_ne "signature" "encryption" (signature_json s) _ refl
      ∙ get_field-set_field_self "encryption" null _

  signed_outcome-IsClear :
      (fresh : Fresh) (keys : PemKeys) (rest : Fields) (o : Outcome Sealing)
      → IsPlain o
      → IsClear (signed_outcome p c fresh keys rest o)
  signed_outcome-IsClear fresh keys rest (thrown e) h = tt
  signed_outcome-IsClear fresh keys rest (returned (failed e)) h = tt
  signed_outcome-IsClear fresh keys rest (returned (sealed s)) h =
      subst
        (λ x. IsClear (
          returned (
            sign_sealed p c fresh keys rest
              (sealed (record { document = s.document; encryption = x })))))
        (sym h) (signed_response-IsClear fresh rest s.document _)

  sign_encrypt_artifact-IsClear :
      (fresh : Fresh) (artifact : Fields)
      → IsClear (sign_encrypt_artifact p c o fresh artifact none)
  unfolding sign_encrypt_artifact sign_encrypt
  sign_encrypt_artifact-IsClear fresh artifact = elim (Option-cases (parse_identity o.identity)) [
    | inl e ↦ rw (e, sign_encrypt_artifact) tt
    | inr (i, e) ↦
        rw (e, sign_encrypt_artifact)
          (signed_outcome-IsClear fresh (own_keys p c o) (without "document" artifact) _
            (seal-IsPlain fresh _ _ _))
  ]

  -- Whatever payload the transporter is given to sign and encrypt, and whatever its receiver publishes,
  -- the message that it makes, if it makes one, is not encrypted.
  pub sign_encrypt_payload-IsClear :
      (is_document : Json → Bool) (fresh : Fresh) (payload : Fields)
      → IsClear (sign_encrypt_payload p c o is_document fresh payload)
  unfolding sign_encrypt_payload
  sign_encrypt_payload-IsClear is_document fresh payload =
      if_cases IsClear (has_document p c o is_document (get_field "document" payload)) _ _
        (λ _. sign_encrypt_artifact-IsClear fresh _) (λ _. tt)
