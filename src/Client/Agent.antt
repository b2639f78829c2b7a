-- ===== src/Client/Agent.antt =====
-- src/client/btpsAgent.ts: the commands of an agent. The schema of a command is a parameter, as are the
-- random and clock values of the two signatures that a command may make, which are the same at each
-- of its attempts.
use btps_sdk.Prelude.{
  String, Bool, true, false, ◌&&◌, ◌||◌, not, Option, none, some, List, [], ◌∷◌, ◌==◌,
  if◌then◌else◌,
}
use btps_sdk.Client.{
  Options, Client, Call, Opening, send, settle, reject, ClientResponse, build_client_error_response,
  Network,
}
use btps_sdk.Client.Connection.{connect}
use btps_sdk.Client.Transporter.{sign_encrypt_artifact, decrypt_verify_artifact}
use btps_sdk.Crypto.{Platform}
use btps_sdk.Crypto.Documents.{CryptoOptions, CryptoResponse, Fresh, given, present_or}
use btps_sdk.Crypto.Encryption.{Ciphers}
use btps_sdk.Dns.{Address, get_host_and_selector, protocol_version, resolve_public_key}
use btps_sdk.Effects.{Outcome, returned, thrown}
use btps_sdk.Errors.{
  BtpError, validation_error, selector_not_found, resolve_pubkey, transform_to_exception,
}
use btps_sdk.Json.{
  Json, null, str, obj, Fields, end, field, get_field, set_field, string_of, is_truthy,
}
use btps_sdk.Text.{concat}

-- What a command is made of.
pub record Command : Type 0 where
  pub action_type : String
  pub to : String
  pub document : Option Json
  pub options : Option CryptoOptions

-- `mappedTransporterAction`
unfoldable pub transporter_action : String → Option String
transporter_action a =
    if a == "trust.request"
    then some "TRUST_REQ"
    else if a == "trust.respond" || a == "trust.update" || a == "trust.delete"
    then some "TRUST_RES"
    else if a == "artifact.send"
    then some "BTPS_DOC"
    else none

-- `AGENT_ACTIONS_REQUIRING_DOCUMENT`
abbrev pub actions_requiring_document : List String
actions_requiring_document =
    "trust.request" ∷ "trust.respond" ∷ "trust.update" ∷ "trust.delete" ∷ "artifact.send"
    ∷ "auth.request" ∷ "auth.refresh" ∷ "inbox.seen" ∷ "inbox.delete" ∷ "sentbox.delete"
    ∷ "outbox.cancel" ∷ "draft.create" ∷ "draft.update" ∷ "draft.delete" ∷ "trash.delete" ∷ []

abbrev includes : String → List String → Bool
includes s [] = false
includes s (t ∷ ts) = t == s || includes s ts

abbrev pub failure : BtpError → String → ClientResponse
failure e cause = build_client_error_response (record { error = e; cause = some cause })

abbrev document_missing : Command → ClientResponse
document_missing m = failure validation_error (concat "Document is required for " m.action_type)

-- What a listener comes to before it sends: the artifact so far, or the end of the call.
pub data Draft : Type 0 where
  drafted : Fields → Draft
  stopped : Opening → Draft

abbrev pub artifact_fields : (action agent_id to : String) → Fields
artifact_fields action agent_id to =
    field "action" (str action) (field "agentId" (str agent_id) (field "to" (str to) end))

-- A result of the signing: its error, or what is done with its payload.
abbrev pub on_signed : Outcome CryptoResponse → (Fields → Draft) → Draft
on_signed (thrown e) f = stopped (reject e)
on_signed (returned r) f = elim r.error [
  | some e ↦ stopped (settle (build_client_error_response (transform_to_exception e)))
  | none ↦ elim r.payload [ none ↦ f end | some fs ↦ f fs ]
]

-- The document of the command takes the place of what was there.
abbrev pub put_document : Command → Draft → Draft
put_document m (stopped x) = stopped x
put_document m (drafted fs) = elim m.document [
  | none ↦
      if includes m.action_type actions_requiring_document
      then stopped (settle (document_missing m))
      else drafted fs
  | some j ↦
      if is_truthy (some j)
      then drafted (set_field "document" j fs)
      else if includes m.action_type actions_requiring_document
      then stopped (settle (document_missing m))
      else drafted fs
]

abbrev pub opening_of : (Json → String) → Draft → Opening
opening_of stringify (stopped x) = x
opening_of stringify (drafted fs) = send (stringify (obj fs))

-- The options of the last signature: an authentication request is not encrypted.
abbrev pub command_options : Command → Option CryptoOptions
command_options m =
    if m.action_type == "auth.request"
    then elim m.options [ none ↦ none | some o ↦ some (record { encryption = none }) ]
    else m.options

module _ (p : Platform) (c : Ciphers) (o : Options) (agent_id : String) where
  abbrev transport_fields : Command → String → Json → String → Fields
  transport_fields m type document selector = field "version" (str protocol_version) (
      field "type" (str type) (
        field "document" document (
          field "from" (str o.identity)
            (field "to" (str m.to) (field "selector" (str selector) end)))))

  -- `signEncryptTransportArtifact`, after the receiver's selector was looked up.
  abbrev pub sign_transport :
      Fresh → Command → String → Json → Outcome (Option Address) → Fields → Draft
  sign_transport fresh m type document (thrown e) base = stopped (reject e)
  sign_transport fresh m type document (returned none) base =
      stopped
        (settle (failure selector_not_found (concat "No valid selector found for identity: " m.to)))
  sign_transport fresh m type document (returned (some a)) base =
      on_signed
        (sign_encrypt_artifact p c o fresh (transport_fields m type document a.selector) m.options)
        (λ payload. drafted (set_field "document" (obj payload) base))

  abbrev pub draft_transport : Fresh → Command → Option String → Fields → Draft
  draft_transport fresh m none base = drafted base
  draft_transport fresh m (some type) base = elim m.document [
    | none ↦ stopped (settle (document_missing m))
    | some j ↦
        if is_truthy (some j)
        then sign_transport fresh m type j (get_host_and_selector p.resolve_txt p.print m.to) base
        else stopped (settle (document_missing m))
  ]

  -- The artifact that a command signs and sends.
  unfoldable pub agent_artifact : Fresh → Command → Draft
  unfolding transporter_action sign_encrypt_artifact
  agent_artifact fresh m = put_document m (
      draft_transport fresh m (transporter_action m.action_type)
        (artifact_fields m.action_type agent_id m.to))

  abbrev pub sign_draft : Fresh → Command → Draft → Draft
  sign_draft fresh m (stopped x) = stopped x
  sign_draft fresh m (drafted fs) =
      on_signed (sign_encrypt_artifact p c o fresh fs (command_options m)) drafted

  unfoldable pub command_opening : Fresh → Fresh → Command → Opening
  unfolding agent_artifact
  command_opening fresh fresh' m =
      opening_of p.stringify (sign_draft fresh' m (agent_artifact fresh m))

  abbrev opened_response : Outcome CryptoResponse → Option ClientResponse
  opened_response (thrown e) = none
  opened_response (returned r) = some (elim r.error [
    | some e ↦ build_client_error_response (transform_to_exception e)
    | none ↦ record {
      response = elim r.payload [ none ↦ none | some fs ↦ some (obj fs) ];
      error = none;
    }
  ])

  abbrev checked_response :
      Fields → (signed_by selector : String) → Outcome (Option String) → Option ClientResponse
  checked_response msg signed_by selector (thrown e) = none
  checked_response msg signed_by selector (returned none) = some (
      failure resolve_pubkey (
        concat "SignedBy is present but public key is not found for identity: "
          (concat signed_by (concat " and selector: " selector))))
  checked_response msg signed_by selector (returned (some pem)) = opened_response (
      decrypt_verify_artifact p c o
        (set_field "encryption" (present_or (get_field "encryption" msg) null) msg) pem)

  abbrev non_blank_key : Outcome (Option String) → Outcome (Option String)
  non_blank_key (thrown e) = thrown e
  non_blank_key (returned key) = returned (given key)

  abbrev unsigned_message : ClientResponse
  unsigned_message =
      failure validation_error "Message is either not signed or does not have signedBy"

  -- The fields that a signed message must have.
  abbrev signed_response : Fields → Bool → Option String → Option String → Option ClientResponse
  signed_response msg true (some signed_by) (some selector) =
      checked_response msg signed_by selector
        (non_blank_key (resolve_public_key p.resolve_txt p.print signed_by selector))
  signed_response msg _ _ _ = some unsigned_message

  -- A message without a signature and an encryption is taken as it is.
  unfoldable pub answer_message : Json → Option ClientResponse
  unfolding decrypt_verify_artifact
  answer_message (obj msg) =
      if not (is_truthy (get_field "signature" msg)) && not (is_truthy (get_field "encryption" msg))
      then some (record { response = some (obj msg); error = none })
      else signed_response msg (is_truthy (get_field "signature" msg))
          (given (string_of (get_field "signedBy" msg)))
          (given (string_of (get_field "selector" msg)))
  answer_message j = some (record { response = some j; error = none })

  abbrev pub command_call : Fresh → Fresh → Command → Call
  command_call fresh fresh' m = record {
    opening = command_opening fresh fresh' m;
    answer = answer_message;
    message_received = false;
    result = none;
  }

  -- `command`, with what the schema says of a command that it refuses.
  unfoldable pub command :
      Network
      → (Command → Option String)
      → Fresh
      → Fresh
      → Command
      → Client
      → Client × Option ClientResponse
  unfolding command_opening answer_message connect
  command net refusal fresh fresh' m client = elim (refusal m) [
    | some details ↦
        (client, some (failure validation_error (concat "Command validation failed: " details)))
    | none ↦ (connect p net o o.identity (some (command_call fresh fresh' m)) client, none)
  ]
