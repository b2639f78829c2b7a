-- ===== src/Delegator.antt =====
-- src/core/delegation/BtpsDelegator.ts: delegations of a transporter's message to an agent, with an
-- attestation where the delegator acts for a user. The clock's texts are arguments.
pub mod Accepted
pub mod Tests
use btps_sdk.Prelude.{String, Bool, true, false, not, Option, none, some, ◌==◌, if◌then◌else◌}
use btps_sdk.Crypto.{Platform, PemKeys, Signature, signature_json, sign_btp_payload}
use btps_sdk.Dns.{get_host_and_selector, resolve_public_key, Address}
use btps_sdk.Effects.{Outcome, returned, thrown, Act, pure, throw, ◌>>=◌, ◌>>◌}
use btps_sdk.Errors.{exception, plain, sig_verification, Thrown}
use btps_sdk.Json.{Json, str, obj, Fields, end, field, set_field}
use btps_sdk.Server.Signature.{lift, non_blank}

-- `BtpsDelegatorOptions`
pub record DelegatorOptions : Type 0 where
  pub identity : String
  pub private_key : String
  pub auto_init : Option Bool

-- `BtpsDelegator`
pub record Delegator : Type 0 where
  pub identity : String
  pub private_key : String
  pub public_key : Option String
  pub selector : String
  pub is_initialized : Bool

-- The user for whom a delegator acts.
pub record OnBehalfOf : Type 0 where
  pub identity : String
  pub key_pair : PemKeys

-- `{ isValid, publicKey }`
pub record Verified : Type 0 where
  pub is_valid : Bool
  pub public_key : Option String

abbrev pub unverified : Verified
unverified = record { is_valid = false; public_key = none }

abbrev pub uninitialized : DelegatorOptions → Delegator
uninitialized o = record {
  identity = o.identity;
  private_key = o.private_key;
  public_key = none;
  selector = "btps1";
  is_initialized = false;
}

-- `{ ...o, signature }`
abbrev pub with_signature : Fields → Signature → Fields
with_signature fs s = set_field "signature" (signature_json s) fs

-- The signed part of a delegation, and that of an attestation.
abbrev pub delegation_fields :
    (agent_id agent_pub_key signed_by issued_at selector : String) → Fields
delegation_fields agent_id agent_pub_key signed_by issued_at selector =
    field "agentId" (str agent_id) (
      field "agentPubKey" (str agent_pub_key) (
        field "signedBy" (str signed_by)
          (field "issuedAt" (str issued_at) (field "selector" (str selector) end))))

abbrev pub attestation_fields : (signed_by issued_at selector : String) → Fields
attestation_fields signed_by issued_at selector =
    field "signedBy" (str signed_by)
      (field "issuedAt" (str issued_at) (field "selector" (str selector) end))

abbrev pub signed_fields : Fields → Outcome Signature → Outcome Fields
signed_fields fs (thrown e) = thrown e
signed_fields fs (returned s) = returned (with_signature fs s)

module _ (p : Platform) where
  unfoldable pub is_key_pair_matching : String → String → Outcome Bool
  is_key_pair_matching private_key_pem public_key_pem =
      elim (p.sign "sha256" "btps-key-validation" private_key_pem) [
        | thrown e ↦ thrown e
        | returned sign ↦ p.verify "sha256" "btps-key-validation" public_key_pem sign
      ]

  abbrev set_selector : String → Act Delegator (Unit {0})
  set_selector selector d = pure tt (record d { selector = selector })

  abbrev pub matched : String → Outcome Bool → Act Delegator Verified
  matched key (thrown e) = throw e
  matched key (returned matches) = pure (record { is_valid = matches; public_key = some key })

  abbrev pub match_key : Option String → Act Delegator Verified
  match_key none d = pure unverified d
  match_key (some key) d = matched key (is_key_pair_matching d.private_key key) d

  abbrev look_up_key : Option Address → Act Delegator Verified
  look_up_key none d = pure unverified d
  look_up_key (some a) d =
      (set_selector a.selector
          >> (lift (resolve_public_key p.resolve_txt p.print d.identity a.selector) >>= λ key.
              match_key (non_blank key)))
        d

  unfoldable pub verify_delegator_identity : Act Delegator Verified
  unfolding is_key_pair_matching
  verify_delegator_identity d =
      (lift (get_host_and_selector p.resolve_txt p.print d.identity) >>= look_up_key) d

  abbrev pub accept : Verified → Act Delegator (Unit {0})
  accept v d = elim v.public_key [
    | none ↦ throw (exception sig_verification) d
    | some key ↦
        if v.is_valid
        then pure tt (record d { public_key = some key; is_initialized = true })
        else throw (exception sig_verification) d
  ]

  unfoldable pub init : Act Delegator (Unit {0})
  unfolding verify_delegator_identity
  init = verify_delegator_identity >>= accept

  -- A new delegator is initialized at once unless `autoInit` is false; a failure of that is not awaited.
  unfoldable pub construct : DelegatorOptions → Delegator
  unfolding init
  construct o = elim o.auto_init [
    | some false ↦ uninitialized o
    | some true ↦ (init (uninitialized o)).0
    | none ↦ (init (uninitialized o)).0
  ]

  unfoldable pub create_delegation :
      (issued_at : String) (artifact : Fields) (delegator_identity : String)
      (delegator_key : PemKeys) (agent_id agent_pub_key selector : String)
      → Outcome Fields
  create_delegation issued_at artifact delegator_identity delegator_key agent_id agent_pub_key
        selector =
      let d = delegation_fields agent_id agent_pub_key delegator_identity issued_at selector in
      signed_fields d
        (sign_btp_payload p (obj (set_field "delegation" (obj d) artifact)) delegator_key)

  unfoldable pub create_attestation :
      (issued_at : String) (delegation : Fields) (attestor_identity : String)
      (attestor_key : PemKeys) (selector : String)
      → Outcome Fields
  create_attestation issued_at delegation attestor_identity attestor_key selector =
      let a = attestation_fields attestor_identity issued_at selector in
      signed_fields a
        (sign_btp_payload p (obj (set_field "attestation" (obj a) delegation)) attestor_key)

  abbrev pub delegated : Fields → Outcome Fields → Outcome Fields
  delegated artifact (thrown e) = thrown e
  delegated artifact (returned d) = returned (set_field "delegation" (obj d) artifact)

  abbrev attested : Fields → Outcome Fields → Outcome Fields
  attested delegation (thrown e) = thrown e
  attested delegation (returned a) = returned (set_field "attestation" (obj a) delegation)

  -- The user's selector is used for both, and the attestation is added to the signed delegation.
  abbrev delegate_for :
      (issued_at attested_at : String) (d : Delegator) (own_key : String)
      (agent_id agent_pub_key : String) (artifact : Fields)
      → OnBehalfOf
      → Outcome (Option Address)
      → Outcome Fields
  delegate_for issued_at attested_at d own_key agent_id agent_pub_key artifact user (thrown e) =
      thrown e
  delegate_for issued_at attested_at d own_key agent_id agent_pub_key artifact user
        (returned none) =
      thrown (exception sig_verification)
  delegate_for issued_at attested_at d own_key agent_id agent_pub_key artifact user
        (returned (some a)) =
      elim (create_delegation issued_at artifact user.identity user.key_pair agent_id agent_pub_key
        a.selector) [
          | thrown e ↦ thrown e
          | returned delegation ↦ delegated artifact (
              attested delegation (
                create_attestation attested_at delegation d.identity
                  (record { public_key = own_key; private_key = d.private_key }) a.selector))
        ]

  abbrev delegate_with :
      (issued_at attested_at : String) (d : Delegator) (own_key : String)
      (agent_id agent_pub_key : String) (artifact : Fields)
      → Option OnBehalfOf
      → Outcome Fields
  delegate_with issued_at attested_at d own_key agent_id agent_pub_key artifact none =
      delegated artifact (
        create_delegation issued_at artifact d.identity
          (record { public_key = own_key; private_key = d.private_key }) agent_id agent_pub_key
          d.selector)
  delegate_with issued_at attested_at d own_key agent_id agent_pub_key artifact (some user) =
      delegate_for issued_at attested_at d own_key agent_id agent_pub_key artifact user
        (get_host_and_selector p.resolve_txt p.print user.identity)

  -- `!this.isInitialized || !this.publicKey`
  abbrev pub delegate_as :
      (issued_at attested_at : String) (d : Delegator) (agent_id agent_pub_key : String)
      (artifact : Fields)
      → Option OnBehalfOf
      → Bool
      → Option String
      → Outcome Fields
  delegate_as issued_at attested_at d agent_id agent_pub_key artifact on_behalf_of true
        (some own_key) =
      delegate_with issued_at attested_at d own_key agent_id agent_pub_key artifact on_behalf_of
  delegate_as issued_at attested_at d agent_id agent_pub_key artifact on_behalf_of _ _ =
      thrown (exception (plain "Delegator not initialized"))

  unfoldable pub delegate_artifact :
      (issued_at attested_at agent_id agent_pub_key : String) (artifact : Fields)
      → Option OnBehalfOf
      → Delegator
      → Outcome Fields
  unfolding create_delegation create_attestation
  delegate_artifact issued_at attested_at agent_id agent_pub_key artifact on_behalf_of d =
      delegate_as issued_at attested_at d agent_id agent_pub_key artifact on_behalf_of
        d.is_initialized (non_blank d.public_key)
