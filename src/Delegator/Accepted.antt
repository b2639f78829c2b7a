-- ===== src/Delegator/Accepted.antt =====
-- Delegations of src/core/delegation/BtpsDelegator.ts, checked by src/server/btpsServer.ts.
use btps_sdk.Prelude.{
  ◌≡◌, refl, ap, ◌∙◌, String, Bool, true, false, Option, none, some, ◌==◌, inl, inr,
}
use btps_sdk.Crypto.{Platform, PemKeys, Signature, sign_btp_payload, verify_signature}
use btps_sdk.Crypto.Laws.{IsKeyPair, verify_signature-sign_btp_payload}
use btps_sdk.Delegator.{
  accept, matched, match_key, is_key_pair_matching, verify_delegator_identity, Delegator,
  delegate_as, delegated, signed_fields, DelegatorOptions, uninitialized, init, delegate_artifact,
  delegation_fields, with_signature, create_delegation,
}
use btps_sdk.Dns.{Address, get_host_and_selector, resolve_public_key}
use btps_sdk.Effects.{Outcome, returned, thrown, then_run}
use btps_sdk.Json.{obj, Fields, get_field, set_field, without, text_at, string_of}
use btps_sdk.Json.Laws.{
  get_field-set_field_self, get_field-set_field_ne, set_field-set_field, without-set_field,
}
use btps_sdk.Server.Delegation.{Outcome-cases}
use btps_sdk.Server.Signature.{
  signed_part, signature_at, resolve_key, verify_delegation, verify_delegated,
  verify_transporter_signature, non_blank, on_key, check_with,
}
use btps_sdk.Trust.{passed}

module _ (p : Platform) where
  abbrev own_keys : Delegator → String → PemKeys
  own_keys d key = record { public_key = key; private_key = d.private_key }

  -- The delegation that an initialized delegator makes for itself.
  abbrev own_delegation : (issued_at agent_id agent_pub_key : String) → Delegator → Fields
  own_delegation issued_at agent_id agent_pub_key d =
      delegation_fields agent_id agent_pub_key d.identity issued_at d.selector

  delegate_artifact-own :
      (issued_at attested_at agent_id agent_pub_key key : String) (artifact : Fields)
      (d : Delegator) (s : Signature)
      → d.is_initialized ≡ true
      → non_blank d.public_key ≡ some key
      → sign_btp_payload p
          (obj (
            set_field "delegation"
              (obj (own_delegation issued_at agent_id agent_pub_key d))
              artifact))
          (own_keys d key)
        ≡ returned s
      → delegate_artifact p issued_at attested_at agent_id agent_pub_key artifact none d
        ≡ returned (
            set_field "delegation"
              (obj (with_signature (own_delegation issued_at agent_id agent_pub_key d) s))
              artifact)
  unfolding delegate_artifact create_delegation
  delegate_artifact-own issued_at attested_at agent_id agent_pub_key key artifact d s i k h =
      (λ j. delegate_as p issued_at attested_at d agent_id agent_pub_key artifact none (i j) (k j))
      ∙ ap
          (λ o.
            delegated p artifact
              (signed_fields (own_delegation issued_at agent_id agent_pub_key d) o))
          h

  verify_transporter_signature-delegated :
      (artifact d : Fields)
      → get_field "delegation" artifact ≡ some (obj d)
      → get_field "attestation" d ≡ none
      → (text_at "signedBy" d == text_at "from" artifact) ≡ false
      → verify_transporter_signature p artifact ≡ verify_delegated p artifact d
  unfolding verify_transporter_signature verify_delegation
  verify_transporter_signature-delegated artifact d h a other =
      rw (h, verify_transporter_signature) (rw (a, verify_delegation) (rw other refl))

  verify_delegated-passed :
      (artifact d : Fields) (pem : String)
      → resolve_key p (text_at "signedBy" d) (text_at "selector" d) ≡ returned (some pem)
      → verify_signature p
          (obj (set_field "delegation" (signed_part d) artifact))
          (signature_at d)
          pem
        ≡ returned passed
      → verify_signature p
          (signed_part (without "delegation" artifact))
          (signature_at (without "delegation" artifact))
          (text_at "agentPubKey" d)
        ≡ returned passed
      → verify_delegated p artifact d ≡ returned passed
  unfolding verify_delegated
  verify_delegated-passed artifact d pem found own agent =
      rw (found, verify_delegated) (rw (own, on_key) (rw (agent, check_with) refl))

  verify_delegation-own :
      (issued_at agent_id agent_pub_key key : String) (artifact : Fields) (d : Delegator)
      (s : Signature)
      → IsKeyPair p (own_keys d key)
      → get_field "delegation" artifact ≡ none
      → (d.identity == text_at "from" artifact) ≡ false
      → resolve_key p d.identity d.selector ≡ returned (some key)
      → verify_signature p (signed_part artifact) (signature_at artifact) agent_pub_key
        ≡ returned passed
      → sign_btp_payload p
          (obj (
            set_field "delegation"
              (obj (own_delegation issued_at agent_id agent_pub_key d))
              artifact))
          (own_keys d key)
        ≡ returned s
      → verify_transporter_signature p (
          set_field "delegation"
            (obj (with_signature (own_delegation issued_at agent_id agent_pub_key d) s))
            artifact)
        ≡ returned passed
  unfolding get_field set_field without
  verify_delegation-own issued_at agent_id agent_pub_key key artifact d s pair new other found agent
        h =
      let own = own_delegation issued_at agent_id agent_pub_key d in
      let made = with_signature own s in
      let message = set_field "delegation" (obj made) artifact in
      verify_transporter_signature-delegated message made
        (get_field-set_field_self "delegation" (obj made) artifact) refl
        (ap (λ o. d.identity == elim (string_of o) [ none ↦ "undefined" | some t ↦ t ])
            (get_field-set_field_ne "delegation" "from" (obj made) artifact refl)
          ∙ other)
      ∙ verify_delegated-passed message made key found
          ((λ i.
              verify_signature p
                (obj (set_field-set_field "delegation" (obj own) (obj made) artifact i)) s key)
            ∙ verify_signature-sign_btp_payload p (obj (set_field "delegation" (obj own) artifact))
                (own_keys d key) s pair h)
          ((λ i.
              verify_signature p
                (signed_part (without-set_field "delegation" (obj made) artifact new i))
                (signature_at (without-set_field "delegation" (obj made) artifact new i))
                agent_pub_key)
            ∙ agent)

  -- The message that an initialized delegator makes for itself, on behalf of nobody (`onBehalfOf` is
  -- not given), of one without a delegation passes the server's signature check, if the delegator is
  -- not the message's sender, the non-blank public key that it holds forms a key pair with its private
  -- key (what it signs verifies), its domain publishes that key under its selector, the agent's
  -- signature of the message is valid for the key that the delegation names, and signing succeeds.
  pub verify_transporter_signature-delegate_artifact :
      (issued_at attested_at agent_id agent_pub_key key : String) (artifact : Fields)
      (d : Delegator) (s : Signature)
      → d.is_initialized ≡ true
      → non_blank d.public_key ≡ some key
      → IsKeyPair p (own_keys d key)
      → resolve_key p d.identity d.selector ≡ returned (some key)
      → get_field "delegation" artifact ≡ none
      → (d.identity == text_at "from" artifact) ≡ false
      → verify_signature p (signed_part artifact) (signature_at artifact) agent_pub_key
        ≡ returned passed
      → sign_btp_payload p
          (obj (
            set_field "delegation"
              (obj (own_delegation issued_at agent_id agent_pub_key d))
              artifact))
          (own_keys d key)
        ≡ returned s
      → (message : Fields) × (delegate_artifact p issued_at attested_at agent_id agent_pub_key
            artifact none d
          ≡ returned message)
        × (verify_transporter_signature p message ≡ returned passed)
  verify_transporter_signature-delegate_artifact issued_at attested_at agent_id agent_pub_key key
        artifact d s i k pair found new other agent h =
      (
        _,
        delegate_artifact-own issued_at attested_at agent_id agent_pub_key key artifact d s i k h,
        verify_delegation-own issued_at agent_id agent_pub_key key artifact d s pair new other found
            agent h,
      )

  -- The key under a selector is the delegator's own.
  abbrev HasKey : DelegatorOptions → String → Delegator → Type 0
  HasKey o selector d =
      (key : String) × (d.public_key ≡ some key)
      × (d.selector ≡ selector)
      × (is_key_pair_matching p o.private_key key ≡ returned true)
      × (resolve_key p o.identity selector ≡ returned (some key))

  abbrev after_key : DelegatorOptions → String → Outcome (Option String) → Delegator
  after_key o selector found =
      (then_run (accept p) (
        then_run (λ key. match_key p (non_blank key))
          (record (uninitialized o) { selector = selector }, found))).0

  abbrev after_match : DelegatorOptions → String → Option String → Delegator
  after_match o selector key =
      (then_run (accept p) (match_key p key (record (uninitialized o) { selector = selector }))).0

  abbrev after_outcome : DelegatorOptions → String → String → Outcome Bool → Delegator
  after_outcome o selector k m =
      (then_run (accept p) (matched p k m (record (uninitialized o) { selector = selector }))).0

  outcome-is_initialized :
      (o : DelegatorOptions) (selector k : String) (m : Outcome Bool)
      → is_key_pair_matching p o.private_key k ≡ m
      → resolve_key p o.identity selector ≡ returned (some k)
      → (after_outcome o selector k m).is_initialized ≡ true
      → HasKey o selector (after_outcome o selector k m)
  outcome-is_initialized o selector k (thrown e) s published h = absurd (cc h)
  outcome-is_initialized o selector k (returned false) s published h = absurd (cc h)
  outcome-is_initialized o selector k (returned true) s published h = (k, refl, refl, s, published)

  matched-is_initialized :
      (o : DelegatorOptions) (selector : String) (key : Option String)
      → resolve_key p o.identity selector ≡ returned key
      → (after_match o selector key).is_initialized ≡ true
      → HasKey o selector (after_match o selector key)
  matched-is_initialized o selector none published h = absurd (cc h)
  matched-is_initialized o selector (some k) published h =
      outcome-is_initialized o selector k _ refl published h

  after_key-is_initialized :
      (o : DelegatorOptions) (selector : String) (found : Outcome (Option String))
      → resolve_public_key p.resolve_txt p.print o.identity selector ≡ found
      → (after_key o selector found).is_initialized ≡ true
      → HasKey o selector (after_key o selector found)
  unfolding resolve_key
  after_key-is_initialized o selector (thrown e) s h = absurd (cc h)
  after_key-is_initialized o selector (returned none) s h = absurd (cc h)
  after_key-is_initialized o selector (returned (some k)) s h =
      let published : resolve_key p o.identity selector ≡ returned (non_blank (some k)) =
        rw (s, resolve_key) refl in
      matched-is_initialized o selector (non_blank (some k)) published h

  -- A delegator that its initialization leaves initialized has the selector that its domain's record
  -- names, and its public key is the one that the domain publishes for its identity under that
  -- selector; that key matches its private key.
  pub init-is_initialized :
      (o : DelegatorOptions)
      → (init p (uninitialized o)).0.is_initialized ≡ true
      → (a : Address) × (get_host_and_selector p.resolve_txt p.print o.identity ≡ returned (some a))
        × ((key : String) × ((init p (uninitialized o)).0.public_key ≡ some key)
            × ((init p (uninitialized o)).0.selector ≡ a.selector)
            × (is_key_pair_matching p o.private_key key ≡ returned true)
            × (resolve_key p o.identity a.selector ≡ returned (some key)))
  unfolding init verify_delegator_identity
  init-is_initialized o =
      elim (Outcome-cases (get_host_and_selector p.resolve_txt p.print o.identity)) [
        | inr (t, s) ↦ rw s (λ h. absurd (cc h))
        | inl (none, s) ↦ rw s (λ h. absurd (cc h))
        | inl (some a, s) ↦ rw s (λ h. (a, refl, after_key-is_initialized o a.selector _ refl h))
      ]
