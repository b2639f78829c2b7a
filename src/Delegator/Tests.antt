-- ===== src/Delegator/Tests.antt =====
-- Delegators of src/core/delegation/BtpsDelegator.ts at concrete inputs, and the theorems at them.
use btps_sdk.Prelude.{
  ◌≡◌, refl, arith, eq_iff, String, true, false, Bool, Option, none, some, [], ◌∷◌, is_some,
  if◌then◌else◌,
}
use btps_sdk.Crypto.{
  Platform, Signature, signature_json, sign_btp_payload, verify_signature, get_fingerprint_from_pem,
}
use btps_sdk.Delegator.{
  Delegator, DelegatorOptions, uninitialized, init, is_key_pair_matching, verify_delegator_identity,
  delegate_artifact, construct, create_delegation, create_attestation,
}
use btps_sdk.Delegator.Accepted.{
  verify_transporter_signature-delegate_artifact, init-is_initialized,
}
use btps_sdk.Dns.{
  Address, get_host_and_selector, resolve_public_key, get_dns_identity_parts, parts_lookup,
  parts_of, host_lookup, txt_parts, address_of, base64_to_pem, lines_from,
}
use btps_sdk.Effects.{Outcome, returned, thrown}
use btps_sdk.Errors.{delegation_sig_verification}
use btps_sdk.Identity.{parse_identity}
use btps_sdk.JsMap
use btps_sdk.Json.{Json, str, obj, Fields, field, end, get_field, set_field, without, fields_of}
use btps_sdk.Samples.{platform, pem, keys}
use btps_sdk.Server.Signature.{
  verify_transporter_signature, verify_delegation, verify_delegated, verify_attestation,
  resolve_key,
}
use btps_sdk.Text.{split, trim, trim_start, trim_end, is_space, ends_with, join}
use btps_sdk.Trust.{passed, failed, Check}

-- Every domain publishes the sample key, under the selector own.
abbrev published : Platform
published = record platform {
  resolve_txt = λ name. returned (("v=1.0.0;u=y.com;s=own;p=k" ∷ []) ∷ []);
}

delegation_runs : Unit {0}
unfolding init is_key_pair_matching verify_delegator_identity delegate_artifact construct
    create_delegation create_attestation get_host_and_selector resolve_public_key
    get_dns_identity_parts parts_lookup parts_of host_lookup txt_parts address_of base64_to_pem
    lines_from parse_identity JsMap.get JsMap.set get_field set_field without
    verify_transporter_signature verify_delegation verify_delegated verify_attestation resolve_key
    split trim trim_start trim_end is_space ends_with join sign_btp_payload verify_signature
    get_fingerprint_from_pem
delegation_runs = tt

-- A platform whose texts tell a message with an attestation from one without.
abbrev has_attestation : Option Fields → Bool
has_attestation none = false
has_attestation (some d) = is_some (get_field "attestation" d)

abbrev text_of : Json → String
text_of (obj fs) =
    if has_attestation (fields_of (get_field "delegation" fs)) then "attested" else "{}"
text_of j = "{}"

abbrev telling : Platform
telling = record published { stringify = text_of }

abbrev options : DelegatorOptions
options = record { identity = "saas$y.com"; private_key = "private"; auto_init = none }

abbrev delegator : Delegator
delegator = record {
  identity = "saas$y.com";
  private_key = "private";
  public_key = some pem;
  selector = "own";
  is_initialized = true;
}

construct-options : construct published options ≡ delegator
unfolding delegation_runs
construct-options = refl

abbrev signature : Signature
signature = record { algorithm_hash = "sha256"; value = "{}"; fingerprint = pem }

abbrev message : Fields
message =
    field "from" (str "a$x.com")
      (field "document" (str "letter") (field "signature" (signature_json signature) end))

verify_transporter_signature-delegate_artifact_example :
    (delegated : Fields) × (delegate_artifact published "now" "then" "agent" pem message none
        delegator
      ≡ returned delegated)
    × (verify_transporter_signature published delegated ≡ returned passed)
unfolding delegation_runs
verify_transporter_signature-delegate_artifact_example =
    verify_transporter_signature-delegate_artifact published "now" "then" "agent" pem pem message
      delegator signature refl refl (λ text value signed. ground (arith, eq_iff value text)) refl
      refl refl refl refl

init-is_initialized_example :
    (a : Address) × (get_host_and_selector published.resolve_txt published.print "saas$y.com"
      ≡ returned (some a))
    × ((key : String) × ((init published (uninitialized options)).0.public_key ≡ some key)
        × ((init published (uninitialized options)).0.selector ≡ a.selector)
        × (is_key_pair_matching published "private" key ≡ returned true)
        × (resolve_key published "saas$y.com" a.selector ≡ returned (some key)))
unfolding delegation_runs
init-is_initialized_example = init-is_initialized published options refl

abbrev verdict : Outcome Fields → Outcome Check
verdict (thrown e) = thrown e
verdict (returned m) = verify_transporter_signature telling m

-- A delegation for a user is signed without the attestation and verified with it.
verdict-on_behalf_of :
    verdict (
      delegate_artifact telling "now" "then" "agent" pem message
        (some (record { identity = "b$y.com"; key_pair = keys }))
        delegator)
    ≡ returned (
        failed delegation_sig_verification
          (some "Delegation signature verification failed of delegator b$y.com"))
unfolding delegation_runs
verdict-on_behalf_of = refl
