-- ===== src/Tests.antt =====
-- The theorems on identities, keys, signatures and trust, at inputs that exercise the code.
use btps_sdk.Prelude.{◌≡◌, ◌↔◌, refl, true, some}
use btps_sdk.Crypto.{Signature, sign_btp_payload, verify_signature, get_fingerprint_from_pem}
use btps_sdk.Crypto.Laws.{IsAuthentic, verify_signature_iff}
use btps_sdk.Effects.{returned}
use btps_sdk.Identity.{ParsedIdentity, parse_identity}
use btps_sdk.Identity.Laws.{parse_identity-concat}
use btps_sdk.Json.{str}
use btps_sdk.Text
use btps_sdk.Trust.{pending, TrustRecord, Check, passed}
use btps_sdk.Trust.Response.{validate_trust_response, validate_trust_response_iff}
use btps_sdk.Samples.{pem, keys, platform, trust, store}

abbrev signature : Signature
signature = record { algorithm_hash = "sha256"; value = "text"; fingerprint = pem }

verify_signature_iff_example :
    (verify_signature platform (str "text") signature pem ≡ returned passed)
    ↔ IsAuthentic platform (str "text") signature pem
verify_signature_iff_example = verify_signature_iff platform (str "text") signature pem

signs : sign_btp_payload platform (str "text") keys ≡ returned signature
unfolding sign_btp_payload get_fingerprint_from_pem Text.trim Text.trim_start Text.trim_end
    Text.is_space Text.ends_with
signs = refl

validate_trust_response_iff_example :
    (check : Check) × (validate_trust_response store
        (λ s. s)
        "b$y.com"
        "a$x.com"
        (some (trust pending))
      ≡ (some (trust pending), returned check))
    × ((check.is_valid ≡ true) ↔ (
        (r : TrustRecord) × (some (trust pending) ≡ some r)
        × (r.status ≡ pending)
        × (r.receiver_id ≡ "b$y.com")))
validate_trust_response_iff_example =
    validate_trust_response_iff store (λ s. s) "b$y.com" "a$x.com" (some (trust pending))
      (some (trust pending)) (some (trust pending)) refl

parse_identity-concat_example :
    parse_identity "a$x.com" ≡ some (record { account_name = "a"; domain_name = "x.com" })
parse_identity-concat_example =
    parse_identity-concat "a" "x.com" (λ e. cc e) (λ e. cc e) (refl, tt)
      (refl, (refl, (refl, (refl, (refl, tt)))))

abbrev ann : ParsedIdentity
ann = record { account_name = "a"; domain_name = "x.com" }
