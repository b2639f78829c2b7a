-- ===== src/Identity/Laws.antt =====
-- Which identities are parsed, and as what.
use text.Mathlib.TextLemmas.{nil-append, cons-append}
use btps_sdk.Prelude.{◌≡◌, ◌≢◌, refl, ap, ◌∙◌, String, some, List, [], ◌∷◌, eq_iff, arith}
use btps_sdk.Text.{concat}
use btps_sdk.Text.Laws.{Lacks, split_of_Lacks, split-append}
use btps_sdk.Identity.{parse_identity, first_two}

dollar-append : (d : String) → concat "$" d ≡ String.◌∷◌ "$" d
dollar-append d = cons-append "$" "" d ∙ ap (String.◌∷◌ "$") (nil-append d)

first_two-some :
    (a d : String) (rest : List String)
    → a ≢ ""
    → d ≢ ""
    → first_two (a ∷ d ∷ rest) ≡ some (record { account_name = a; domain_name = d })
first_two-some a d rest ha hd = ground (arith, eq_iff a "", eq_iff d "")

-- Printing an account and a domain, neither empty nor with a `$`, and parsing gives them back.
pub parse_identity-concat :
    (a d : String)
    → a ≢ ""
    → d ≢ ""
    → Lacks b'$' a
    → Lacks b'$' d
    → parse_identity (concat a (concat "$" d)) ≡ some (record { account_name = a; domain_name = d })
unfolding parse_identity
parse_identity-concat a d ha hd la ld =
    rw (dollar-append, split-append b'$' a "$" d la refl, split_of_Lacks b'$' d ld)
      (first_two-some a d [] ha hd)
