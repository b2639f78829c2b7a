-- ===== src/Identity.antt =====
-- src/core/utils/index.ts: identities of the form account$domain.
pub mod Laws
use Prim.Native.String
use btps_sdk.Prelude.{
  String, Bool, true, false, ◌||◌, Option, none, some, List, [], ◌∷◌, ◌==◌, if◌then◌else◌, is_some,
}
use btps_sdk.Text.{split}

-- `ParsedIdentity`
pub record ParsedIdentity : Type 0 where
  pub account_name : String
  pub domain_name : String

-- `const [accountName, domainName] = parts`, both of which must be there and not empty.
abbrev first_two : List String → Option ParsedIdentity
first_two [] = none
first_two (a ∷ []) = none
first_two (a ∷ d ∷ _) =
    if a == "" || d == "" then none else some (record { account_name = a; domain_name = d })

unfoldable pub parse_identity : String → Option ParsedIdentity
unfolding split
parse_identity identity = first_two (split b'$' identity)

unfoldable pub is_valid_identity : String → Bool
unfolding parse_identity
is_valid_identity identity = is_some (parse_identity identity)
