-- ===== src/Dns.antt =====
-- src/core/utils/index.ts: what is read from the TXT records of the name service. The resolver,
-- `dns.resolveTxt`, and the printing of a caught value are the parameters of the section.
pub mod Laws
use Prim.Native.Char.{Char, code}
use Prim.Native.String
use btps_sdk.Prelude.{
  ℕ, zero, suc, String, Bool, true, false, ◌||◌, not, Option, none, some, List, [], ◌∷◌, ◌==◌, map,
  or_else, ◌++◌, eqb, if◌then◌else◌,
}
use btps_sdk.Errors.{Thrown, error}
use btps_sdk.Effects.{Outcome, returned, thrown}
use btps_sdk.Identity.{ParsedIdentity, parse_identity}
use btps_sdk.JsMap.{JsMap, get, set}
use btps_sdk.Text.{concat, split, trim, join, push_head}

-- The fields of one part, if it has exactly one `=`.
abbrev pub pair_of : List String → Option (String × String)
pair_of (k ∷ v ∷ []) = some (k, v)
pair_of _ = none

-- `Object.fromEntries`: a later pair replaces an earlier one of its key.
unfoldable pub from_entries : List (Option (String × String)) → JsMap String → JsMap String
from_entries [] m = m
from_entries (none ∷ ps) m = from_entries ps m
from_entries (some (k, v) ∷ ps) m = from_entries ps (set k v m)

unfoldable pub txt_parts : List (List String) → JsMap String
unfolding split trim join from_entries
txt_parts records =
    let flat = join "" (map (join "") records) in
    from_entries (map (λ s. pair_of (map trim (split b'=' (trim s)))) (split b';' flat)) []

abbrev pub protocol_version : String
protocol_version = "1.0.0"

abbrev pub name_space : String
name_space = "_btps"

-- `host` and `selector`
pub record Address : Type 0 where
  pub host : String
  pub selector : String

-- A missing key, or an empty text.
abbrev pub is_blank : Option String → Bool
is_blank none = true
is_blank (some s) = s == ""

unfoldable pub address_of : JsMap String → Option Address
address_of parts =
    if not (or_else (get "v" parts) "" == protocol_version)
    then none
    else if is_blank (get "u" parts) || is_blank (get "s" parts)
    then none
    else some (record { host = or_else (get "u" parts) ""; selector = or_else (get "s" parts) "" })

abbrev pub is_line_end : Char → Bool
is_line_end c = eqb (code c) 10 || eqb (code c) 13 || eqb (code c) 8232 || eqb (code c) 8233

abbrev pub close : String → List String → List String
close line rest = if line == "" then rest else line ∷ rest

-- `base64.match(/.{1,64}/g)`: lines of 64 characters and the rest, with no line end in any. The
-- line that is being read and the room left in it are arguments.
unfoldable pub lines_from : String → ℕ → String → List String
lines_from line room String.[] = close line []
lines_from line zero (String.◌∷◌ c s) =
    let broken = lines_from "" 64 s in
    let full = lines_from (String.◌∷◌ c "") 63 s in line ∷ (if is_line_end c then broken else full)
lines_from line (suc room) (String.◌∷◌ c s) =
    let broken = close line (lines_from "" 64 s) in
    let longer = lines_from (concat line (String.◌∷◌ c "")) room s in
    if is_line_end c then broken else longer

abbrev pub pem_header : String
pem_header = "-----BEGIN PUBLIC KEY-----"

abbrev pub pem_footer : String
pem_footer = "-----END PUBLIC KEY-----"

unfoldable pub base64_to_pem : String → String
unfolding lines_from join
base64_to_pem base64 = join "\n" (pem_header ∷ (lines_from "" 64 base64 ++ pem_footer ∷ []))

-- What `getDnsIdentityParts` is asked for.
pub data Wanted : Type 0 where
  key pem version : Wanted

pub data Parts : Type 0 where
  every : (key version : Option String) → (pem : String) → Parts
  one : Option String → Parts

-- `base64ToPem(parts['p'])`; a missing part makes `match` throw a TypeError.
abbrev pub pem_of : JsMap String → Outcome String
pem_of parts = elim (get "p" parts) [
  | none ↦ thrown (error "Cannot read properties of undefined (reading 'match')")
  | some p ↦ returned (base64_to_pem p)
]

abbrev pub map_outcome : {A B : Type 0} → (A → B) → Outcome A → Outcome B
map_outcome f (returned a) = returned (f a)
map_outcome f (thrown e) = thrown e

unfoldable pub parts_of : Option Wanted → JsMap String → Outcome Parts
parts_of none parts = map_outcome (every (get "k" parts) (get "v" parts)) (pem_of parts)
parts_of (some pem) parts = map_outcome (λ p. one (some p)) (pem_of parts)
parts_of (some key) parts = returned (one (get "k" parts))
parts_of (some version) parts = returned (one (get "v" parts))

abbrev pub is_empty : {A : Type 0} → List A → Bool
is_empty [] = true
is_empty (x ∷ xs) = false

module _ (resolve_txt : String → Outcome (List (List String))) (print : Thrown → String) where
  abbrev failure : {A : Type 0} → String → Thrown → Outcome A
  failure name e =
      thrown (error (concat "DNS resolution failed for " (concat name (concat ": " (print e)))))

  abbrev rethrown : {A : Type 0} → String → Outcome A → Outcome A
  rethrown name (returned a) = returned a
  rethrown name (thrown e) = failure name e

  unfoldable pub host_lookup : String → Outcome (Option Address)
  unfolding txt_parts address_of
  host_lookup dns_name = elim (resolve_txt dns_name) [
    | thrown e ↦ failure dns_name e
    | returned records ↦
        returned (if is_empty records then none else address_of (txt_parts records))
  ]

  unfoldable pub get_host_and_selector : String → Outcome (Option Address)
  unfolding host_lookup
  get_host_and_selector identity = elim (parse_identity identity) [
    | none ↦ returned none
    | some p ↦ host_lookup (concat name_space (concat "." p.domain_name))
  ]

  unfoldable pub parts_lookup : String → String → Option Wanted → Outcome (Option Parts)
  unfolding txt_parts parts_of
  parts_lookup dns_name domain_name wanted = elim (resolve_txt dns_name) [
    | thrown e ↦ failure domain_name e
    | returned records ↦
        if is_empty records
        then returned none
        else rethrown domain_name (map_outcome some (parts_of wanted (txt_parts records)))
  ]

  unfoldable pub get_dns_identity_parts : String → String → Option Wanted → Outcome (Option Parts)
  unfolding parts_lookup
  get_dns_identity_parts identity selector wanted = elim (parse_identity identity) [
    | none ↦ returned none
    | some p ↦
        parts_lookup
          (concat selector (
            concat "."
              (concat name_space (concat "." (concat p.account_name (concat "." p.domain_name))))))
          p.domain_name wanted
  ]

  abbrev pem_text : Option Parts → Option String
  pem_text (some (one p)) = p
  pem_text _ = none

  unfoldable pub resolve_public_key : String → String → Outcome (Option String)
  unfolding get_dns_identity_parts
  resolve_public_key identity selector =
      map_outcome pem_text (get_dns_identity_parts identity selector (some pem))
