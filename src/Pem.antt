-- ===== src/Pem.antt =====
-- `pemToBase64` of src/core/utils/index.ts.
use Prim.Native.Char.{code}
use btps_sdk.Prelude.{String, Bool, false, Option, none, some, eqb, if◌then◌else◌}
use btps_sdk.Dns.{pem_header, pem_footer}
use btps_sdk.Text.{trim}

-- The rest of a text after a prefix, if it starts with that.
unfoldable pub after_prefix : String → String → Option String
after_prefix String.[] s = some s
after_prefix (String.◌∷◌ c p) String.[] = none
after_prefix (String.◌∷◌ c p) (String.◌∷◌ d s) =
    let rest = after_prefix p s in if eqb (code c) (code d) then rest else none

-- `s.replace(/part/, '')`: the first occurrence goes.
unfoldable pub without_first : String → String → String
unfolding after_prefix
without_first part String.[] = elim (after_prefix part "") [ none ↦ "" | some rest ↦ rest ]
without_first part (String.◌∷◌ c s) =
    let kept = String.◌∷◌ c (without_first part s) in
    elim (after_prefix part (String.◌∷◌ c s)) [ none ↦ kept | some rest ↦ rest ]

abbrev starts_line : String → Bool
starts_line String.[] = false
starts_line (String.◌∷◌ c s) = eqb (code c) 10

-- `s.replace(/\r?\n/g, '')`
unfoldable pub without_line_ends : String → String
without_line_ends String.[] = ""
without_line_ends (String.◌∷◌ c s) =
    let rest = without_line_ends s in
    if eqb (code c) 10
    then rest
    else if eqb (code c) 13
    then (if starts_line s then rest else String.◌∷◌ c rest)
    else String.◌∷◌ c rest

unfoldable pub pem_to_base64 : String → String
unfolding without_first without_line_ends trim
pem_to_base64 pem =
    trim (without_line_ends (without_first pem_footer (without_first pem_header pem)))
