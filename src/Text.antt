-- ===== src/Text.antt =====
-- The methods of strings that the program uses: `split` at one character, `trim`, `endsWith`, `join`.
pub mod Laws
use Prim.Native.Char.{Char, code}
use Prim.Native.String
use btps_sdk.Prelude.{
  ℕ, zero, suc, String, Bool, true, false, ◌&&◌, ◌||◌, not, Option, none, some, List, [], ◌∷◌, ◌==◌,
  eqb, leb, if◌then◌else◌,
}

abbrev pub concat : String → String → String
concat = String.◌++◌

-- A character put in front of the first part.
abbrev pub push_head : Char → List String → List String
push_head c [] = (String.◌∷◌ c "") ∷ []
push_head c (p ∷ ps) = (String.◌∷◌ c p) ∷ ps

-- `s.split(sep)` for a separator of one character, given by its code.
unfoldable pub split : ℕ → String → List String
split sep String.[] = "" ∷ []
split sep (String.◌∷◌ c s) =
    let rest = split sep s in if eqb (code c) sep then "" ∷ rest else push_head c rest

-- The white space and the line ends of JavaScript.
unfoldable pub is_space : Char → Bool
is_space c =
    eqb (code c) 32
    || eqb (code c) 9
    || eqb (code c) 10
    || eqb (code c) 11
    || eqb (code c) 12
    || eqb (code c) 13
    || eqb (code c) 160
    || eqb (code c) 5760
    || leb 8192 (code c) && leb (code c) 8202
    || eqb (code c) 8232
    || eqb (code c) 8233
    || eqb (code c) 8239
    || eqb (code c) 8287
    || eqb (code c) 12288
    || eqb (code c) 65279

unfoldable pub trim_start : String → String
unfolding is_space
trim_start String.[] = ""
trim_start (String.◌∷◌ c s) = let rest = trim_start s in if is_space c then rest else String.◌∷◌ c s

unfoldable pub trim_end : String → String
unfolding is_space
trim_end String.[] = ""
trim_end (String.◌∷◌ c s) =
    let rest = trim_end s in if rest == "" && is_space c then "" else String.◌∷◌ c rest

unfoldable pub trim : String → String
unfolding trim_start trim_end
trim s = trim_end (trim_start s)

unfoldable pub ends_with : String → String → Bool
ends_with String.[] t = t == ""
ends_with (String.◌∷◌ c s) t =
    let rest = ends_with s t in if String.◌∷◌ c s == t then true else rest

-- `parts.join(sep)`
unfoldable pub join : String → List String → String
join sep [] = ""
join sep (p ∷ []) = p
join sep (p ∷ q ∷ ps) = concat p (concat sep (join sep (q ∷ ps)))
