-- ===== src/Crypto/UserToken.antt =====
-- `generateUserToken` of src/core/crypto/index.ts: the short text by which a user is asked for.
use Prim.Native.Char.{Char}
use Prim.Native.Nat.{◌%◌}
use native.Mathlib.Nat.{mod-lt}
use btps_sdk.Prelude.{
  ℕ, zero, suc, ◌≤◌, ◌<◌, ◌≡◌, ◌∙◌, ◌⊎◌, inl, inr, refl, ap, String, ◌||◌, Option, some, none, List,
  [], ◌∷◌, length, arith, ltb, if◌then◌else◌, Bool-cases, or_else,
}
use btps_sdk.Effects.{Outcome, returned, thrown}
use btps_sdk.Errors.{exception, plain}
use btps_sdk.Text.{concat}

-- `DEFAULT_ALPHABET`
abbrev pub default_alphabet : String
default_alphabet = "ABCDEFGHJKLMNPQRSTUVWXYZ23456789"

unfoldable pub size : String → ℕ
size String.[] = 0
size (String.◌∷◌ c s) = suc (size s)

-- `s[i]`
unfoldable pub char_at : String → ℕ → Option Char
char_at String.[] i = none
char_at (String.◌∷◌ c s) zero = some c
char_at (String.◌∷◌ c s) (suc i) = char_at s i

-- `bytes.slice(0, n)`
unfoldable pub take : ℕ → List ℕ → List ℕ
take zero bs = []
take (suc n) [] = []
take (suc n) (b ∷ bs) = b ∷ take n bs

-- What `join` makes of a character, or of undefined.
abbrev pub joined : Option Char → String → String
joined none s = s
joined (some c) s = String.◌∷◌ c s

-- `bytes.map((byte) => charactersFrom[byte % charactersFrom.length]).join('')`; of an empty text
-- every character is undefined.
unfoldable pub spell : String → List ℕ → String
unfolding char_at size
spell characters [] = ""
spell characters (b ∷ bs) = joined (char_at characters (b % size characters)) (spell characters bs)

-- `digest` gives the bytes of SHA-256, and `to_upper_case` is the method of strings; `entropy` is
-- the time and the random bytes as they are printed.
module _ (digest : String → List ℕ) (to_upper_case : String → String) where
  unfoldable pub generate_user_token :
      (entropy user_identity : String) → Option ℕ → Option String → Outcome String
  unfolding spell take
  generate_user_token entropy user_identity length characters_from =
      let n = or_else length 12 in
      let bytes = take n (digest (concat user_identity entropy)) in
      if ltb n 8 || ltb 24 n
      then thrown (exception (plain "Token length must be between 8 and 24 characters."))
      else returned (to_upper_case (spell (or_else characters_from default_alphabet) bytes))

-- The character stands in the text.
abbrev pub Has : String → Char → Type 0
Has String.[] c = ⊥
Has (String.◌∷◌ d s) c = (c ≡ d) ⊎ Has s c

abbrev pub AllHad : String → String → Type 0
AllHad characters String.[] = Unit
AllHad characters (String.◌∷◌ c s) = Has characters c × AllHad characters s

char_at-Has : (s : String) (i : ℕ) → i < size s → (c : Char) × (char_at s i ≡ some c) × Has s c
unfolding char_at size
char_at-Has String.[] i h = absurd (omega arith)
char_at-Has (String.◌∷◌ c s) zero h = (c, refl, inl refl)
char_at-Has (String.◌∷◌ c s) (suc i) h =
    let r = char_at-Has s i (omega arith) in (r.0, r.1, inr r.2)

-- A text with a character of `characters` for each of the bytes.
pub record IsSpelt (characters : String) (n : ℕ) (s : String) : Type 0 where
  pub sized : size s ≡ n
  pub had : AllHad characters s

-- For a length in bounds such a text is returned, and any other length is refused.
abbrev pub IsToken : String → ℕ → Outcome String → Type 0
IsToken characters n o =
    (8 ≤ n) × (n ≤ 24) × ((t : String) × (o ≡ returned t) × IsSpelt characters n t)
    ⊎ ((n < 8) ⊎ (24 < n))
      × (o ≡ thrown (exception (plain "Token length must be between 8 and 24 characters.")))

joined-IsSpelt :
    (characters s : String) (n : ℕ) (o : Option Char) (c : Char)
    → o ≡ some c
    → Has characters c
    → IsSpelt characters n s
    → IsSpelt characters (suc n) (joined o s)
unfolding size
joined-IsSpelt characters s n o c e h k = rw e (record { sized = ap suc k.sized; had = (h, k.had) })

spell-IsSpelt :
    (characters : String) (bs : List ℕ)
    → 0 < size characters
    → IsSpelt characters (length bs) (spell characters bs)
unfolding spell size
spell-IsSpelt characters [] h = record { sized = refl; had = tt }
spell-IsSpelt characters (b ∷ bs) h =
    let r = char_at-Has characters (b % size characters) (mod-lt b h) in
    joined-IsSpelt characters (spell characters bs) (length bs) _ r.0 r.1 r.2
      (spell-IsSpelt characters bs h)

length-take : (n : ℕ) (bs : List ℕ) → n ≤ length bs → length (take n bs) ≡ n
unfolding take
length-take zero bs h = refl
length-take (suc n) [] h = absurd (omega arith)
length-take (suc n) (b ∷ bs) h = ap suc (length-take n bs (omega arith))

-- Where the digest has 24 bytes at least, and the characters asked for are not none and are as
-- they are in upper case: the token of a user has as many characters as asked for, each of those
-- asked for, if that is 8 to 24; and any other length is refused.
pub generate_user_token-IsToken :
    (digest : String → List ℕ) (to_upper_case : String → String)
    (entropy user_identity characters : String) (n : ℕ)
    → ((s : String) → 24 ≤ length (digest s))
    → 0 < size characters
    → ((s : String) → AllHad characters s → to_upper_case s ≡ s)
    → IsToken characters n
        (generate_user_token digest to_upper_case entropy user_identity (some n) (some characters))
unfolding generate_user_token
generate_user_token-IsToken digest to_upper_case entropy user_identity characters n long some_char
      upper =
    elim (Bool-cases (ltb n 8 || ltb 24 n)) [
      | inl bad ↦ inr (ground arith, rw bad refl)
      | inr good ↦
          let bytes = digest (concat user_identity entropy) in
          let le : n ≤ 24 = ground arith in
          let k = spell-IsSpelt characters (take n bytes) some_char in
          let e = length-take n bytes (omega (arith, le, long (concat user_identity entropy))) in
          inl (
            ground arith,
            le,
            (
              spell characters (take n bytes),
              rw (good, upper _ k.had) refl,
              record { sized = k.sized ∙ e; had = k.had },
            ),
          )
    ]
