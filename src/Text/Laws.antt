-- ===== src/Text/Laws.antt =====
-- Splitting at a separator.
use Prim.Native.Char.{Char, code}
use text.Mathlib.TextLemmas.{nil-append, cons-append}
use btps_sdk.Prelude.{ℕ, ◌≡◌, refl, String, true, false, [], ◌∷◌, eqb}
use btps_sdk.Text.{concat, split}

-- No character of the text has the code.
abbrev pub Lacks : ℕ → String → Type 0
Lacks n String.[] = Unit
Lacks n (String.◌∷◌ c s) = (eqb (code c) n ≡ false) × Lacks n s

pub split_of_Lacks : (n : ℕ) (s : String) → Lacks n s → split n s ≡ s ∷ []
unfolding split
split_of_Lacks n String.[] h = refl
split_of_Lacks n (String.◌∷◌ c s) (h, hs) = rw (h, split_of_Lacks n s hs)

-- The part before the first separator is the first one.
pub split-append :
    (n : ℕ) (s : String) (c : Char) (t : String)
    → Lacks n s
    → eqb (code c) n ≡ true
    → split n (concat s (String.◌∷◌ c t)) ≡ s ∷ split n t
unfolding split
split-append n String.[] c t h e = rw (nil-append, split) (rw e)
split-append n (String.◌∷◌ d s) c t (h, hs) e =
    rw (cons-append, split) (rw (h, split-append n s c t hs e))
