-- ===== src/Dns/Laws.antt =====
-- What the reading of TXT records makes of the padding of base64.
use Prim.Native.Char.{code}
use text.Mathlib.TextLemmas.{nil-append, cons-append}
use btps_sdk.Prelude.{ℕ, ◌≡◌, refl, ap, ◌∙◌, eqb, Bool-cases, inl, inr, String, List, [], ◌∷◌}
use btps_sdk.Text.{concat, split, trim, join}
use btps_sdk.Text.Laws.{Lacks, split_of_Lacks, split-append}
use btps_sdk.Dns.{from_entries, txt_parts}

sign-append : (t : String) → concat "=" t ≡ String.◌∷◌ "=" t
sign-append t = cons-append "=" "" t ∙ ap (String.◌∷◌ "=") (nil-append t)

-- The first part of a split, and that there is one.
split-cons : (n : ℕ) (s : String) → (p : String) × (ps : List String) × (split n s ≡ p ∷ ps)
unfolding split
split-cons n String.[] = ("", [], refl)
split-cons n (String.◌∷◌ c s) =
    let (p, ps, e) = split-cons n s in
    elim (Bool-cases (eqb (code c) n)) [
      | inl h ↦ ("", split n s, rw h)
      | inr h ↦ (String.◌∷◌ c p, ps, rw (h, e))
    ]

split-padded :
    (k v w : String)
    → Lacks b'=' k
    → Lacks b'=' v
    → (p : String) × (ps : List String) × (split b'='
          (concat k (concat "=" (concat v (concat "=" w))))
        ≡ k ∷ v ∷ p ∷ ps)
split-padded k v w lk lv =
    let (p, ps, e) = split-cons b'=' w in
    (
      p,
      ps,
      rw (sign-append w, sign-append (concat v (String.◌∷◌ "=" w)))
          (rw (
            split-append b'=' k "=" (concat v (String.◌∷◌ "=" w)) lk refl,
            split-append b'=' v "=" w lv refl,
            e,
          )),
    )

-- A record of one text without `;` that holds a key, a value and a second `=`, as the padding of
-- base64 brings one, gives no part at all.
pub txt_parts-padded :
    (text k v w : String)
    → Lacks b';' text
    → trim text ≡ concat k (concat "=" (concat v (concat "=" w)))
    → Lacks b'=' k
    → Lacks b'=' v
    → txt_parts ((text ∷ []) ∷ []) ≡ []
unfolding txt_parts join from_entries
txt_parts-padded text k v w one e lk lv =
    let (p, ps, s) = split-padded k v w lk lv in rw (split_of_Lacks b';' text one, e, s)
