-- ===== src/Trust/Ids.antt =====
-- What the identifier of a pair of identities can tell apart.
use Prim.Native.String
use text.Mathlib.TextLemmas.{append_assoc}
use btps_sdk.Prelude.{◌≡◌, String}
use btps_sdk.Trust.{compute_trust_id}

-- A colon that an identity holds cannot be told from the separator: the pairs `a:b`, `c` and `a`,
-- `b:c` have one identifier, for every `a`, `b` and `c`.
pub compute_trust_id-colon :
    (digest : String → String) (a b c : String)
    → compute_trust_id digest (String.◌++◌ a (String.◌++◌ ":" b)) c
      ≡ compute_trust_id digest a (String.◌++◌ b (String.◌++◌ ":" c))
unfolding compute_trust_id
compute_trust_id-colon digest a b c = simp append_assoc
