-- ===== src/Json/Laws.antt =====
-- What can be read from an object after a field was set or left out.
use btps_sdk.Prelude.{
  ◌≡◌, refl, ◌∙◌, String, false, none, some, ◌==◌, eq_iff, eq_refl, arith, if◌then◌else◌,
}
use btps_sdk.Json.{Json, Fields, end, field, get_field, set_field, without}

pub get_field-set_field :
    (k j : String) (v : Json) (fs : Fields)
    → get_field j (set_field k v fs) ≡ (if k == j then some v else get_field j fs)
unfolding get_field set_field
get_field-set_field k j v end = refl
get_field-set_field k j v (field i w fs) =
    ground (arith, eq_iff k j, eq_iff i k, eq_iff i j, get_field-set_field k j v fs)

pub get_field-without :
    (k j : String) (fs : Fields)
    → get_field j (without k fs) ≡ (if k == j then none else get_field j fs)
unfolding get_field without
get_field-without k j end = ground arith
get_field-without k j (field i w fs) =
    ground (arith, eq_iff k j, eq_iff i k, eq_iff i j, get_field-without k j fs)

pub without-absent : (k : String) (fs : Fields) → get_field k fs ≡ none → without k fs ≡ fs
unfolding get_field without
without-absent k end h = refl
without-absent k (field i w fs) h = ground (arith, without-absent k fs)

pub without-set_field :
    (k : String) (v : Json) (fs : Fields)
    → get_field k fs ≡ none
    → without k (set_field k v fs) ≡ fs
unfolding get_field set_field without
without-set_field k v end h = rw (eq_refl k) refl
without-set_field k v (field i w fs) h = ground (arith, without-set_field k v fs)

pub get_field-set_field_ne :
    (k j : String) (v : Json) (fs : Fields)
    → (k == j) ≡ false
    → get_field j (set_field k v fs) ≡ get_field j fs
get_field-set_field_ne k j v fs h = get_field-set_field k j v fs ∙ rw h refl

pub get_field-set_field_self :
    (k : String) (v : Json) (fs : Fields) → get_field k (set_field k v fs) ≡ some v
get_field-set_field_self k v fs = get_field-set_field k k v fs ∙ rw (eq_refl k) refl

pub get_field-without-none :
    (k j : String) (fs : Fields) → get_field j fs ≡ none → get_field j (without k fs) ≡ none
get_field-without-none k j fs h = ground (arith, get_field-without k j fs)

pub set_field-set_field :
    (k : String) (v w : Json) (fs : Fields) → set_field k v (set_field k w fs) ≡ set_field k v fs
unfolding set_field
set_field-set_field k v w end = rw (eq_refl k) refl
set_field-set_field k v w (field i u fs) = ground (arith, eq_refl k, set_field-set_field k v w fs)
