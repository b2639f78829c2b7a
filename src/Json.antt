-- ===== src/Json.antt =====
-- JSON values as `JSON.parse` gives them, with the fields of an object in order. Numbers are the
-- naturals: the program computes with none of a message's numbers.
pub mod Laws
use btps_sdk.Prelude.{ℕ, String, Bool, true, false, Option, none, some, ◌==◌, if◌then◌else◌}

mutual
  pub data Json : Type 0 where
    null : Json
    bool : Bool → Json
    num : ℕ → Json
    str : String → Json
    arr : Items → Json
    obj : Fields → Json

  pub data Items : Type 0 where
    nil : Items
    cons : Json → Items → Items

  pub data Fields : Type 0 where
    end : Fields
    field : String → Json → Fields → Fields

-- `o[k]`, with `none` for undefined.
unfoldable pub get_field : String → Fields → Option Json
get_field k end = none
get_field k (field j v fs) = if j == k then some v else get_field k fs

-- `{ ...o, k: v }`: a present key keeps its place.
unfoldable pub set_field : String → Json → Fields → Fields
set_field k v end = field k v end
set_field k v (field j w fs) = if j == k then field k v fs else field j w (set_field k v fs)

-- `const { k: _, ...rest } = o`
unfoldable pub without : String → Fields → Fields
without k end = end
without k (field j w fs) = if j == k then without k fs else field j w (without k fs)

abbrev pub string_of : Option Json → Option String
string_of (some (str s)) = some s
string_of _ = none

-- The text of a field that the schema requires. The default stands for a value that the template
-- literals of the source would print, which a validated message does not reach.
abbrev pub text_at : String → Fields → String
text_at k o = elim (string_of (get_field k o)) [ none ↦ "undefined" | some s ↦ s ]

abbrev pub fields_of : Option Json → Option Fields
fields_of (some (obj fs)) = some fs
fields_of _ = none

-- Whether a value is truthy, as far as a document or a delegation can be.
abbrev pub is_truthy : Option Json → Bool
is_truthy none = false
is_truthy (some null) = false
is_truthy (some (bool b)) = b
is_truthy (some (num ℕ.zero)) = false
is_truthy (some (str s)) = if s == "" then false else true
is_truthy (some _) = true
