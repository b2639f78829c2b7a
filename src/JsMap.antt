-- ===== src/JsMap.antt =====
-- `Map<string, V>` of the language: an association list in insertion order, with each key once.
-- A write to a present key keeps its place, as the language's `set` does.
pub mod Laws
use btps_sdk.Prelude.{String, Bool, Option, none, some, List, [], ◌∷◌, map, ◌==◌, if◌then◌else◌}

abbrev pub JsMap {ℓ} : Type ℓ → Type ℓ
JsMap V = List (String × V)

module _ {ℓ} {V : Type ℓ} where
  unfoldable pub get : String → JsMap V → Option V
  get k [] = none
  get k ((j, v) ∷ m) = if j == k then some v else get k m

  unfoldable pub set : String → V → JsMap V → JsMap V
  set k v [] = (k, v) ∷ []
  set k v ((j, w) ∷ m) = if j == k then (k, v) ∷ m else (j, w) ∷ set k v m

  unfoldable pub delete : String → JsMap V → JsMap V
  delete k [] = []
  delete k ((j, w) ∷ m) = if j == k then delete k m else (j, w) ∷ delete k m

  abbrev pub keys : JsMap V → List String
  keys m = map (λ e. e.0) m

  abbrev pub values : JsMap V → List V
  values m = map (λ e. e.1) m

  -- The keys whose value passes a test, in order: the first loop of the stores' `cleanup`.
  unfoldable pub keys_where : (V → Bool) → JsMap V → List String
  keys_where p [] = []
  keys_where p ((j, w) ∷ m) = if p w then j ∷ keys_where p m else keys_where p m

  -- Deletes the listed keys one after the other: their second loop.
  unfoldable pub delete_all : List String → JsMap V → JsMap V
  delete_all [] m = m
  delete_all (k ∷ ks) m = delete_all ks (delete k m)
