-- ===== src/JsMap/Laws.antt =====
-- What can be read from a map after each of its operations.
use btps_sdk.Prelude.{
  ◌≡◌, ◌≢◌, refl, String, Bool, true, false, Option, none, some, List, [], ◌∷◌, ◌==◌, eq_iff,
  eq_refl, if◌then◌else◌, arith, All, ◌∙◌,
}
use btps_sdk.JsMap.{JsMap, get, set, delete, keys, keys_where, delete_all}

module _ {ℓ} {V : Type ℓ} where
  pub get-set :
      (k j : String) (v : V) (m : JsMap V)
      → get j (set k v m) ≡ (if k == j then some v else get j m)
  unfolding get set
  get-set k j v [] = refl
  get-set k j v ((i, w) ∷ m) = ground (arith, eq_iff k j, eq_iff i k, eq_iff i j, get-set k j v m)

  pub get-delete :
      (k j : String) (m : JsMap V) → get j (delete k m) ≡ (if k == j then none else get j m)
  unfolding get delete
  get-delete k j [] = ground arith
  get-delete k j ((i, w) ∷ m) = ground (arith, eq_iff k j, eq_iff i k, eq_iff i j, get-delete k j m)

  pub get-set_self : (k : String) (v : V) (m : JsMap V) → get k (set k v m) ≡ some v
  get-set_self k v m = simp (get-set, eq_refl)

  pub get-delete_self : (k : String) (m : JsMap V) → get k (delete k m) ≡ none
  get-delete_self k m = simp (get-delete, eq_refl)

  pub get-set_ne : (k j : String) (v : V) (m : JsMap V) → k ≢ j → get j (set k v m) ≡ get j m
  get-set_ne k j v m h = ground (arith, get-set k j v m, eq_iff k j)

  pub get-delete_ne : (k j : String) (m : JsMap V) → k ≢ j → get j (delete k m) ≡ get j m
  get-delete_ne k j m h = ground (arith, get-delete k j m, eq_iff k j)

  -- No key twice, which the language guarantees of a map.
  abbrev pub IsFresh : String → JsMap V → Type 0
  IsFresh k m = All (λ j. (j == k) ≡ false) (keys m)

  abbrev pub HasUniqueKeys : JsMap V → Type 0
  HasUniqueKeys [] = Unit
  HasUniqueKeys ((k, v) ∷ m) = IsFresh k m × HasUniqueKeys m

  IsFresh-set :
      (i k : String) (v : V) (m : JsMap V) → (k == i) ≡ false → IsFresh i m → IsFresh i (set k v m)
  unfolding set
  IsFresh-set i k v [] h f = (h, tt)
  IsFresh-set i k v ((j, w) ∷ m) h f = ground (arith, IsFresh-set i k v m)

  pub set-HasUniqueKeys :
      (k : String) (v : V) (m : JsMap V) → HasUniqueKeys m → HasUniqueKeys (set k v m)
  unfolding set
  set-HasUniqueKeys k v [] h = (tt, tt)
  set-HasUniqueKeys k v ((j, w) ∷ m) (f, h) =
      ground (arith, eq_iff j k, eq_iff k j, set-HasUniqueKeys k v m h, IsFresh-set j k v m)

  IsFresh-delete : (i k : String) (m : JsMap V) → IsFresh i m → IsFresh i (delete k m)
  unfolding delete
  IsFresh-delete i k [] f = tt
  IsFresh-delete i k ((j, w) ∷ m) f = ground (arith, IsFresh-delete i k m)

  pub delete-HasUniqueKeys :
      (k : String) (m : JsMap V) → HasUniqueKeys m → HasUniqueKeys (delete k m)
  unfolding delete
  delete-HasUniqueKeys k [] h = tt
  delete-HasUniqueKeys k ((j, w) ∷ m) (f, h) =
      ground (arith, delete-HasUniqueKeys k m h, IsFresh-delete j k m)

  get_of_IsFresh : (k : String) (m : JsMap V) → IsFresh k m → get k m ≡ none
  unfolding get
  get_of_IsFresh k [] f = refl
  get_of_IsFresh k ((j, w) ∷ m) (f, fs) = rw f (get_of_IsFresh k m fs)

contains : String → List String → Bool
contains k [] = false
contains k (j ∷ js) = if j == k then true else contains k js

-- The value found, unless it passes the test.
abbrev pub unless {ℓ} : {V : Type ℓ} → (V → Bool) → Option V → Option V
unless p none = none
unless p (some v) = if p v then none else some v

module _ {ℓ} {V : Type ℓ} where
  get-delete_all :
      (ks : List String) (j : String) (m : JsMap V)
      → get j (delete_all ks m) ≡ (if contains j ks then none else get j m)
  unfolding delete_all contains
  get-delete_all [] j m = refl
  get-delete_all (k ∷ ks) j m = ground (arith, get-delete_all ks j (delete k m), get-delete k j m)

  pub delete_all-HasUniqueKeys :
      (ks : List String) (m : JsMap V) → HasUniqueKeys m → HasUniqueKeys (delete_all ks m)
  unfolding delete_all
  delete_all-HasUniqueKeys [] m h = h
  delete_all-HasUniqueKeys (k ∷ ks) m h =
      delete_all-HasUniqueKeys ks (delete k m) (delete-HasUniqueKeys k m h)

  contains-keys_where_fresh :
      (p : V → Bool) (j : String) (m : JsMap V) → IsFresh j m → contains j (keys_where p m) ≡ false
  unfolding contains keys_where
  contains-keys_where_fresh p j [] f = refl
  contains-keys_where_fresh p j ((i, w) ∷ m) (f, fs) =
      ground (arith, contains-keys_where_fresh p j m fs)

  selected :
      (p : V → Bool) (j : String) (m : JsMap V)
      → HasUniqueKeys m
      → (if contains j (keys_where p m) then none else get j m) ≡ unless p (get j m)
  unfolding contains keys_where get
  selected p j [] h = refl
  selected p j ((i, w) ∷ m) (f, h) =
      ground (arith, selected p j m h, contains-keys_where_fresh p i m f, eq_iff i j)

  -- With each key once, deleting the keys whose value passes the test leaves the others alone.
  pub get-delete_all-keys_where :
      (p : V → Bool) (j : String) (m : JsMap V)
      → HasUniqueKeys m
      → get j (delete_all (keys_where p m) m) ≡ unless p (get j m)
  get-delete_all-keys_where p j m h = get-delete_all (keys_where p m) j m ∙ selected p j m h
