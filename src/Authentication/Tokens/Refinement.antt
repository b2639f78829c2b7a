-- ===== src/Authentication/Tokens/Refinement.antt =====
-- Histories of src/core/authentication/storage/InMemoryTokenStore.ts, beside a function from keys to
-- tokens, which forgets nothing by itself.
use btps_sdk.Prelude.{
  ℕ, ◌≤◌, ◌≡◌, refl, ap, ◌∙◌, String, Option, none, some, List, [], ◌∷◌, ◌==◌, eq_iff, arith,
  if◌then◌else◌, or_else, Option-cases, Bool-cases, inl, inr, sym,
}
use btps_sdk.Authentication.Tokens.{
  TokenDocument, has_expired, Issue, document_of, Tokens, check_expiry, make_key, store_token,
  get_token, remove_token, cleanup_tokens,
}
use btps_sdk.JsMap.{get, set, delete}
use btps_sdk.JsMap.Laws.{
  get-set, get-delete, HasUniqueKeys, set-HasUniqueKeys, delete-HasUniqueKeys,
  delete_all-HasUniqueKeys, unless, get-delete_all-keys_where,
}

-- A call of the store, with its time.
pub data Call : Type 0 where
  store : (now : ℕ) → Issue → Call
  lookup : (now : ℕ) (agent_id token : String) → Call
  remove : (now : ℕ) (agent_id token : String) → Call
  cleanup : (now : ℕ) → Call

abbrev pub time : Call → ℕ
time (store now i) = now
time (lookup now a t) = now
time (remove now a t) = now
time (cleanup now) = now

-- The clock does not go back.
abbrev pub IsTimed : ℕ → List Call → Type 0
IsTimed now [] = Unit
IsTimed now (c ∷ cs) = (now ≤ time c) × IsTimed (time c) cs

abbrev pub Table : Type 0
Table = String → Option TokenDocument

abbrev put : String → Option TokenDocument → Table → Table
put key d table k = if key == k then d else table k

module _ (digest : String → String) where
  -- What the lookups of a history find.
  unfoldable pub found : List Call → Tokens → List (Option TokenDocument)
  found [] m = []
  found (store now i ∷ cs) m = found cs (store_token digest now i m)
  found (lookup now a t ∷ cs) m = let (m', d) = get_token digest now a t m in d ∷ found cs m'
  found (remove now a t ∷ cs) m = found cs (remove_token digest a t m)
  found (cleanup now ∷ cs) m = found cs (cleanup_tokens now m)

  -- What they should find: the last token stored under the key, unless it was removed or its time
  -- has passed.
  unfoldable pub expected : List Call → Table → List (Option TokenDocument)
  expected [] table = []
  expected (store now i ∷ cs) table = expected cs (
      put (make_key digest (or_else i.agent_id i.user_identity) i.token) (some (document_of now i))
        table)
  expected (lookup now a t ∷ cs) table =
      unless (has_expired now) (table (make_key digest a t)) ∷ expected cs table
  expected (remove now a t ∷ cs) table = expected cs (put (make_key digest a t) none table)
  expected (cleanup now ∷ cs) table = expected cs table

  -- The two hold the same tokens, expired ones aside.
  record Agree (now : ℕ) (m : Tokens) (table : Table) : Type 0 where
    unique : HasUniqueKeys m
    same : (k : String) → unless (has_expired now) (get k m) ≡ unless (has_expired now) (table k)

  unless-has_expired :
      (now later : ℕ) (o : Option TokenDocument)
      → now ≤ later
      → unless (has_expired later) (unless (has_expired now) o) ≡ unless (has_expired later) o
  unless-has_expired now later none h = refl
  unless-has_expired now later (some d) h = ground arith

  Agree-later :
      (now later : ℕ) (m : Tokens) (table : Table)
      → now ≤ later
      → Agree now m table
      → Agree later m table
  Agree-later now later m table h a = record {
    unique = a.unique;
    same = λ k.
        sym (unless-has_expired now later (get k m) h)
        ∙ ap (unless (has_expired later)) (a.same k)
        ∙ unless-has_expired now later (table k) h;
  }

  Agree-set :
      (now : ℕ) (key : String) (d : TokenDocument) (m : Tokens) (table : Table)
      → Agree now m table
      → Agree now (set key d m) (put key (some d) table)
  Agree-set now key d m table a = record {
    unique = set-HasUniqueKeys key d m a.unique;
    same = λ k. ground (arith, get-set key k d m, a.same k);
  }

  Agree-delete :
      (now : ℕ) (key : String) (m : Tokens) (table : Table)
      → Agree now m table
      → Agree now (delete key m) (put key none table)
  Agree-delete now key m table a = record {
    unique = delete-HasUniqueKeys key m a.unique;
    same = λ k. ground (arith, get-delete key k m, a.same k);
  }

  Agree-check_expiry :
      (now : ℕ) (key : String) (m : Tokens) (table : Table)
      → Agree now m table
      → Agree now (check_expiry now key (get key m) m).0 table
        × ((check_expiry now key (get key m) m).1 ≡ unless (has_expired now) (table key))
  Agree-check_expiry now key m table a = elim (Option-cases (get key m)) [
    | inl miss ↦ rw miss (a, ground (arith, a.same key))
    | inr (d, hit) ↦ elim (Bool-cases (has_expired now d)) [
      | inl old ↦
          rw (hit, old)
            (
              record {
                unique = delete-HasUniqueKeys key m a.unique;
                same = λ k. ground (arith, get-delete key k m, a.same k, a.same key, eq_iff key k);
              },
              ground (arith, a.same key),
            )
      | inr fresh ↦ rw (hit, fresh) (a, ground (arith, a.same key))
    ]
  ]

  Agree-cleanup :
      (now : ℕ) (m : Tokens) (table : Table)
      → Agree now m table
      → Agree now (cleanup_tokens now m) table
  unfolding cleanup_tokens
  Agree-cleanup now m table a = record {
    unique = delete_all-HasUniqueKeys _ m a.unique;
    same = λ k.
        rw (get-delete_all-keys_where (has_expired now) k m a.unique)
          (unless-has_expired now now (get k m) (omega arith) ∙ a.same k);
  }

  found-Agree :
      (cs : List Call) (now : ℕ) (m : Tokens) (table : Table)
      → IsTimed now cs
      → Agree now m table
      → found cs m ≡ expected cs table
  unfolding found expected store_token get_token remove_token
  found-Agree [] now m table h a = refl
  found-Agree (store t i ∷ cs) now m table (h, hs) a =
      found-Agree cs t _ _ hs (Agree-set t _ _ m table (Agree-later now t m table h a))
  found-Agree (lookup t x y ∷ cs) now m table (h, hs) a =
      let (kept, e) =
        Agree-check_expiry t (make_key digest x y) m table (Agree-later now t m table h a) in
      cc (e, found-Agree cs t _ table hs kept)
  found-Agree (remove t x y ∷ cs) now m table (h, hs) a =
      found-Agree cs t _ _ hs (Agree-delete t _ m table (Agree-later now t m table h a))
  found-Agree (cleanup t ∷ cs) now m table (h, hs) a =
      found-Agree cs t _ table hs (Agree-cleanup t m table (Agree-later now t m table h a))

  -- In a history of calls on a new store whose times do not go back, every lookup finds the token
  -- that was stored last under its key, unless that was removed or its time has passed.
  pub found-expected :
      (cs : List Call) (now : ℕ) → IsTimed now cs → found cs [] ≡ expected cs (λ k. none)
  unfolding get
  found-expected cs now h =
      found-Agree cs now [] (λ k. none) h (record { unique = tt; same = λ k. refl })
