-- ===== src/Middleware/Order.antt =====
-- The order in which the middleware run.
use btps_sdk.Prelude.{
  ℕ, ◌≤◌, ◌≡◌, refl, Bool, List, [], ◌∷◌, filter, All, arith, leb, eqb, leb→le, if◌then◌else◌,
  Bool-cases, inl, inr, All-filter, ap, ◌∙◌,
}
use btps_sdk.Middleware.{Definition, rank, insert, sort}

module _ {H : Type 0} where
  -- Each entry's rank is at most that of every later one.
  abbrev pub IsSorted : List (Definition H) → Type 0
  IsSorted [] = Unit
  IsSorted (d ∷ ds) = All (λ e. rank d ≤ rank e) ds × IsSorted ds

  All-le_trans :
      (n m : ℕ) (ds : List (Definition H))
      → n ≤ m
      → All (λ e. m ≤ rank e) ds
      → All (λ e. n ≤ rank e) ds
  All-le_trans n m [] h a = tt
  All-le_trans n m (d ∷ ds) h (a, rest) = (omega arith, All-le_trans n m ds h rest)

  All-insert :
      (n : ℕ) (d : Definition H) (es : List (Definition H))
      → n ≤ rank d
      → All (λ e. n ≤ rank e) es
      → All (λ e. n ≤ rank e) (insert d es)
  unfolding insert
  All-insert n d [] h a = (h, tt)
  All-insert n d (e ∷ es) h (a, rest) = ground (arith, All-insert n d es h rest)

  insert-IsSorted :
      (d : Definition H) (es : List (Definition H)) → IsSorted es → IsSorted (insert d es)
  unfolding insert
  insert-IsSorted d [] s = (tt, tt)
  insert-IsSorted d (e ∷ es) (a, s) = elim (Bool-cases (leb (rank d) (rank e))) [
    | inl le ↦ rw le ((leb→le _ _ le, All-le_trans (rank d) (rank e) es (leb→le _ _ le) a), (a, s))
    | inr gt ↦ rw gt (All-insert (rank e) d es (ground arith) a, insert-IsSorted d es s)
  ]

  pub sort-IsSorted : (ds : List (Definition H)) → IsSorted (sort ds)
  unfolding sort
  sort-IsSorted [] = tt
  sort-IsSorted (d ∷ ds) = insert-IsSorted d (sort ds) (sort-IsSorted ds)

  -- The entries of one rank.
  abbrev pub ranked : ℕ → List (Definition H) → List (Definition H)
  ranked n = filter (λ d. eqb (rank d) n)

  ranked-insert :
      (n : ℕ) (d : Definition H) (es : List (Definition H))
      → ranked n (insert d es) ≡ ranked n (d ∷ es)
  unfolding insert filter
  ranked-insert n d [] = refl
  ranked-insert n d (e ∷ es) = ground (arith, ranked-insert n d es)

  pub ranked-sort : (n : ℕ) (ds : List (Definition H)) → ranked n (sort ds) ≡ ranked n ds
  unfolding sort filter
  ranked-sort n [] = refl
  ranked-sort n (d ∷ ds) =
      ranked-insert n d (sort ds) ∙ ap (λ l. if eqb (rank d) n then d ∷ l else l) (ranked-sort n ds)

  pub filter-IsSorted :
      (p : Definition H → Bool) (ds : List (Definition H)) → IsSorted ds → IsSorted (filter p ds)
  unfolding filter
  filter-IsSorted p [] s = tt
  filter-IsSorted p (d ∷ ds) (a, s) =
      ground (arith, All-filter (λ e. rank d ≤ rank e) p ds a, filter-IsSorted p ds s)

  filter_comm :
      (p q : Definition H → Bool) (ds : List (Definition H))
      → filter p (filter q ds) ≡ filter q (filter p ds)
  unfolding filter
  filter_comm p q [] = refl
  filter_comm p q (d ∷ ds) = ground (arith, filter_comm p q ds)

  -- The entries of one rank among those for a phase and a step, after sorting.
  pub ranked-filter-sort :
      (p : Definition H → Bool) (n : ℕ) (ds : List (Definition H))
      → ranked n (filter p (sort ds)) ≡ ranked n (filter p ds)
  ranked-filter-sort p n ds =
      filter_comm (λ d. eqb (rank d) n) p (sort ds)
      ∙ ap (filter p) (ranked-sort n ds)
      ∙ filter_comm p (λ d. eqb (rank d) n) ds
