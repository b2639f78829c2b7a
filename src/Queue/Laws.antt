-- ===== src/Queue/Laws.antt =====
-- What is pending after a message was added, and after one was handled.
use btps_sdk.Prelude.{
  ◌≡◌, refl, ap, ◌∙◌, sym, String, Bool, Option, none, some, List, [], ◌∷◌, ◌++◌, ◌==◌, arith,
  or_else, filter, Bool-cases, inl, inr,
}
use btps_sdk.JsMap.{get}
use btps_sdk.Json.{Fields}
use btps_sdk.Queue.{Queues, flat, get_pending, has_other_id, mark_handled}

filter-append :
    (p : Fields → Bool) (xs ys : List Fields) → filter p (xs ++ ys) ≡ filter p xs ++ filter p ys
unfolding filter
filter-append p [] ys = refl
filter-append p (x ∷ xs) ys = ground (arith, filter-append p xs ys)

flat-mark_handled :
    (id : String) (q : Queues) → flat (mark_handled id q) ≡ filter (has_other_id id) (flat q)
unfolding flat mark_handled filter
flat-mark_handled id [] = refl
flat-mark_handled id ((k, ms) ∷ q) =
    ap (◌++◌ (filter (has_other_id id) ms)) (flat-mark_handled id q)
    ∙ sym (filter-append (has_other_id id) ms (flat q))

get-mark_handled :
    (id k : String) (q : Queues)
    → or_else (get k (mark_handled id q)) [] ≡ filter (has_other_id id) (or_else (get k q) [])
unfolding get mark_handled filter
get-mark_handled id k [] = refl
get-mark_handled id k ((j, ms) ∷ q) = ground (arith, get-mark_handled id k q)

-- Handling an id takes every message with that id out of what is pending, for each identity and for
-- all, and leaves the others in their order.
pub get_pending-mark_handled :
    (id : String) (identity : Option String) (q : Queues)
    → get_pending identity (mark_handled id q) ≡ filter (has_other_id id) (get_pending identity q)
unfolding get_pending
get_pending-mark_handled id none q = flat-mark_handled id q
get_pending-mark_handled id (some k) q = elim (Bool-cases (k == "")) [
  | inl blank ↦ rw blank (flat-mark_handled id q)
  | inr named ↦ rw named (get-mark_handled id k q)
]
