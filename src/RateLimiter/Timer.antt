-- ===== src/RateLimiter/Timer.antt =====
-- Histories of src/server/libs/btpsSimpleRateLimiter.ts: its calls and the runs of its timer.
use btps_sdk.Prelude.{
  ℕ, ◌+◌, ◌≤◌, ◌≡◌, refl, ap, String, Bool, none, some, Option, List, [], ◌∷◌, arith, eq_iff,
  Option-cases, inl, inr, if◌then◌else◌, leb, ◌==◌, subst, ◌∙◌,
}
use btps_sdk.JsMap.{JsMap, get}
use btps_sdk.JsMap.Laws.{HasUniqueKeys, get-delete_all-keys_where, get-set, unless}
use btps_sdk.RateLimiter.{
  Counter, Kind, ip_address, from_identity, Limiter, is_old, filter_old, cleanup, allow, is_allowed,
}
use btps_sdk.RateLimiter.Cleanup.{
  IsValid, is_allowed-IsValid, cleanup-IsValid, allow-answer, unless-is_old,
}

-- What happens to a limiter, with the time at which it does.
pub data Event : Type 0 where
  call : (now : ℕ) → String → Kind → Event
  sweep : (now : ℕ) → Event

abbrev pub time : Event → ℕ
time (call now k kind) = now
time (sweep now) = now

-- The answers of the calls, in order.
unfoldable pub answers : List Event → Limiter → List Bool
answers [] l = []
answers (call now k kind ∷ es) l =
    let (l', allowed) = is_allowed now k kind l in allowed ∷ answers es l'
answers (sweep now ∷ es) l = answers es (cleanup now l)

-- The history without the timer.
abbrev pub calls : List Event → List Event
calls [] = []
calls (call now k kind ∷ es) = call now k kind ∷ calls es
calls (sweep now ∷ es) = calls es

-- The clock does not go back.
abbrev pub IsTimed : ℕ → List Event → Type 0
IsTimed now [] = Unit
IsTimed now (e ∷ es) = (now ≤ time e) × IsTimed (time e) es

-- The two hold the same counters, old ones aside.
abbrev Agree : ℕ → JsMap Counter → JsMap Counter → Type 0
Agree now m m' = (k : String) → unless (is_old now) (get k m) ≡ unless (is_old now) (get k m')

Agree-later : (now t : ℕ) (m m' : JsMap Counter) → now ≤ t → Agree now m m' → Agree t m m'
Agree-later now t m m' h a k =
    let live = ap (unless (is_old t)) (a k) in
    rw (← unless-is_old now t (get k m) h, ← unless-is_old now t (get k m') h) live

-- What a call leaves for its key, from the live counter that it found.
abbrev next : ℕ → ℕ → Option Counter → Option Counter
next limit now none = some (record { count = 1; window_start = now })
next limit now (some c) =
    if leb limit c.count then some c else some (record c { count = c.count + 1 })

get-allow :
    (limit now : ℕ) (k j : String) (m : JsMap Counter)
    → unless (is_old now) (get j (allow limit now k m).0) ≡ (
        if k == j
        then next limit now (unless (is_old now) (get k m))
        else unless (is_old now) (get j m))
unfolding allow
get-allow limit now k j m = elim (Option-cases (get k m)) [
  | inl miss ↦ rw (miss, allow) (rw get-set (ground (arith, eq_iff k j)))
  | inr (c, hit) ↦
      let opened : Counter = record { count = 1; window_start = now } in
      let counted : Counter = record c { count = c.count + 1 } in
      rw (hit, allow) (ground (arith, get-set k j opened m, get-set k j counted m, eq_iff k j, hit))
]

allow-Agree :
    (limit now : ℕ) (k : String) (m m' : JsMap Counter)
    → Agree now m m'
    → Agree now (allow limit now k m).0 (allow limit now k m').0
allow-Agree limit now k m m' a j =
    rw (get-allow limit now k j m, get-allow limit now k j m', a k, a j)

record Sim (now : ℕ) (l l' : Limiter) : Type 0 where
  valid : IsValid l
  identity_limit : l.identity_limit ≡ l'.identity_limit
  ip_limit : l.ip_limit ≡ l'.ip_limit
  ip : Agree now l.ip_counters l'.ip_counters
  identity : Agree now l.identity_counters l'.identity_counters

allow_both :
    (limit limit' now : ℕ) (k : String) (m m' : JsMap Counter)
    → limit ≡ limit'
    → Agree now m m'
    → ((allow limit now k m).1 ≡ (allow limit' now k m').1)
      × Agree now (allow limit now k m).0 (allow limit' now k m').0
allow_both limit limit' now k m m' e a =
    subst
      (λ n.
        ((allow limit now k m).1 ≡ (allow n now k m').1)
        × Agree now (allow limit now k m).0 (allow n now k m').0)
      e (allow-answer limit now k m m' (a k), allow-Agree limit now k m m' a)

Sim-later : (now t : ℕ) (l l' : Limiter) → now ≤ t → Sim now l l' → Sim t l l'
Sim-later now t l l' h s = record {
  valid = s.valid;
  identity_limit = s.identity_limit;
  ip_limit = s.ip_limit;
  ip = Agree-later now t l.ip_counters l'.ip_counters h s.ip;
  identity = Agree-later now t l.identity_counters l'.identity_counters h s.identity;
}

Sim-is_allowed :
    (t : ℕ) (k : String) (kind : Kind) (l l' : Limiter)
    → Sim t l l'
    → ((is_allowed t k kind l).1 ≡ (is_allowed t k kind l').1)
      × Sim t (is_allowed t k kind l).0 (is_allowed t k kind l').0
unfolding is_allowed
Sim-is_allowed t k ip_address l l' s =
    let (same, agree) =
      allow_both l.ip_limit l'.ip_limit t k l.ip_counters l'.ip_counters s.ip_limit s.ip in
    (
      same,
      record {
        valid = is_allowed-IsValid t k ip_address l s.valid;
        identity_limit = s.identity_limit;
        ip_limit = s.ip_limit;
        ip = agree;
        identity = s.identity;
      },
    )
Sim-is_allowed t k from_identity l l' s =
    let (same, agree) =
      allow_both l.identity_limit l'.identity_limit t k l.identity_counters l'.identity_counters
        s.identity_limit s.identity in
    (
      same,
      record {
        valid = is_allowed-IsValid t k from_identity l s.valid;
        identity_limit = s.identity_limit;
        ip_limit = s.ip_limit;
        ip = s.ip;
        identity = agree;
      },
    )

swept-Agree :
    (t : ℕ) (m m' : JsMap Counter) → HasUniqueKeys m → Agree t m m' → Agree t (filter_old t m) m'
swept-Agree t m m' u a k =
    rw (get-delete_all-keys_where (is_old t) k m u)
      (unless-is_old t t (get k m) (omega arith) ∙ a k)

Sim-cleanup : (t : ℕ) (l l' : Limiter) → Sim t l l' → Sim t (cleanup t l) l'
unfolding cleanup
Sim-cleanup t l l' s = record {
  valid = cleanup-IsValid t l s.valid;
  identity_limit = s.identity_limit;
  ip_limit = s.ip_limit;
  ip = swept-Agree t l.ip_counters l'.ip_counters s.valid.ip s.ip;
  identity = swept-Agree t l.identity_counters l'.identity_counters s.valid.identity s.identity;
}

answers-Sim :
    (es : List Event) (now : ℕ) (l l' : Limiter)
    → IsTimed now es
    → Sim now l l'
    → answers es l ≡ answers (calls es) l'
unfolding answers
answers-Sim [] now l l' h s = refl
answers-Sim (call t k kind ∷ es) now l l' (h, hs) s =
    let (same, s') = Sim-is_allowed t k kind l l' (Sim-later now t l l' h s) in
    cc (same, answers-Sim es t (is_allowed t k kind l).0 (is_allowed t k kind l').0 hs s')
answers-Sim (sweep t ∷ es) now l l' (h, hs) s =
    answers-Sim es t (cleanup t l) l' hs (Sim-cleanup t l l' (Sim-later now t l l' h s))

-- Whenever the timer runs, every call of a history whose times do not go back gets the answer
-- that it gets in the same history without the timer.
pub answers-calls :
    (es : List Event) (now : ℕ) (l : Limiter)
    → IsValid l
    → IsTimed now es
    → answers es l ≡ answers (calls es) l
answers-calls es now l v h = answers-Sim es now l l h (record {
  valid = v;
  identity_limit = refl;
  ip_limit = refl;
  ip = λ k. refl;
  identity = λ k. refl;
})
