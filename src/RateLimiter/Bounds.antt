-- ===== src/RateLimiter/Bounds.antt =====
-- How many calls for a key src/server/libs/btpsSimpleRateLimiter.ts grants.
use btps_sdk.Prelude.{
  ℕ, ◌+◌, ◌≤◌, ◌≡◌, String, true, false, none, some, List, [], ◌∷◌, leb, leb→le, if◌then◌else◌,
  arith, All, length, Bool-cases, inl, inr, ◌-◌,
}
use Prim.Native.Nat.{min, max}
use btps_sdk.JsMap.{JsMap, get, set}
use btps_sdk.JsMap.Laws.{get-set_self, unless}
use btps_sdk.RateLimiter.{Counter, is_old, allow}

-- A run of calls for one key at the given times: how many were granted, and the counters left.
unfoldable pub granted : ℕ → String → List ℕ → JsMap Counter → ℕ × JsMap Counter
granted limit identity [] m = (0, m)
granted limit identity (now ∷ times) m =
    let (m', ok) = allow limit now identity m in
    let rest = granted limit identity times m' in (if ok then rest.0 + 1 else rest.0, rest.1)

-- The times stay in the window that started at `start`.
abbrev pub Within : ℕ → List ℕ → Type 0
Within start times = All (λ t. t ≤ start + 1000) times

module _ (limit : ℕ) (identity : String) where
  allow_counted :
      (now : ℕ) (m : JsMap Counter) (c : Counter)
      → get identity m ≡ some c
      → now ≤ c.window_start + 1000
      → allow limit now identity m ≡ (
          if leb limit c.count
          then (m, false)
          else (set identity (record c { count = c.count + 1 }) m, true))
  unfolding allow
  allow_counted now m c e h = rw (e, allow) (ground arith)

  allow_opened :
      (now : ℕ) (m : JsMap Counter)
      → unless (is_old now) (get identity m) ≡ none
      → allow limit now identity m
        ≡ (set identity (record { count = 1; window_start = now }) m, true)
  unfolding allow
  allow_opened now m e = ground arith

  granted_inside :
      (times : List ℕ) (m : JsMap Counter) (c : Counter)
      → get identity m ≡ some c
      → Within c.window_start times
      → (granted limit identity times m).0 ≡ min (length times) (limit - c.count)
  unfolding granted
  granted_inside [] m c e h = omega arith
  granted_inside (now ∷ times) m c e (h, hs) = elim (Bool-cases (leb limit c.count)) [
    | inl full ↦
        rw (allow_counted now m c e h, full)
          (omega (arith, granted_inside times m c e hs, leb→le limit c.count full))
    | inr room ↦
        let c' : Counter = record c { count = c.count + 1 } in
        let m' = set identity c' m in
        rw (allow_counted now m c e h, room)
          (ground (arith, granted_inside times m' c' (get-set_self identity c' m) hs))
  ]

  -- A window opens with a call that finds no counter, or one more than a second old. Of that call
  -- and the later ones of the same window, exactly the first `max 1 limit` are granted.
  pub granted-window :
      (now : ℕ) (times : List ℕ) (m : JsMap Counter)
      → unless (is_old now) (get identity m) ≡ none
      → Within now times
      → (granted limit identity (now ∷ times) m).0 ≡ min (length times + 1) (max 1 limit)
  unfolding granted
  granted-window now times m e h =
      let c : Counter = record { count = 1; window_start = now } in
      rw (allow_opened now m e)
        (omega (arith, granted_inside times (set identity c m) c (get-set_self identity c m) h))
