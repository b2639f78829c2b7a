-- ===== src/RateLimiter/Tests.antt =====
-- Runs of the rate limiter, and the theorems at inputs that exercise it.
use btps_sdk.Prelude.{◌+◌, ◌≡◌, refl, true, false, none, some, List, [], ◌∷◌, arith}
use Prim.Native.Nat.{min, max}
use btps_sdk.JsMap
use btps_sdk.RateLimiter.{Options, from_identity, Limiter, init, cleanup, is_allowed}
use btps_sdk.RateLimiter.Bounds.{granted, granted-window}
use btps_sdk.RateLimiter.Timer.{Event, call, sweep, answers, calls, answers-calls}

limiter : Unit {0}
unfolding init cleanup is_allowed granted answers JsMap.get JsMap.set JsMap.keys_where
    JsMap.delete_all JsMap.delete
limiter = tt

abbrev fresh : Limiter
fresh = record {
  identity_limit = 2;
  ip_limit = 50;
  cleanup_interval_ms = 30;
  ip_counters = [];
  identity_counters = [];
}

abbrev history : List Event
history =
    call 5000 "a" from_identity
    ∷ call 5100 "a" from_identity
    ∷ sweep 5200
    ∷ call 5900 "a" from_identity
    ∷ sweep 6500
    ∷ call 6600 "a" from_identity
    ∷ []

-- `cleanupIntervalSec` is used as milliseconds where it is given.
interval_of_thirty :
    let o : Options = record {
      ip_address = none;
      from_identity = none;
      cleanup_interval_sec = some 30;
    } in
    (init o).cleanup_interval_ms ≡ 30
unfolding limiter init
interval_of_thirty = refl

answers-history : answers history fresh ≡ true ∷ true ∷ false ∷ true ∷ []
unfolding limiter
answers-history = refl

granted-window_example : (granted 2 "a" (5000 ∷ 5100 ∷ 5200 ∷ []) []).0 ≡ min (2 + 1) (max 1 2)
unfolding JsMap.get
granted-window_example = granted-window 2 "a" 5000 (5100 ∷ 5200 ∷ []) [] refl (omega arith)

answers-calls_example : answers history fresh ≡ answers (calls history) fresh
answers-calls_example =
    answers-calls history 5000 fresh (record { ip = tt; identity = tt }) (omega arith)
