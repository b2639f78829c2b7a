-- ===== src/RateLimiter.antt =====
-- src/server/libs/btpsSimpleRateLimiter.ts: fixed windows of a second, one counter for each key.
-- `Date.now()` is the argument `now`. `now - 1000` would be negative only in the first second of
-- 1970, so `ts < now - 1000` is written `ts + 1000 < now`.
pub mod Bounds
pub mod Cleanup
pub mod Timer
mod Tests
use btps_sdk.Prelude.{
  ℕ, ◌+◌, ◌*◌, String, Bool, true, false, Option, none, some, List, [], ◌∷◌, ltb, leb,
  if◌then◌else◌, or_else,
}
use btps_sdk.JsMap.{JsMap, get, set, keys_where, delete_all}

-- `CounterRecord`
pub record Counter : Type 0 where
  pub count : ℕ
  pub window_start : ℕ

-- `IRateLimitOptions`
pub record Options : Type 0 where
  pub ip_address : Option ℕ
  pub from_identity : Option ℕ
  pub cleanup_interval_sec : Option ℕ

pub data Kind : Type 0 where
  ip_address from_identity : Kind

pub record Limiter : Type 0 where
  pub identity_limit : ℕ
  pub ip_limit : ℕ
  pub cleanup_interval_ms : ℕ
  pub ip_counters : JsMap Counter
  pub identity_counters : JsMap Counter

-- The constructor; the timer that it starts is a call of `cleanup` by the environment.
unfoldable pub init : Options → Limiter
init o = record {
  identity_limit = or_else o.from_identity 10;
  ip_limit = or_else o.ip_address 50;
  cleanup_interval_ms = or_else o.cleanup_interval_sec (60 * 1000);
  ip_counters = [];
  identity_counters = [];
}

abbrev pub is_old : ℕ → Counter → Bool
is_old now c = ltb (c.window_start + 1000) now

-- `filterOld`
abbrev pub filter_old : ℕ → JsMap Counter → JsMap Counter
filter_old now m = delete_all (keys_where (is_old now) m) m

unfoldable pub cleanup : ℕ → Limiter → Limiter
cleanup now l = record l {
  ip_counters = filter_old now l.ip_counters;
  identity_counters = filter_old now l.identity_counters;
}

-- What `isAllowed` does to the counters of the chosen kind.
unfoldable pub allow : ℕ → ℕ → String → JsMap Counter → JsMap Counter × Bool
allow limit now identity counters = elim (get identity counters) [
  | none ↦ (set identity (record { count = 1; window_start = now }) counters, true)
  | some c ↦
      if is_old now c
      then (set identity (record { count = 1; window_start = now }) counters, true)
      else if leb limit c.count
      then (counters, false)
      else (set identity (record c { count = c.count + 1 }) counters, true)
]

abbrev pub counters_of : Kind → Limiter → JsMap Counter
counters_of ip_address l = l.ip_counters
counters_of from_identity l = l.identity_counters

abbrev pub limit_of : Kind → Limiter → ℕ
limit_of ip_address l = l.ip_limit
limit_of from_identity l = l.identity_limit

abbrev pub with_counters : Kind → JsMap Counter → Limiter → Limiter
with_counters ip_address m l = record l { ip_counters = m }
with_counters from_identity m l = record l { identity_counters = m }

unfoldable pub is_allowed : ℕ → String → Kind → Limiter → Limiter × Bool
unfolding allow
is_allowed now identity kind l =
    let (m, allowed) = allow (limit_of kind l) now identity (counters_of kind l) in
    (with_counters kind m l, allowed)
