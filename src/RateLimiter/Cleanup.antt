-- ===== src/RateLimiter/Cleanup.antt =====
-- Calls of src/server/libs/btpsSimpleRateLimiter.ts around its cleanup.
use btps_sdk.Prelude.{
  ℕ, ◌+◌, ◌≤◌, ◌≡◌, refl, String, none, some, Option, arith, Option-cases, inl, inr,
}
use btps_sdk.JsMap.{JsMap, get}
use btps_sdk.JsMap.Laws.{HasUniqueKeys, set-HasUniqueKeys, delete_all-HasUniqueKeys, unless}
use btps_sdk.JsMap.Laws.{get-delete_all-keys_where}
use btps_sdk.RateLimiter.{
  Counter, Kind, ip_address, from_identity, Limiter, is_old, cleanup, allow, is_allowed,
}

pub record IsValid (l : Limiter) : Type 0 where
  pub ip : HasUniqueKeys l.ip_counters
  pub identity : HasUniqueKeys l.identity_counters

allow-HasUniqueKeys :
    (limit now : ℕ) (k : String) (m : JsMap Counter)
    → HasUniqueKeys m
    → HasUniqueKeys (allow limit now k m).0
unfolding allow
allow-HasUniqueKeys limit now k m h = elim (Option-cases (get k m)) [
  | inl miss ↦ rw (miss, allow) (set-HasUniqueKeys k _ m h)
  | inr (c, hit) ↦
      rw (hit, allow)
        (ground (
          arith,
          set-HasUniqueKeys k (record { count = 1; window_start = now }) m h,
          set-HasUniqueKeys k (record c { count = c.count + 1 }) m h,
        ))
]

pub is_allowed-IsValid :
    (now : ℕ) (k : String) (kind : Kind) (l : Limiter)
    → IsValid l
    → IsValid (is_allowed now k kind l).0
unfolding is_allowed
is_allowed-IsValid now k ip_address l v = record {
  ip = allow-HasUniqueKeys _ now k _ v.ip;
  identity = v.identity;
}
is_allowed-IsValid now k from_identity l v = record {
  ip = v.ip;
  identity = allow-HasUniqueKeys _ now k _ v.identity;
}

pub cleanup-IsValid : (now : ℕ) (l : Limiter) → IsValid l → IsValid (cleanup now l)
unfolding cleanup
cleanup-IsValid now l v = record {
  ip = delete_all-HasUniqueKeys _ _ v.ip;
  identity = delete_all-HasUniqueKeys _ _ v.identity;
}

-- The answer depends only on the counter of the key, unless that is old.
pub allow-answer :
    (limit now : ℕ) (k : String) (m m' : JsMap Counter)
    → unless (is_old now) (get k m) ≡ unless (is_old now) (get k m')
    → (allow limit now k m).1 ≡ (allow limit now k m').1
unfolding allow
allow-answer limit now k m m' h = ground arith

pub unless-is_old :
    (swept now : ℕ) (o : Option Counter)
    → swept ≤ now
    → unless (is_old now) (unless (is_old swept) o) ≡ unless (is_old now) o
unless-is_old swept now none h = refl
unless-is_old swept now (some c) h = ground arith

-- A call after a cleanup, at the same time or later, gets the answer that it would have got
-- without the cleanup.
pub is_allowed-cleanup :
    (swept now : ℕ) (k : String) (kind : Kind) (l : Limiter)
    → IsValid l
    → swept ≤ now
    → (is_allowed now k kind (cleanup swept l)).1 ≡ (is_allowed now k kind l).1
unfolding is_allowed cleanup
is_allowed-cleanup swept now k ip_address l v h =
    allow-answer _ now k _ _
      (rw (get-delete_all-keys_where (is_old swept) k l.ip_counters v.ip) (unless-is_old _ _ _ h))
is_allowed-cleanup swept now k from_identity l v h = allow-answer _ now k _ _ (
    rw (get-delete_all-keys_where (is_old swept) k l.identity_counters v.identity)
      (unless-is_old _ _ _ h))
