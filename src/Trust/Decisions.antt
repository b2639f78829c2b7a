-- ===== src/Trust/Decisions.antt =====
-- When a record is active, when a request may be sent, and when it may be tried again.
use btps_sdk.Prelude.{ℕ, ◌≤◌, ◌≡◌, ◌≢◌, ◌↔◌, refl, true, false, Option, none, some, arith}
use btps_sdk.Dates.{DateText, at}
use btps_sdk.Trust.{
  blocked, TrustRecord, is_trust_active, passed, validate_trust_request, can_retry_trust,
}

-- The date, where there is one that can be read, is not after `now`.
abbrev pub NotAfter : ℕ → Option DateText → Type 0
NotAfter now (some (at t)) = t ≤ now
NotAfter now _ = Unit

-- A request about an existing record passes exactly when the record is not active, not blocked,
-- and its retry date, if it can be read, has come.
pub validate_trust_request_iff :
    (now : ℕ) (t : TrustRecord)
    → ((validate_trust_request now (some t)).is_valid ≡ true) ↔ (
        (is_trust_active now (some t) ≡ false)
        × (t.status ≢ blocked)
        × NotAfter now t.retry_after_date)
unfolding validate_trust_request
validate_trust_request_iff now t = ground arith

-- Where a retry is allowed, the record is not active and the request passes.
pub can_retry_trust-validate :
    (now : ℕ) (t : Option TrustRecord)
    → can_retry_trust now t ≡ true
    → (is_trust_active now t ≡ false) × (validate_trust_request now t ≡ passed)
unfolding can_retry_trust validate_trust_request
can_retry_trust-validate now none e = (refl, refl)
can_retry_trust-validate now (some t) e = ground arith
