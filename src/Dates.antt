-- ===== src/Dates.antt =====
-- Dates as the program holds them: ISO texts that it compares by `new Date(text).getTime()`.
-- A text stands for the milliseconds that it is read as. A text that is no date is read as NaN,
-- whose comparisons are all false. The clock is an argument `now` in milliseconds.
use btps_sdk.Prelude.{ℕ, Bool, false, ltb, leb}

pub data DateText : Type 0 where
  at : ℕ → DateText
  unreadable : DateText

-- `new Date(d).getTime() < now`, or `now > new Date(d)`
abbrev pub is_before : DateText → ℕ → Bool
is_before (at t) now = ltb t now
is_before unreadable now = false

-- `new Date(d).getTime() > now`
abbrev pub is_after : DateText → ℕ → Bool
is_after (at t) now = ltb now t
is_after unreadable now = false

-- `new Date(d).getTime() <= now`
abbrev pub is_by : DateText → ℕ → Bool
is_by (at t) now = leb t now
is_by unreadable now = false
