-- ===== src/Server/Tasks.antt =====
-- The asynchronous methods of src/server/btpsServer.ts as tasks: what a method does between two
-- turns of the event loop is one turn, and other lines of the connection may run between its turns.
-- A task is written with what comes after it, so a method that is not awaited is a fork.
pub mod Pipeline
pub mod Schedule
pub mod Turns
pub mod Connection
pub mod Safety
pub mod Kept
pub mod Overlapping
pub mod Sealing
pub mod Shutting
pub mod Answered
pub mod Alone
pub mod Sequential
pub mod Refinement
mod Tests
use btps_sdk.Prelude.{ℕ, Bool, true, false}
use btps_sdk.Effects.{Outcome, returned, thrown}
use btps_sdk.Errors.{Thrown}
use btps_sdk.Server.Pipeline.{Run, StepOf}
use btps_sdk.Server.World.{World, ReqCtx}

pub data Task (S : Type 0) : Type 0 where
  stop : Task S
  turn : (Run S → Run S) → (Run S → Task S) → Task S
  fork : Task S → Task S → Task S
  both : Task S → Task S → Task S → Task S

-- `fork t u` starts `t` and goes on as `u`; `both t u v` starts `t` and `u`, and goes on as `v` once
-- both have come to their end.

-- A method with a result, given what comes after it.
abbrev pub TaskOf : Type 0 → Type 0 → Type 0
TaskOf S A = (Outcome A → Task S) → Task S

module _ {S : Type 0} where
  -- One turn, whose result is what the step returns or throws.
  abbrev pub once : {A : Type 0} → StepOf S A → TaskOf S A
  once m k = turn (λ r. (m r).0) (λ r. k (m r).1)

  abbrev pub pure : {A : Type 0} → A → TaskOf S A
  pure a k = k (returned a)

  abbrev pub after : {A B : Type 0} → (A → TaskOf S B) → (Outcome B → Task S) → Outcome A → Task S
  after f k (returned a) = f a k
  after f k (thrown e) = k (thrown e)

  infixl 5 ◌>>=◌ ◌>>◌
  abbrev pub ◌>>=◌ : {A B : Type 0} → TaskOf S A → (A → TaskOf S B) → TaskOf S B
  ◌>>=◌ t f k = t (after f k)

  abbrev pub ◌>>◌ : {B : Type 0} → TaskOf S (Unit {0}) → TaskOf S B → TaskOf S B
  ◌>>◌ t u = t >>= λ _. u

  abbrev pub catching :
      {A : Type 0} → (Thrown → TaskOf S A) → (Outcome A → Task S) → Outcome A → Task S
  catching h k (returned a) = k (returned a)
  catching h k (thrown e) = h e k

  -- `try { await t } catch (e) { await h(e) }`
  abbrev pub try_catch : {A : Type 0} → TaskOf S A → (Thrown → TaskOf S A) → TaskOf S A
  try_catch t h k = t (catching h k)

  -- Runs on a copy of the request's context.
  abbrev pub on_copy : {A : Type 0} → (ReqCtx → ReqCtx) → TaskOf S A → TaskOf S A
  on_copy f t k = turn (λ r. (f r.0, r.1)) (λ r. t (λ o. turn (λ r'. (r.0, r'.1)) (λ _. k o)))

  -- What a method throws is lost.
  abbrev pub forget : {A : Type 0} → TaskOf S A → TaskOf S (Unit {0})
  forget t k = t (λ _. k (returned tt))

  -- A call that is not awaited: it goes on beside what comes after it.
  abbrev pub unawaited : {A : Type 0} → TaskOf S A → TaskOf S (Unit {0})
  unawaited t k = fork (t (λ _. stop)) (k (returned tt))

  -- `await Promise.all([t, u])` where neither can throw.
  abbrev pub at_once : TaskOf S (Unit {0}) → TaskOf S (Unit {0}) → TaskOf S (Unit {0})
  at_once t u k = both (t (λ _. stop)) (u (λ _. stop)) (k (returned tt))

  abbrev pub unless_sent : Bool → TaskOf S (Unit {0}) → TaskOf S (Unit {0})
  unless_sent true rest = pure tt
  unless_sent false rest = rest

  -- A task with nothing between its turns: what it starts runs first, in order, then the rest.
  unfoldable pub run_alone : Task S → Run S → World S
  run_alone stop r = r.1
  run_alone (turn f k) r = run_alone (k r) (f r)
  run_alone (fork t u) r = run_alone u (r.0, run_alone t r)
  run_alone (both t u v) r = run_alone v (r.0, run_alone u (r.0, run_alone t r))
