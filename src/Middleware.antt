-- ===== src/Middleware.antt =====
-- src/server/libs/middlewareManager.ts: validation, order and selection of the middleware. What a
-- handler does is the type `H`, of which the manager sees only the number of parameters.
pub mod Order
pub mod Loading
mod Tests
use btps_sdk.Prelude.{
  ℕ, String, Bool, true, false, ◌&&◌, not, Option, none, some, List, [], ◌∷◌, ◌==◌, ltb, leb,
  filter, if◌then◌else◌, or_else,
}
use btps_sdk.Errors.{plain, Thrown, exception}
use btps_sdk.Effects.{Outcome, returned, thrown}

pub data Phase : Type 0 where
  before after : Phase

pub data Step : Type 0 where
  parsing signature_verification trust_verification on_artifact on_error : Step

-- `MiddlewareConfig`, without its name and its options.
pub record Config : Type 0 where
  pub enabled : Option Bool

-- `MiddlewareDefinition`
pub record Definition (H : Type 0) : Type 0 where
  pub phase : Phase
  pub step : Step
  pub priority : Option ℕ
  pub config : Option Config
  pub handler : H

-- A `priority` property: missing, a non-negative integer, or any other value.
pub data RawPriority : Type 0 where
  missing : RawPriority
  integer : ℕ → RawPriority
  other : RawPriority

-- An object that a middleware file lists. `phase` and `step` are `none` where they are missing or
-- no texts; a handler is `none` where it is no function, and has its `length` beside it.
pub record RawDefinition (H : Type 0) : Type 0 where
  pub phase : Option String
  pub step : Option String
  pub priority : RawPriority
  pub config : Option Config
  pub handler : Option (ℕ × H)

-- A value that a middleware file lists.
pub data RawValue (H : Type 0) : Type 0 where
  not_object : RawValue H
  object : RawDefinition H → RawValue H

unfoldable pub read_phase : Option String → Option Phase
read_phase none = none
read_phase (some s) =
    if s == "before" then some before else if s == "after" then some after else none

unfoldable pub read_step : Option String → Option Step
read_step none = none
read_step (some s) =
    if s == "parsing"
    then some parsing
    else if s == "signatureVerification"
    then some signature_verification
    else if s == "trustVerification"
    then some trust_verification
    else if s == "onArtifact"
    then some on_artifact
    else if s == "onError"
    then some on_error
    else none

abbrev pub reject {ℓ} : {A : Type ℓ} → String → Outcome A
reject m = thrown (exception (plain m))

infixl 5 ◌>>=◌
abbrev ◌>>=◌ {ℓ κ} : {A : Type ℓ} {B : Type κ} → Outcome A → (A → Outcome B) → Outcome B
returned a >>= f = f a
thrown e >>= f = thrown e

abbrev pub expect {ℓ} : {A : Type ℓ} → Option A → String → Outcome A
expect none m = reject m
expect (some a) m = returned a

abbrev pub read_priority : RawPriority → Outcome (Option ℕ)
read_priority missing = returned none
read_priority (integer n) = returned (some n)
read_priority other = reject "Middleware priority must be a non-negative integer"

-- The message of the inner exception is printed into that of the outer one.
abbrev pub check_arity : {H : Type 0} → ℕ × H → Outcome H
check_arity (n, h) =
    if ltb n 3
    then reject
        "Invalid middleware handler signature: BTPErrorException: Middleware handler must accept at least 3 parameters (req, res, next)"
    else returned h

module _ {H : Type 0} where
  unfoldable pub validate_definition : RawValue H → Outcome (Definition H)
  unfolding read_phase read_step
  validate_definition not_object = reject "Middleware must be an object"
  validate_definition (object mw) = do
    phase ← expect (read_phase mw.phase) "Middleware must have a valid phase (before or after)"
    step ← expect (read_step mw.step) "Middleware must have a valid step"
    function ← expect mw.handler "Middleware must have a handler function"
    handler ← check_arity function
    priority ← read_priority mw.priority
    returned (record {
      phase = phase;
      step = step;
      priority = priority;
      config = mw.config;
      handler = handler;
    })

  -- `mw.config?.enabled !== false`
  abbrev pub is_enabled : Definition H → Bool
  is_enabled d = elim d.config [
    | none ↦ true
    | some c ↦ elim c.enabled [ none ↦ true | some b ↦ b ]
  ]

  -- The definitions that are valid and enabled, in the order in which the file lists them.
  abbrev keep : Outcome (Definition H) → List (Definition H) → List (Definition H)
  keep (thrown e) rest = rest
  keep (returned d) rest = if is_enabled d then d ∷ rest else rest

  unfoldable pub valid_middleware : List (RawValue H) → List (Definition H)
  valid_middleware [] = []
  valid_middleware (v ∷ vs) = keep (validate_definition v) (valid_middleware vs)

  -- `a.priority ?? Number.MAX_SAFE_INTEGER`
  abbrev pub rank : Definition H → ℕ
  rank d = or_else d.priority 9007199254740991

  -- The language's `sort` is stable: an entry is put before the first of the later ones that it
  -- does not exceed.
  unfoldable pub insert : Definition H → List (Definition H) → List (Definition H)
  insert d [] = d ∷ []
  insert d (e ∷ es) = if leb (rank d) (rank e) then d ∷ e ∷ es else e ∷ insert d es

  unfoldable pub sort : List (Definition H) → List (Definition H)
  unfolding insert
  sort [] = []
  sort (d ∷ ds) = insert d (sort ds)

  unfoldable pub validate_and_sort : List (RawValue H) → List (Definition H)
  validate_and_sort vs = sort (valid_middleware vs)

abbrev pub phase_eq : Phase → Phase → Bool
phase_eq before before = true
phase_eq after after = true
phase_eq _ _ = false

abbrev pub step_eq : Step → Step → Bool
step_eq parsing parsing = true
step_eq signature_verification signature_verification = true
step_eq trust_verification trust_verification = true
step_eq on_artifact on_artifact = true
step_eq on_error on_error = true
step_eq _ _ = false

abbrev pub is_for : {H : Type 0} → Phase → Step → Definition H → Bool
is_for p s d = phase_eq d.phase p && step_eq d.step s
