-- ===== src/Effects.antt =====
-- Asynchronous methods over a state that may throw: the state that a throw leaves is kept, as
-- objects keep what was written to them before an exception.
use btps_sdk.Errors.{Thrown}

pub data Outcome {ℓ} (A : Type ℓ) : Type ℓ where
  returned : A → Outcome A
  thrown : Thrown → Outcome A

abbrev pub Act : Type 0 → Type 0 → Type 0
Act S A = S → S × Outcome A

abbrev pub pure : {S A : Type 0} → A → Act S A
pure a s = (s, returned a)

abbrev pub throw : {S A : Type 0} → Thrown → Act S A
throw e s = (s, thrown e)

abbrev pub then_run : {S A B : Type 0} → (A → Act S B) → S × Outcome A → S × Outcome B
then_run f (s, returned a) = f a s
then_run f (s, thrown e) = (s, thrown e)

infixl 5 ◌>>=◌ ◌>>◌
abbrev pub ◌>>=◌ : {S A B : Type 0} → Act S A → (A → Act S B) → Act S B
◌>>=◌ m f s = then_run f (m s)

abbrev pub ◌>>◌ : {S B : Type 0} → Act S (Unit {0}) → Act S B → Act S B
◌>>◌ m k = m >>= λ _. k

abbrev pub recover : {S A : Type 0} → (Thrown → Act S A) → S × Outcome A → S × Outcome A
recover h (s, returned a) = (s, returned a)
recover h (s, thrown e) = h e s

-- `try { m } catch (e) { h(e) }`
abbrev pub try_catch : {S A : Type 0} → Act S A → (Thrown → Act S A) → Act S A
try_catch m h s = recover h (m s)
