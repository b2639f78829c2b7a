-- ===== src/Authentication/Tokens/Store.antt =====
-- The interface `TokenStore` of src/core/authentication/types.ts, and the store in memory as one.
use btps_sdk.Prelude.{ℕ, String, Option}
use btps_sdk.Authentication.Tokens.{
  TokenDocument, Issue, Tokens, store_token, get_token, remove_token, cleanup_tokens,
}
use btps_sdk.Effects.{Act, returned}

-- The operations, each with the time where it reads the clock, on a state that may throw.
pub record TokenStore : Type 1 where
  pub State : Type 0
  pub store : ℕ → Issue → Act State (Unit {0})
  pub get : ℕ → String → String → Act State (Option TokenDocument)
  pub remove : String → String → Act State (Unit {0})
  pub cleanup : ℕ → Act State (Unit {0})

abbrev with_result : {S A : Type 0} → S × A → S × btps_sdk.Effects.Outcome A
with_result (s, a) = (s, returned a)

-- `InMemoryTokenStore`, none of whose operations throws.
abbrev pub memory_tokens : (String → String) → TokenStore
memory_tokens digest = record {
  State = Tokens;
  store = λ now i m. (store_token digest now i m, returned tt);
  get = λ now a t m. with_result (get_token digest now a t m);
  remove = λ a t m. (remove_token digest a t m, returned tt);
  cleanup = λ now m. (cleanup_tokens now m, returned tt);
}
