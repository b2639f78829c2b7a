-- ===== src/Authentication/Agents/AuthTokens.antt =====
-- src/core/authentication/BtpsAuthentication.ts over the token store in memory: the tokens with
-- which a user authenticates an agent.
use btps_sdk.Prelude.{ℕ, ◌+◌, ◌≤◌, ◌≡◌, refl, String, Option, none, some, false, arith}
use btps_sdk.Authentication.Agents.{
  TokenConfig, auth_issue, valid_user, invalid_user, store_auth_token, validate_auth_token, State,
}
use btps_sdk.Authentication.Tokens.{
  make_key, store_token, get_token, remove_token, document_of, has_expired, TokenDocument,
}
use btps_sdk.Authentication.Tokens.Store.{memory_tokens}
use btps_sdk.Crypto.{Platform}
use btps_sdk.Effects.{returned}
use btps_sdk.Errors.{plain, exception}
use btps_sdk.JsMap.{JsMap, get, delete}
use btps_sdk.JsMap.Laws.{get-set_self, get-delete_self}
use btps_sdk.Trust.Store.{TrustStore}

module _ (p : Platform) (store : TrustStore) (config : TokenConfig) where
  pub validate_auth_token-missing :
      (now : ℕ) (user token : String) (s : State p store (memory_tokens p.digest) config)
      → get (make_key p.digest user token) s.1 ≡ none
      → validate_auth_token p store (memory_tokens p.digest) config now user token s
        ≡ (s, returned (invalid_user (exception (plain "Invalid or expired auth token"))))
  unfolding validate_auth_token get_token
  validate_auth_token-missing now user token s h = rw h refl

  pub validate_auth_token-found :
      (now : ℕ) (user token : String) (d : TokenDocument)
      (s : State p store (memory_tokens p.digest) config)
      → get (make_key p.digest user token) s.1 ≡ some d
      → has_expired now d ≡ false
      → validate_auth_token p store (memory_tokens p.digest) config now user token s
        ≡ ((s.0, delete (make_key p.digest user token) s.1), returned (valid_user d.user_identity))
  unfolding validate_auth_token get_token remove_token
  validate_auth_token-found now user token d s h e = rw (h, e) refl

  -- An authentication token that was stored for a user is valid for that user until its expiry, and
  -- then only once: the call that accepts it removes it, so every later call refuses it, at any time.
  pub validate_auth_token-once :
      (now later again : ℕ) (user token decrypt_by : String) (metadata : Option (JsMap String))
      (s : State p store (memory_tokens p.digest) config)
      → later ≤ now + config.auth_token_expiry_ms
      → let stored =
          (store_auth_token p store
            (memory_tokens p.digest)
            config
            now
            token
            user
            decrypt_by
            metadata
            s).0 in
        let used =
          validate_auth_token p store (memory_tokens p.digest) config later user token stored in
        (used.1 ≡ returned (valid_user user))
        × (validate_auth_token p store (memory_tokens p.digest) config again user token used.0
            ≡ (used.0, returned (invalid_user (exception (plain "Invalid or expired auth token")))))
  unfolding store_auth_token store_token
  validate_auth_token-once now later again user token decrypt_by metadata s h =
      rw
        (validate_auth_token-found later user token
          (document_of now
            (auth_issue p store (memory_tokens p.digest) config token user decrypt_by metadata))
          (
            s.0,
            store_token p.digest now
                (auth_issue p store (memory_tokens p.digest) config token user decrypt_by metadata)
                s.1,
          )
          (get-set_self _ _ s.1) (ground arith))
        (refl, validate_auth_token-missing again user token _ (get-delete_self _ _))
