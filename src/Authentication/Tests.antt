-- ===== src/Authentication/Tests.antt =====
-- Histories of the stores, and the theorems at them.
use btps_sdk.Prelude.{
  ◌≡◌, refl, String, false, none, some, List, [], ◌∷◌, arith, map, is_some, true,
}
use btps_sdk.Authentication.Sessions.{
  Session, SessionStore, store_session, get_by_agent_id, get_by_identity,
}
use btps_sdk.Authentication.Sessions.Laws.{get-store_session, get_by_agent_id-cleanup_sessions}
use btps_sdk.Authentication.Tokens.{
  Issue, make_key, store_token, get_token, remove_token, cleanup_tokens,
}
use btps_sdk.Authentication.Tokens.Refinement.{
  Call, store, lookup, remove, cleanup, found, expected, found-expected,
}
use btps_sdk.Dates.{at}
use btps_sdk.JsMap.Laws.{unless}
use btps_sdk.Authentication.Sessions.{cleanup_sessions, is_over}
use btps_sdk.JsMap
use btps_sdk.Trust.{compute_trust_id, to_lower_case}

tokens : Unit {0}
unfolding found expected make_key store_token get_token remove_token cleanup_tokens JsMap.get
    JsMap.set JsMap.delete JsMap.keys_where JsMap.delete_all compute_trust_id to_lower_case
tokens = tt

abbrev issue : Issue
issue = record {
  token = "T";
  agent_id = some "agent";
  user_identity = "b$y.com";
  expiry_ms = 100;
  decrypt_by = "b$y.com";
  metadata = none;
}

abbrev history : List Call
history =
    store 10 issue
    ∷ lookup 20 "agent" "T"
    ∷ cleanup 30
    ∷ lookup 110 "agent" "T"
    ∷ lookup 111 "agent" "T"
    ∷ cleanup 112
    ∷ store 120 issue
    ∷ remove 130 "agent" "T"
    ∷ lookup 140 "agent" "T"
    ∷ []

found-history : map is_some (found (λ s. s) history []) ≡ true ∷ true ∷ false ∷ false ∷ []
unfolding tokens
found-history = refl

-- A token that differs in case is taken for the one that was stored.
other_case :
    map is_some (found (λ s. s) (store 10 issue ∷ lookup 20 "agent" "t" ∷ []) []) ≡ true ∷ []
unfolding tokens
other_case = refl

found-expected_example : found (λ s. s) history [] ≡ expected (λ s. s) history (λ k. none)
found-expected_example = found-expected (λ s. s) history 0 (omega arith)

abbrev session_of : String → Session
session_of agent_id = record {
  document = record {
    token = "T";
    agent_id = agent_id;
    user_identity = "b$y.com";
    created_at = at 10;
    expires_at = at 100;
    decrypt_by = "b$y.com";
    metadata = none;
  };
  public_key_fingerprint = "f";
  refresh_token = "R";
}

abbrev no_sessions : SessionStore
no_sessions = record { sessions = []; identity_index = [] }

get-store_session_example :
    (get_by_agent_id 50 "x" (store_session (session_of "x") no_sessions)
      ≡ (store_session (session_of "x") no_sessions, some (session_of "x")))
    × (get_by_identity 50 "b$y.com" (store_session (session_of "x") no_sessions)
        ≡ (store_session (session_of "x") no_sessions, some (session_of "x")))
get-store_session_example = get-store_session 50 (session_of "x") no_sessions (λ e. cc e) refl

abbrev both : SessionStore
both = store_session (session_of "y") (store_session (session_of "x") no_sessions)

get_by_agent_id-cleanup_sessions_example :
    get_by_agent_id 150 "y" (cleanup_sessions 150 both)
    ≡ (cleanup_sessions 150 both, unless (is_over 150) (JsMap.get "y" both.sessions))
unfolding store_session JsMap.set
get_by_agent_id-cleanup_sessions_example =
    get_by_agent_id-cleanup_sessions 150 "y" both ((refl, tt), (tt, tt))
