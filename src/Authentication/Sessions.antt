-- ===== src/Authentication/Sessions.antt =====
-- src/core/authentication/storage/InMemoryAuthSessionStore.ts: sessions by agent, and an index of
-- the last agent of each user.
pub mod Laws
use btps_sdk.Prelude.{
  ℕ, String, Bool, Option, none, some, List, [], ◌∷◌, if◌then◌else◌, ◌==◌, length,
}
use btps_sdk.Authentication.Tokens.{TokenDocument, has_expired}
use btps_sdk.JsMap.{JsMap, get, set, delete, values, keys_where}

-- `AuthSession`
pub record Session : Type 0 where
  pub document : TokenDocument
  pub public_key_fingerprint : String
  pub refresh_token : String

pub record SessionStore : Type 0 where
  pub sessions : JsMap Session
  pub identity_index : JsMap String

abbrev pub is_over : ℕ → Session → Bool
is_over now s = has_expired now s.document

unfoldable pub store_session : Session → SessionStore → SessionStore
store_session s st = record {
  sessions = set s.document.agent_id s st.sessions;
  identity_index = set s.document.user_identity s.document.agent_id st.identity_index;
}

-- The index loses the entry of the user of the session that is removed.
abbrev unindexed : Option Session → JsMap String → JsMap String
unindexed none index = index
unindexed (some s) index = delete s.document.user_identity index

unfoldable pub remove_session : String → SessionStore → SessionStore
remove_session agent_id st = record {
  sessions = delete agent_id st.sessions;
  identity_index = unindexed (get agent_id st.sessions) st.identity_index;
}

abbrev pub check_session :
    ℕ → String → Option Session → SessionStore → SessionStore × Option Session
check_session now agent_id none st = (st, none)
check_session now agent_id (some s) st =
    if is_over now s then (remove_session agent_id st, none) else (st, some s)

unfoldable pub get_by_agent_id : ℕ → String → SessionStore → SessionStore × Option Session
unfolding remove_session
get_by_agent_id now agent_id st = check_session now agent_id (get agent_id st.sessions) st

-- An empty agent id counts as none.
abbrev by_index : ℕ → Option String → SessionStore → SessionStore × Option Session
by_index now none st = (st, none)
by_index now (some a) st = if a == "" then (st, none) else get_by_agent_id now a st

unfoldable pub get_by_identity : ℕ → String → SessionStore → SessionStore × Option Session
unfolding get_by_agent_id
get_by_identity now identity st = by_index now (get identity st.identity_index) st

unfoldable pub remove_sessions : List String → SessionStore → SessionStore
unfolding remove_session
remove_sessions [] st = st
remove_sessions (a ∷ ids) st = remove_sessions ids (remove_session a st)

unfoldable pub cleanup_sessions : ℕ → SessionStore → SessionStore
unfolding remove_sessions
cleanup_sessions now st = remove_sessions (keys_where (is_over now) st.sessions) st

unfoldable pub get_all : ℕ → SessionStore → SessionStore × List Session
unfolding cleanup_sessions
get_all now st = let left = cleanup_sessions now st in (left, values left.sessions)

unfoldable pub session_count : SessionStore → ℕ
session_count st = length st.sessions

unfoldable pub clear_sessions : SessionStore → SessionStore
clear_sessions st = record { sessions = []; identity_index = [] }
