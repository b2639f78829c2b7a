-- ===== src/Authentication/Sessions/Laws.antt =====
-- What is found after a session was stored, and what the removal of an older one takes away.
use btps_sdk.Prelude.{
  String, Option, List, [], ◌∷◌, Bool-cases, inl, inr, ℕ, ◌≡◌, ◌≢◌, refl, sym, ◌∙◌, false, none,
  some, eq_iff, arith,
}
use btps_sdk.Authentication.Sessions.{
  Session, SessionStore, is_over, store_session, remove_session, get_by_agent_id, get_by_identity,
  remove_sessions, cleanup_sessions, check_session,
}
use btps_sdk.JsMap.{delete_all, keys_where, set, get}
use btps_sdk.JsMap.Laws.{
  HasUniqueKeys, unless, get-delete_all-keys_where, get-set_self, get-delete_self, get-set_ne,
  get-delete_ne,
}

-- A session with an agent that is stored, and not over, is found by its agent and by its user.
pub get-store_session :
    (now : ℕ) (s : Session) (st : SessionStore)
    → s.document.agent_id ≢ ""
    → is_over now s ≡ false
    → (get_by_agent_id now s.document.agent_id (store_session s st) ≡ (store_session s st, some s))
      × (get_by_identity now s.document.user_identity (store_session s st)
          ≡ (store_session s st, some s))
unfolding get_by_agent_id get_by_identity store_session
get-store_session now s st named open_still = ground (
  arith,
  get-set_self s.document.agent_id s st.sessions,
  get-set_self s.document.user_identity s.document.agent_id st.identity_index,
  eq_iff s.document.agent_id "",
)

-- Of two sessions of one user under two agents, the removal of the older one takes the newer one's
-- entry out of the index: it is still found by its agent, and no longer by its user.
pub get-remove_session :
    (now : ℕ) (old new : Session) (st : SessionStore)
    → old.document.user_identity ≡ new.document.user_identity
    → old.document.agent_id ≢ new.document.agent_id
    → is_over now new ≡ false
    → ((get_by_agent_id now new.document.agent_id
          (remove_session old.document.agent_id (store_session new (store_session old st)))).1
        ≡ some new)
      × ((get_by_identity now new.document.user_identity
            (remove_session old.document.agent_id (store_session new (store_session old st)))).1
          ≡ none)
unfolding get_by_agent_id get_by_identity store_session remove_session
get-remove_session now old new st user agents fresh =
    let o = old.document.agent_id in
    let n = new.document.agent_id in
    let stored = set o old st.sessions in
    let held = get-set_ne n o new stored (λ e. agents (sym e)) ∙ get-set_self o old st.sessions in
    let kept = get-delete_ne o n (set n new stored) agents ∙ get-set_self n new stored in
    rw (held, kept, fresh, user, get-delete_self) (refl, refl)

sessions-remove_sessions :
    (ids : List String) (st : SessionStore)
    → (remove_sessions ids st).sessions ≡ delete_all ids st.sessions
unfolding remove_sessions remove_session delete_all
sessions-remove_sessions [] st = refl
sessions-remove_sessions (a ∷ ids) st = sessions-remove_sessions ids (remove_session a st)

check_session-unless :
    (now : ℕ) (agent_id : String) (o : Option Session) (st : SessionStore)
    → check_session now agent_id (unless (is_over now) o) st ≡ (st, unless (is_over now) o)
check_session-unless now agent_id none st = refl
check_session-unless now agent_id (some s) st = elim (Bool-cases (is_over now s)) [
  | inl over ↦ rw over refl
  | inr fresh ↦ rw (fresh, fresh) refl
]

-- After a cleanup, exactly the sessions that are not over are found by their agent, at that time
-- and without a change of the store.
pub get_by_agent_id-cleanup_sessions :
    (now : ℕ) (agent_id : String) (st : SessionStore)
    → HasUniqueKeys st.sessions
    → get_by_agent_id now agent_id (cleanup_sessions now st)
      ≡ (cleanup_sessions now st, unless (is_over now) (get agent_id st.sessions))
unfolding get_by_agent_id cleanup_sessions
get_by_agent_id-cleanup_sessions now agent_id st unique =
    rw
      (
        sessions-remove_sessions (keys_where (is_over now) st.sessions) st,
        get-delete_all-keys_where (is_over now) agent_id st.sessions unique,
      )
      (check_session-unless now agent_id (get agent_id st.sessions) (cleanup_sessions now st))
