-- ===== src/Server/Tasks/Answered.antt =====
-- The socket once nothing of a connection of overlapping lines is under way
-- (src/server/btpsServer.ts).
use btps_sdk.Prelude.{
  ℕ, ◌≡◌, ◌⊎◌, refl, String, Bool, true, false, not, ◌&&◌, ◌||◌, Option, none, List, [], ◌∷◌, ◌++◌,
  map, arith, Bool-cases, inl, inr,
}
use btps_sdk.Crypto.{Platform}
use btps_sdk.Errors.{Exception}
use btps_sdk.Json.{Json}
use btps_sdk.Middleware.{before, on_error}
use btps_sdk.Middleware.Loading.{get_middleware}
use btps_sdk.Server.Closing.{IsClosed-invariant}
use btps_sdk.Server.Connection.{ConnectionEvent}
use btps_sdk.Server.Pipeline.{Config}
use btps_sdk.Server.Tasks.{Task, stop, turn, fork, both}
use btps_sdk.Server.Tasks.Connection.{Choice, arrive, resume, choose, run_choices, arrivals}
use btps_sdk.Server.Tasks.Overlapping.{ProcSafe, Stays, choose-Stays}
use btps_sdk.Server.Tasks.Schedule.{
  Proc, finished, running, beside, joining, Side, left, right, is_done, is_idle, advance, take_turn,
  join,
}
use btps_sdk.Server.Tasks.Sealing.{IsSealing}
use btps_sdk.Server.Tasks.Shutting.{event_task-Shuts, is_skipped}
use btps_sdk.Server.Triples.{IsClosed}
use btps_sdk.Server.World.{World, ReqCtx, Surroundings, is_closed}
use btps_sdk.Trust.Store.{TrustStore}

module _ {S : Type 0} where
  -- A part that does not come to its end before the socket is closed.
  abbrev Owes : Proc S → Type 0
  Owes finished = ⊥
  Owes (running q t) = IsSealing t
  Owes (beside a b) = Owes a ⊎ Owes b
  Owes (joining a b q t) = IsSealing t ⊎ Owes a ⊎ Owes b

  -- The socket is closed, or what is under way will not come to its end before it is.
  abbrev IsOwed : Proc S × World S → Type 0
  IsOwed s = IsClosed s.1 ⊎ Owes s.0

  map-IsOwed :
      (s : Proc S × World S) (b : Proc S) → (Owes s.0 → Owes b) → IsOwed s → IsOwed (b, s.1)
  map-IsOwed s b f (inl h) = inl h
  map-IsOwed s b f (inr h) = inr (f h)

  take_turn-IsOwed :
      (t : Task S) (q : ReqCtx) (w : World S) → IsSealing t → IsOwed (take_turn t q w)
  take_turn-IsOwed stop q w h = elim h [ ]
  take_turn-IsOwed (turn f k) q w h = h (q, w)
  take_turn-IsOwed (fork t u) q w h = inr (inr h)
  take_turn-IsOwed (both t u v) q w h = inr (inl h)

  is_idle-Owes : (a : Proc S) → Owes a → is_idle a ≡ false
  is_idle-Owes (running q t) h = refl
  is_idle-Owes (beside a b) (inl h) = rw (is_idle-Owes a h) refl
  is_idle-Owes (beside a b) (inr h) = rw (is_idle-Owes b h) (ground arith)
  is_idle-Owes (joining a b q t) h = refl
  is_idle-Owes finished h = elim h [ ]

  joined :
      (a b : Proc S) (t : Task S) → IsSealing t ⊎ Owes a ⊎ Owes b → (Owes a ⊎ Owes b) ⊎ IsSealing t
  joined a b t (inl h) = inr h
  joined a b t (inr h) = inl h

  join-Owes :
      (a b : Proc S) (q : ReqCtx) (t : Task S) → Owes (joining a b q t) → Owes (join a b q t)
  join-Owes a b q t h = elim (Bool-cases (is_done a && is_done b)) [
    | inl e ↦ rw e (joined a b t h)
    | inr e ↦ rw e h
  ]

  -- A turn of what is owed closes the socket, or leaves it owed.
  advance-IsOwed :
      (path : List Side) (a : Proc S) (w : World S) → Owes a → IsOwed (advance path a w)
  unfolding advance
  advance-IsOwed path finished w h = elim h [ ]
  advance-IsOwed path (running q t) w h = take_turn-IsOwed t q w h
  advance-IsOwed [] (beside a b) w h = inr h
  advance-IsOwed (left ∷ path) (beside a b) w (inl h) =
      let s = advance path a w in map-IsOwed s (beside s.0 b) inl (advance-IsOwed path a w h)
  advance-IsOwed (left ∷ path) (beside a b) w (inr h) = inr (inr h)
  advance-IsOwed (right ∷ path) (beside a b) w (inl h) = inr (inl h)
  advance-IsOwed (right ∷ path) (beside a b) w (inr h) =
      let s = advance path b w in map-IsOwed s (beside a s.0) inr (advance-IsOwed path b w h)
  advance-IsOwed [] (joining a b q t) w h = inr (join-Owes a b q t h)
  advance-IsOwed (left ∷ path) (joining a b q t) w (inl h) = inr (inl h)
  advance-IsOwed (left ∷ path) (joining a b q t) w (inr (inl h)) =
      let s = advance path a w in
      map-IsOwed s (joining s.0 b q t) (λ o. inr (inl o)) (advance-IsOwed path a w h)
  advance-IsOwed (left ∷ path) (joining a b q t) w (inr (inr h)) = inr (inr (inr h))
  advance-IsOwed (right ∷ path) (joining a b q t) w (inl h) = inr (inl h)
  advance-IsOwed (right ∷ path) (joining a b q t) w (inr (inl h)) = inr (inr (inl h))
  advance-IsOwed (right ∷ path) (joining a b q t) w (inr (inr h)) =
      let s = advance path b w in
      map-IsOwed s (joining a s.0 q t) (λ o. inr (inr o)) (advance-IsOwed path b w h)

  is_idle-IsClosed : (s : Proc S × World S) → is_idle s.0 ≡ true → IsOwed s → IsClosed s.1
  is_idle-IsClosed s idle (inl h) = h
  is_idle-IsClosed s idle (inr h) = absurd (ground (arith, is_idle-Owes s.0 h))

-- Something other than a blank line arrives.
abbrev pub is_any_shown : List (ℕ × ConnectionEvent) → Bool
is_any_shown [] = false
is_any_shown ((now, e) ∷ es) = not (is_skipped e) || is_any_shown es

module _ (json_parse : String → Option Json) (validates : Json → Bool) (p : Platform)
    (store : TrustStore) (env : Surroundings) (config : Config store.State)
    (quiet : get_middleware before on_error config.manager ≡ [])
    (calm : (e : Exception) → env.on_error e ≡ none) where
  open store use {State}

  abbrev chosen : Choice → Proc State × World State → Proc State × World State
  chosen = choose json_parse validates p store env config

  stays :
      (c : Choice) (a : Proc State) (w : World State)
      → ProcSafe IsClosed a
      → Stays IsClosed w (chosen c (a, w))
  stays =
      choose-Stays json_parse validates p store env config IsClosed (IsClosed-invariant env)
        (λ now d s t c c' h i j k. tt)

  choose-Owes : (c : Choice) (a : Proc State) (w : World State) → Owes a → IsOwed (chosen c (a, w))
  unfolding choose
  choose-Owes (arrive now e) a w h = inr (inl h)
  choose-Owes (resume path) a w h = advance-IsOwed path a w h

  choose-IsOwed :
      (c : Choice) (a : Proc State) (w : World State)
      → ProcSafe IsClosed a
      → IsOwed (a, w)
      → IsOwed (chosen c (a, w))
  choose-IsOwed c a w k (inl h) = inl ((stays c a w k).held h)
  choose-IsOwed c a w k (inr h) = choose-Owes c a w h

  arrive-IsOwed :
      (now : ℕ) (e : ConnectionEvent) (a : Proc State) (w : World State)
      → is_skipped e ≡ false
      → IsOwed (chosen (arrive now e) (a, w))
  unfolding choose
  arrive-IsOwed now e a w h = inr (
      inr (
        (event_task-Shuts p store env config calm quiet json_parse validates now e h).shuts
          (λ o. stop)))

  run_choices-IsOwed :
      (cs : List Choice) (a : Proc State) (w : World State)
      → ProcSafe IsClosed a
      → IsOwed (a, w)
      → IsOwed (run_choices json_parse validates p store env config cs (a, w))
  unfolding run_choices
  run_choices-IsOwed [] a w k h = h
  run_choices-IsOwed (c ∷ cs) a w k h =
      let s = chosen c (a, w) in
      run_choices-IsOwed cs s.0 s.1 (stays c a w k).safe (choose-IsOwed c a w k h)

  arrivals-IsOwed :
      (cs : List Choice) (a : Proc State) (w : World State)
      → ProcSafe IsClosed a
      → is_any_shown (arrivals cs) ≡ true
      → IsOwed (run_choices json_parse validates p store env config cs (a, w))
  unfolding run_choices
  arrivals-IsOwed [] a w k h = absurd (ground arith)
  arrivals-IsOwed (arrive now e ∷ cs) a w k h =
      let s = chosen (arrive now e) (a, w) in
      let ks = (stays (arrive now e) a w k).safe in
      elim (Bool-cases (is_skipped e)) [
        | inl skipped ↦ arrivals-IsOwed cs s.0 s.1 ks (ground arith)
        | inr shown ↦ run_choices-IsOwed cs s.0 s.1 ks (arrive-IsOwed now e a w shown)
      ]
  arrivals-IsOwed (resume path ∷ cs) a w k h =
      let s = chosen (resume path) (a, w) in
      arrivals-IsOwed cs s.0 s.1 (stays (resume path) a w k).safe h

  -- Further turns that leave nothing under way and the socket closed.
  pub record IsAnswered (cs : List Choice) (w : World State) : Type 0 where
    pub paths : List (List Side)
    pub idle :
        is_idle
          (run_choices json_parse validates p store env config
            (cs ++ map resume paths)
            (finished, w)).0
        ≡ true
    pub closed :
        is_closed
          (run_choices json_parse validates p store env config
            (cs ++ map resume paths)
            (finished, w)).1.socket
        ≡ true

-- When no middleware is loaded for the time before the handling of an error and the callback
-- `onError` does not throw: however the lines of a
-- connection overlap, and whatever the other middleware, the listeners and the store do or throw,
-- the socket is closed once something other than a blank line has arrived and nothing is under way.
pub run_choices-IsClosed :
    (json_parse : String → Option Json) (validates : Json → Bool) (p : Platform)
    (store : TrustStore) (env : Surroundings) (config : Config store.State) (cs : List Choice)
    (w : World store.State)
    → get_middleware before on_error config.manager ≡ []
    → ((e : Exception) → env.on_error e ≡ none)
    → is_any_shown (arrivals cs) ≡ true
    → is_idle (run_choices json_parse validates p store env config cs (finished, w)).0 ≡ true
    → is_closed (run_choices json_parse validates p store env config cs (finished, w)).1.socket
      ≡ true
run_choices-IsClosed json_parse validates p store env config cs w quiet calm shown idle =
    is_idle-IsClosed (run_choices json_parse validates p store env config cs (finished, w)) idle
      (arrivals-IsOwed json_parse validates p store env config quiet calm cs finished w tt shown)
