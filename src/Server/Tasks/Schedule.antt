-- ===== src/Server/Tasks/Schedule.antt =====
-- The event loop as src/server/btpsServer.ts meets it: methods that wait, and the choice, at each
-- turn, of the one that goes on.
use btps_sdk.Prelude.{Bool, true, false, ◌&&◌, List, [], ◌∷◌, if◌then◌else◌}
use btps_sdk.Server.Tasks.{Task, stop, turn, fork, both}
use btps_sdk.Server.World.{World, ReqCtx}

-- What is under way: a method with its own request, two beside each other, of which the second
-- is the one that others wait for, and two that a third waits for.
pub data Proc (S : Type 0) : Type 0 where
  finished : Proc S
  running : ReqCtx → Task S → Proc S
  beside : Proc S → Proc S → Proc S
  joining : Proc S → Proc S → ReqCtx → Task S → Proc S

pub data Side : Type 0 where
  left right : Side

module _ {S : Type 0} where
  abbrev pub is_done : Proc S → Bool
  is_done finished = true
  is_done (running q t) = false
  is_done (beside a b) = is_done b
  is_done (joining a b q t) = false

  -- Nothing is under way.
  abbrev pub is_idle : Proc S → Bool
  is_idle finished = true
  is_idle (running q t) = false
  is_idle (beside a b) = is_idle a && is_idle b
  is_idle (joining a b q t) = false

  -- One turn of a method, which writes to its own request and to the world.
  abbrev pub take_turn : Task S → ReqCtx → World S → Proc S × World S
  take_turn stop q w = (finished, w)
  take_turn (turn f k) q w = (running (f (q, w)).0 (k (q, w)), (f (q, w)).1)
  take_turn (fork t u) q w = (beside (running q t) (running q u), w)
  take_turn (both t u v) q w = (joining (running q t) (running q u) q v, w)

  -- What was started and not awaited goes on.
  abbrev pub join : Proc S → Proc S → ReqCtx → Task S → Proc S
  join a b q t =
      if is_done a && is_done b then beside (beside a b) (running q t) else joining a b q t

  abbrev pub beside_right : Proc S → Proc S × World S → Proc S × World S
  beside_right b (a, w) = (beside a b, w)

  abbrev pub beside_left : Proc S → Proc S × World S → Proc S × World S
  beside_left a (b, w) = (beside a b, w)

  abbrev pub join_right : Proc S → ReqCtx → Task S → Proc S × World S → Proc S × World S
  join_right b q t (a, w) = (joining a b q t, w)

  abbrev pub join_left : Proc S → ReqCtx → Task S → Proc S × World S → Proc S × World S
  join_left a q t (b, w) = (joining a b q t, w)

  -- The method at the end of a path goes on for a turn; a path to none changes nothing.
  unfoldable pub advance : List Side → Proc S → World S → Proc S × World S
  advance path finished w = (finished, w)
  advance path (running q t) w = take_turn t q w
  advance [] (beside a b) w = (beside a b, w)
  advance (left ∷ path) (beside a b) w = beside_right b (advance path a w)
  advance (right ∷ path) (beside a b) w = beside_left a (advance path b w)
  advance [] (joining a b q t) w = (join a b q t, w)
  advance (left ∷ path) (joining a b q t) w = join_right b q t (advance path a w)
  advance (right ∷ path) (joining a b q t) w = join_left a q t (advance path b w)

  abbrev pub advance_pair : List Side → Proc S × World S → Proc S × World S
  advance_pair path (a, w) = advance path a w

  -- Several turns, one after the other.
  unfoldable pub advance_all : List (List Side) → Proc S × World S → Proc S × World S
  unfolding advance
  advance_all [] s = s
  advance_all (path ∷ paths) s = advance_all paths (advance_pair path s)
