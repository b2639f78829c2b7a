-- ===== src/Server/Tasks/Turns.antt =====
-- Schedules that bring the methods under way to their end (the event loop of
-- src/server/btpsServer.ts).
use btps_sdk.Prelude.{◌≡◌, refl, ◌∙◌, true, List, [], ◌∷◌, ◌++◌, map, arith}
use btps_sdk.Server.Tasks.{Task, stop, turn, fork, both, run_alone}
use btps_sdk.Server.Tasks.Schedule.{
  Proc, finished, running, beside, joining, Side, left, right, is_done, is_idle, beside_right,
  beside_left, join_right, join_left, advance, advance_pair, advance_all,
}
use btps_sdk.Server.World.{World, ReqCtx}

module _ {S : Type 0} where
  advance_all-append :
      (ps qs : List (List Side)) (s : Proc S × World S)
      → advance_all (ps ++ qs) s ≡ advance_all qs (advance_all ps s)
  unfolding advance_all
  advance_all-append [] qs s = refl
  advance_all-append (p ∷ ps) qs s = advance_all-append ps qs (advance_pair p s)

  -- Some turns lead from the one to the other.
  pub record Leads (s t : Proc S × World S) : Type 0 where
    pub paths : List (List Side)
    pub leads : advance_all paths s ≡ t

  pub stay-Leads : (s : Proc S × World S) → Leads s s
  unfolding advance_all
  stay-Leads s = record { paths = []; leads = refl }

  pub then-Leads : {s t u : Proc S × World S} → Leads s t → Leads t u → Leads s u
  then-Leads {s} h k = record {
    paths = h.paths ++ k.paths;
    leads = advance_all-append h.paths k.paths s ∙ rw (h.leads) k.leads;
  }

  pub turn-Leads : (path : List Side) (s : Proc S × World S) → Leads s (advance_pair path s)
  unfolding advance_all
  turn-Leads path s = record { paths = path ∷ []; leads = refl }

  advance_all-frame :
      (f : Proc S × World S → Proc S × World S) (side : Side)
      (step : (p : List Side) (s : Proc S × World S)
        → advance_pair (side ∷ p) (f s) ≡ f (advance_pair p s))
      (ps : List (List Side)) (s : Proc S × World S)
      → advance_all (map (◌∷◌ side) ps) (f s) ≡ f (advance_all ps s)
  unfolding advance_all
  advance_all-frame f side step [] s = refl
  advance_all-frame f side step (p ∷ ps) s =
      (λ i. advance_all (map (◌∷◌ side) ps) (step p s i))
      ∙ advance_all-frame f side step ps (advance_pair p s)

  -- The turns of a part are turns of the whole.
  frame-Leads :
      (f : Proc S × World S → Proc S × World S) (side : Side)
      → ((p : List Side) (s : Proc S × World S)
          → advance_pair (side ∷ p) (f s) ≡ f (advance_pair p s))
      → {s t : Proc S × World S} → Leads s t
      → Leads (f s) (f t)
  frame-Leads f side step {s} h = record {
    paths = map (◌∷◌ side) h.paths;
    leads = advance_all-frame f side step h.paths s ∙ (λ i. f (h.leads i));
  }

  right-step :
      (a : Proc S) (p : List Side) (s : Proc S × World S)
      → advance_pair (right ∷ p) (beside_left a s) ≡ beside_left a (advance_pair p s)
  unfolding advance
  right-step a p (b, w) = refl

  left-step :
      (b : Proc S) (p : List Side) (s : Proc S × World S)
      → advance_pair (left ∷ p) (beside_right b s) ≡ beside_right b (advance_pair p s)
  unfolding advance
  left-step b p (a, w) = refl

  join_left-step :
      (b : Proc S) (q : ReqCtx) (t : Task S) (p : List Side) (s : Proc S × World S)
      → advance_pair (left ∷ p) (join_right b q t s) ≡ join_right b q t (advance_pair p s)
  unfolding advance
  join_left-step b q t p (a, w) = refl

  join_right-step :
      (a : Proc S) (q : ReqCtx) (t : Task S) (p : List Side) (s : Proc S × World S)
      → advance_pair (right ∷ p) (join_left a q t s) ≡ join_left a q t (advance_pair p s)
  unfolding advance
  join_right-step a q t p (b, w) = refl

  pub right-Leads :
      (a : Proc S) {s t : Proc S × World S} → Leads s t → Leads (beside_left a s) (beside_left a t)
  right-Leads a = frame-Leads (beside_left a) right (right-step a)

  is_idle-is_done : (a : Proc S) → is_idle a ≡ true → is_done a ≡ true
  is_idle-is_done finished h = refl
  is_idle-is_done (running q t) h = h
  is_idle-is_done (beside a b) h = is_idle-is_done b (ground arith)
  is_idle-is_done (joining a b q t) h = h

  -- The part comes to its end, with the world as it is then.
  pub record Ends (a : Proc S) (w w' : World S) : Type 0 where
    pub rest : Proc S
    pub turns : Leads (a, w) (rest, w')
    pub idle : is_idle rest ≡ true

  join-Leads :
      (a b : Proc S) (q : ReqCtx) (t : Task S) (w : World S)
      → is_idle a ≡ true
      → is_idle b ≡ true
      → Leads (joining a b q t, w) (beside (beside a b) (running q t), w)
  unfolding advance advance_all
  join-Leads a b q t w ha hb = record {
    paths = [] ∷ [];
    leads = rw (is_idle-is_done a ha, is_idle-is_done b hb) refl;
  }

  abbrev step_first :
      {a : Proc S} {w w' w'' : World S} (b : Proc S)
      → Leads (a, w) (b, w')
      → Ends b w' w''
      → Ends a w w''
  step_first b h k = record { rest = k.rest; turns = then-Leads h k.turns; idle = k.idle }

  abbrev beside-Ends :
      {a b : Proc S} {w w' w'' : World S} → Ends a w w' → Ends b w' w'' → Ends (beside a b) w w''
  beside-Ends {a} {b} h k = record {
    rest = beside h.rest k.rest;
    turns =
        then-Leads (frame-Leads (beside_right b) left (left-step b) h.turns)
          (frame-Leads (beside_left h.rest) right (right-step h.rest) k.turns);
    idle = rw (h.idle, k.idle) refl;
  }

  joining-Ends :
      {a b : Proc S} {q : ReqCtx} {t : Task S} {w w' w'' w''' : World S}
      → Ends a w w'
      → Ends b w' w''
      → Ends (running q t) w'' w'''
      → Ends (joining a b q t) w w'''
  joining-Ends {a} {b} {q} {t} {w} {w'} {w''} h k l = record {
    rest = beside (beside h.rest k.rest) l.rest;
    turns = then-Leads (frame-Leads (join_right b q t) left (join_left-step b q t) h.turns) (
        then-Leads (frame-Leads (join_left h.rest q t) right (join_right-step h.rest q t) k.turns) (
          then-Leads (join-Leads h.rest k.rest q t w'' h.idle k.idle)
            (right-Leads (beside h.rest k.rest) l.turns)));
    idle = rw (h.idle, k.idle, l.idle) refl;
  }

  -- A method comes to its end as it does with nothing between its turns.
  pub running-Ends :
      (t : Task S) (q : ReqCtx) (w : World S) → Ends (running q t) w (run_alone t (q, w))
  unfolding run_alone advance
  running-Ends stop q w = record {
    rest = finished;
    turns = turn-Leads [] (running q stop, w);
    idle = refl;
  }
  running-Ends (turn f k) q w =
      step_first _ (turn-Leads [] (running q (turn f k), w))
        (running-Ends (k (q, w)) (f (q, w)).0 (f (q, w)).1)
  running-Ends (fork t u) q w =
      step_first _ (turn-Leads [] (running q (fork t u), w))
        (beside-Ends (running-Ends t q w) (running-Ends u q (run_alone t (q, w))))
  running-Ends (both t u v) q w = step_first _ (turn-Leads [] (running q (both t u v), w)) (
      joining-Ends (running-Ends t q w) (running-Ends u q (run_alone t (q, w)))
        (running-Ends v q (run_alone u (q, run_alone t (q, w)))))

  -- Whatever is under way can be brought to its end.
  pub record Drains (a : Proc S) (w : World S) : Type 0 where
    pub last : World S
    pub ends : Ends a w last

  pub drains : (a : Proc S) (w : World S) → Drains a w
  drains finished w = record {
    last = w;
    ends = record { rest = finished; turns = stay-Leads (finished, w); idle = refl };
  }
  drains (running q t) w = record { last = run_alone t (q, w); ends = running-Ends t q w }
  drains (beside a b) w =
      let h = drains a w in
      let k = drains b h.last in record { last = k.last; ends = beside-Ends h.ends k.ends }
  drains (joining a b q t) w =
      let h = drains a w in
      let k = drains b h.last in
      record {
        last = run_alone t (q, k.last);
        ends = joining-Ends h.ends k.ends (running-Ends t q k.last);
      }
