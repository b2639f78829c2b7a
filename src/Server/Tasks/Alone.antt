-- ===== src/Server/Tasks/Alone.antt =====
-- A task with nothing between its turns is the method of src/server/btpsServer.ts that it stands for:
-- the rules for the parts that methods are made of.
use btps_sdk.Prelude.{
  ◌≡◌, refl, sym, ◌∙◌, Bool, true, false, Option, none, some, List, [], ◌∷◌, if◌then◌else◌,
  Bool-cases, inl, inr,
}
use btps_sdk.Effects
use btps_sdk.Effects.{Outcome, returned, thrown, then_run, recover}
use btps_sdk.Errors.{Thrown}
use btps_sdk.Server.Pipeline
use btps_sdk.Server.Pipeline.{Run, StepOf, ResCtx, socket_closed, restored}
use btps_sdk.Server.Tasks
use btps_sdk.Server.Tasks.{
  Task, stop, turn, fork, both, TaskOf, once, after, try_catch, catching, on_copy, forget,
  unawaited, at_once, unless_sent, run_alone,
}
use btps_sdk.Server.Tasks.Pipeline.{ended_by, acts_task, handler_task, middleware_task}
use btps_sdk.Server.World.{
  ReqCtx, Act, Handler, Surroundings, is_closed, act_step, perform_all, run_script, finish,
  continue_if, execute_middleware,
}

module _ {S : Type 0} where
  -- What follows the task alone is what follows the step.
  pub record RunsAs {A : Type 0} (t : TaskOf S A) (m : StepOf S A) : Type 0 where
    pub runs :
        (k : Outcome A → Task S) (r : Run S) → run_alone (t k) r ≡ run_alone (k (m r).1) (m r).0

  pub once-Runs : {A : Type 0} (m : StepOf S A) → RunsAs (once m) m
  unfolding run_alone
  once-Runs m = record { runs = λ k r. refl }

  pub pure-Runs : {A : Type 0} (a : A) → RunsAs (Tasks.pure a) (Effects.pure a)
  pure-Runs a = record { runs = λ k r. refl }

  after-run :
      {A B : Type 0} (f : A → TaskOf S B) (g : A → StepOf S B) (k : Outcome B → Task S)
      (x : Run S × Outcome A)
      → ((a : A) → RunsAs (f a) (g a))
      → run_alone (after f k x.1) x.0 ≡ run_alone (k (then_run g x).1) (then_run g x).0
  after-run f g k (r, returned a) h = (h a).runs k r
  after-run f g k (r, thrown e) h = refl

  pub >>=-Runs :
      {A B : Type 0} {t : TaskOf S A} {m : StepOf S A} {f : A → TaskOf S B} {g : A → StepOf S B}
      → RunsAs t m
      → ((a : A) → RunsAs (f a) (g a))
      → RunsAs (Tasks.◌>>=◌ t f) (Effects.◌>>=◌ m g)
  >>=-Runs {A} {B} {t} {m} {f} {g} h hf = record {
    runs = λ k r. ◌∙◌ (h.runs (after f k) r) (after-run f g k (m r) hf);
  }

  catching-run :
      {A : Type 0} (f : Thrown → TaskOf S A) (g : Thrown → StepOf S A) (k : Outcome A → Task S)
      (x : Run S × Outcome A)
      → ((e : Thrown) → RunsAs (f e) (g e))
      → run_alone (catching f k x.1) x.0 ≡ run_alone (k (recover g x).1) (recover g x).0
  catching-run f g k (r, returned a) h = refl
  catching-run f g k (r, thrown e) h = (h e).runs k r

  pub try_catch-Runs :
      {A : Type 0} {t : TaskOf S A} {m : StepOf S A} {f : Thrown → TaskOf S A}
      {g : Thrown → StepOf S A}
      → RunsAs t m
      → ((e : Thrown) → RunsAs (f e) (g e))
      → RunsAs (try_catch t f) (Effects.try_catch m g)
  try_catch-Runs {A} {t} {m} {f} {g} h hf = record {
    runs = λ k r. ◌∙◌ (h.runs (catching f k) r) (catching-run f g k (m r) hf);
  }

  restored-run :
      {A : Type 0} (q : ReqCtx) (k : Outcome A → Task S) (x : Run S × Outcome A)
      → run_alone (k x.1) (q, x.0.1) ≡ run_alone (k (restored q x).1) (restored q x).0
  restored-run q k ((_, w), o) = refl

  pub on_copy-Runs :
      {A : Type 0} (f : ReqCtx → ReqCtx) {t : TaskOf S A} {m : StepOf S A}
      → RunsAs t m
      → RunsAs (on_copy f t) (λ r. restored r.0 (m (f r.0, r.1)))
  unfolding run_alone
  on_copy-Runs f {t} {m} h = record {
    runs = λ k r.
        ◌∙◌ (h.runs (λ o. turn (λ r'. (r.0, r'.1)) (λ _. k o)) (f r.0, r.1))
          (restored-run r.0 k (m (f r.0, r.1)));
  }

  pub unless_sent-Runs :
      (sent : Bool) {t : TaskOf S (Unit {0})} {m : StepOf S (Unit {0})}
      → RunsAs t m
      → RunsAs (unless_sent sent t) (Pipeline.unless_sent sent m)
  unless_sent-Runs true h = record { runs = λ k r. refl }
  unless_sent-Runs false h = record { runs = h.runs }

  pub if-Runs :
      {A : Type 0} (b : Bool) {t u : TaskOf S A} {m n : StepOf S A}
      → RunsAs t m
      → RunsAs u n
      → RunsAs (if b then t else u) (if b then m else n)
  if-Runs true h h' = h
  if-Runs false h h' = h'

  -- A step that gives no result but the world.
  pub record IsQuiet (m : StepOf S (Unit {0})) : Type 0 where
    pub quiet : (r : Run S) → m r ≡ ((r.0, (m r).0.1), returned tt)

  then_run-quiet :
      (n : StepOf S (Unit {0})) (k : Outcome (Unit {0}) → Task S) (q : ReqCtx)
      (x : Run S × Outcome (Unit {0}))
      → IsQuiet n
      → x ≡ ((q, x.0.1), returned tt)
      → run_alone (k (returned tt)) (q, (n (q, x.0.1)).0.1)
        ≡ run_alone (k (then_run (λ _. n) x).1) (then_run (λ _. n) x).0
  then_run-quiet n k q x h e =
      let y = n (q, x.0.1) in
      ◌∙◌ (λ i. run_alone (k (sym (h.quiet (q, x.0.1)) i).1) (sym (h.quiet (q, x.0.1)) i).0)
        (λ i. run_alone (k (then_run (λ _. n) (sym e i)).1) (then_run (λ _. n) (sym e i)).0)

  pub at_once-Runs :
      {t u : TaskOf S (Unit {0})} {m n : StepOf S (Unit {0})}
      → IsQuiet m
      → IsQuiet n
      → RunsAs t m
      → RunsAs u n
      → RunsAs (at_once t u) (Effects.◌>>◌ m n)
  unfolding run_alone
  at_once-Runs {t} {u} {m} {n} qm qn h h' = record {
    runs = λ k r.
        ◌∙◌
          (λ i.
            run_alone (k (returned tt))
              (r.0, run_alone (u (λ o. stop)) (r.0, h.runs (λ o. stop) r i)))
          (◌∙◌ (λ i. run_alone (k (returned tt)) (r.0, h'.runs (λ o. stop) (r.0, (m r).0.1) i))
            (then_run-quiet n k r.0 (m r) qn (qm.quiet r)));
  }

  pub unawaited-Runs :
      {A : Type 0} {t : TaskOf S A} {m : StepOf S A}
      → RunsAs t m
      → RunsAs (unawaited t) (λ r. ((r.0, (m r).0.1), returned tt))
  unfolding run_alone
  unawaited-Runs {A} {t} {m} h = record {
    runs = λ k r. λ i. run_alone (k (returned tt)) (r.0, h.runs (λ o. stop) r i);
  }

  pub forget-Runs :
      {A : Type 0} {t : TaskOf S A} {m : StepOf S A}
      → RunsAs t m
      → RunsAs (forget t) (λ r. ((m r).0, returned tt))
  forget-Runs h = record { runs = λ k r. h.runs (λ o. k (returned tt)) r }

  -- Equal steps.
  pub Runs-as :
      {A : Type 0} {t : TaskOf S A} {m n : StepOf S A}
      → RunsAs t m
      → ((r : Run S) → m r ≡ n r)
      → RunsAs t n
  Runs-as {A} {t} {m} {n} h e = record {
    runs = λ k r. ◌∙◌ (h.runs k r) (λ i. run_alone (k (e r i).1) (e r i).0);
  }

module _ {S : Type 0} (env : Surroundings) (res : ResCtx) where
  ended_by-run :
      (throws : Option Thrown) (k : Outcome (Unit {0}) → Task S) (r : Run S)
      → run_alone (k (ended_by throws)) r ≡ run_alone (k (finish throws r).1) (finish throws r).0
  ended_by-run none k r = refl
  ended_by-run (some e) k r = refl

  acts_task-Runs :
      (acts : List (Act S)) (throws : Option Thrown)
      → RunsAs (acts_task env res acts throws) (perform_all env res.reply res.req_id acts throws)
  unfolding acts_task perform_all
  acts_task-Runs [] throws = record { runs = ended_by-run throws }
  acts_task-Runs (a ∷ acts) throws =
      >>=-Runs (once-Runs (act_step env res.reply res.req_id a)) (λ _. acts_task-Runs acts throws)

  abbrev run_of : Handler S → StepOf S (Unit {0})
  run_of h r = run_script env res.reply res.req_id (h r.0 r.1) r

  pub handler_task-Runs : (h : Handler S) → RunsAs (handler_task env res h) (run_of h)
  unfolding handler_task run_script run_alone
  handler_task-Runs h = record {
    runs = λ k r. (acts_task-Runs (h r.0 r.1).acts (h r.0 r.1).throws).runs k r;
  }

  abbrev after_handler : List (Handler S) → StepOf S Bool
  after_handler hs =
      Effects.◌>>=◌ socket_closed
        (λ sent. if sent then Effects.pure true else execute_middleware env res.reply res.req_id hs)

  after_handler-continue_if :
      (hs : List (Handler S)) (x : Run S × Outcome (Unit {0}))
      → then_run (λ _. after_handler hs) x
        ≡ continue_if (execute_middleware env res.reply res.req_id hs) x
  after_handler-continue_if hs (r, thrown e) = refl
  after_handler-continue_if hs ((q, w), returned t) = elim (Bool-cases (is_closed w.socket)) [
    | inl e ↦ rw e refl
    | inr e ↦ rw e refl
  ]

  execute_middleware-cons :
      (h : Handler S) (hs : List (Handler S)) (r : Run S)
      → Effects.◌>>=◌ socket_closed
          (λ closed.
            if closed then Effects.pure true else Effects.◌>>=◌ (run_of h) (λ _. after_handler hs))
          r
        ≡ execute_middleware env res.reply res.req_id (h ∷ hs) r
  unfolding execute_middleware
  execute_middleware-cons h hs (q, w) = elim (Bool-cases (is_closed w.socket)) [
    | inl e ↦ rw e refl
    | inr e ↦ rw e (after_handler-continue_if hs (run_of h (q, w)))
  ]

  pub middleware_task-Runs :
      (hs : List (Handler S))
      → RunsAs (middleware_task env res hs) (execute_middleware env res.reply res.req_id hs)
  unfolding middleware_task execute_middleware
  middleware_task-Runs [] = pure-Runs false
  middleware_task-Runs (h ∷ hs) =
      Runs-as
        (>>=-Runs (once-Runs socket_closed) (λ closed. if-Runs closed (pure-Runs true) (
          >>=-Runs (handler_task-Runs h) (λ _.
            >>=-Runs (once-Runs socket_closed)
              (λ sent. if-Runs sent (pure-Runs true) (middleware_task-Runs hs))))))
        (execute_middleware-cons h hs)
