-- ===== src/Server/Tasks/Safety.antt =====
-- Invariants of the single acts of src/server/btpsServer.ts, through every turn of a task: each turn
-- keeps them whatever ran since the turn before.
use btps_sdk.Prelude.{◌≡◌, refl, Bool, true, false, Option, List, [], ◌∷◌, if◌then◌else◌}
use btps_sdk.Effects
use btps_sdk.Effects.{Outcome, returned, thrown}
use btps_sdk.Errors.{Thrown}
use btps_sdk.Server.Invariant.{IsInvariant, Keeps, act_step-Keeps, on_store-Keeps}
use btps_sdk.Server.Pipeline.{Run, StepOf, ResCtx, on_store, stored, socket_closed}
use btps_sdk.Server.Signature.{Processed}
use btps_sdk.Server.Tasks
use btps_sdk.Server.Tasks.{
  Task, stop, turn, fork, both, TaskOf, once, after, try_catch, catching, on_copy, forget,
  unawaited, at_once, unless_sent,
}
use btps_sdk.Server.Tasks.Pipeline.{ended_by, acts_task, handler_task, middleware_task}
use btps_sdk.Server.World.{World, ReqCtx, Act, Handler, Surroundings}

module _ {S : Type 0} (P : World S → Type 0) where
  -- Every turn that the task can come to keeps `P`.
  abbrev pub IsSafe : Task S → Type 0
  IsSafe stop = Unit
  IsSafe (turn f k) = (r : Run S) → (P r.1 → P (f r).1) × IsSafe (k r)
  IsSafe (fork t u) = IsSafe t × IsSafe u
  IsSafe (both t u v) = IsSafe t × IsSafe u × IsSafe v

  -- A method is safe where what comes after it is.
  pub record IsSafeBefore {A : Type 0} (t : TaskOf S A) : Type 0 where
    pub safe : (k : Outcome A → Task S) → ((o : Outcome A) → IsSafe (k o)) → IsSafe (t k)

  pub once-Safe : {A : Type 0} (m : StepOf S A) → Keeps P m → IsSafeBefore (once m)
  once-Safe m h = record { safe = λ k hk r. (h.keep r, hk (m r).1) }

  pub pure-Safe : {A : Type 0} (a : A) → IsSafeBefore (Tasks.pure {S = S} a)
  pure-Safe a = record { safe = λ k hk. hk (returned a) }

  after-Safe :
      {A B : Type 0} (f : A → TaskOf S B) (k : Outcome B → Task S) (o : Outcome A)
      → ((a : A) → IsSafeBefore (f a))
      → ((o : Outcome B) → IsSafe (k o))
      → IsSafe (after f k o)
  after-Safe f k (returned a) hf hk = (hf a).safe k hk
  after-Safe f k (thrown e) hf hk = hk (thrown e)

  pub >>=-Safe :
      {A B : Type 0} (t : TaskOf S A) (f : A → TaskOf S B)
      → IsSafeBefore t
      → ((a : A) → IsSafeBefore (f a))
      → IsSafeBefore (Tasks.◌>>=◌ t f)
  >>=-Safe t f ht hf = record { safe = λ k hk. ht.safe (after f k) (λ o. after-Safe f k o hf hk) }

  catching-Safe :
      {A : Type 0} (h : Thrown → TaskOf S A) (k : Outcome A → Task S) (o : Outcome A)
      → ((e : Thrown) → IsSafeBefore (h e))
      → ((o : Outcome A) → IsSafe (k o))
      → IsSafe (catching h k o)
  catching-Safe h k (returned a) hh hk = hk (returned a)
  catching-Safe h k (thrown e) hh hk = (hh e).safe k hk

  pub try_catch-Safe :
      {A : Type 0} (t : TaskOf S A) (h : Thrown → TaskOf S A)
      → IsSafeBefore t
      → ((e : Thrown) → IsSafeBefore (h e))
      → IsSafeBefore (try_catch t h)
  try_catch-Safe t h ht hh = record {
    safe = λ k hk. ht.safe (catching h k) (λ o. catching-Safe h k o hh hk);
  }

  pub on_copy-Safe :
      {A : Type 0} (f : ReqCtx → ReqCtx) (t : TaskOf S A)
      → IsSafeBefore t
      → IsSafeBefore (on_copy f t)
  on_copy-Safe f t ht = record { safe = λ k hk r. (λ h. h, ht.safe _ (λ o r'. (λ h. h, hk o))) }

  pub forget-Safe : {A : Type 0} (t : TaskOf S A) → IsSafeBefore t → IsSafeBefore (forget t)
  forget-Safe t ht = record { safe = λ k hk. ht.safe _ (λ o. hk (returned tt)) }

  pub unawaited-Safe : {A : Type 0} (t : TaskOf S A) → IsSafeBefore t → IsSafeBefore (unawaited t)
  unawaited-Safe t ht = record { safe = λ k hk. (ht.safe _ (λ o. tt), hk (returned tt)) }

  pub at_once-Safe :
      (t u : TaskOf S (Unit {0})) → IsSafeBefore t → IsSafeBefore u → IsSafeBefore (at_once t u)
  at_once-Safe t u ht hu = record {
    safe = λ k hk. (ht.safe _ (λ o. tt), hu.safe _ (λ o. tt), hk (returned tt));
  }

  pub unless_sent-Safe :
      (sent : Bool) (rest : TaskOf S (Unit {0}))
      → IsSafeBefore rest
      → IsSafeBefore (unless_sent sent rest)
  unless_sent-Safe true rest h = pure-Safe tt
  unless_sent-Safe false rest h = h

  pub if-Safe :
      {A : Type 0} (b : Bool) (t u : TaskOf S A)
      → (b ≡ true → IsSafeBefore t)
      → IsSafeBefore u
      → IsSafeBefore (if b then t else u)
  if-Safe true t u ht hu = ht refl
  if-Safe false t u ht hu = hu

module _ {S : Type 0} (env : Surroundings) {Q : Processed → Type 0} (P : World S → Type 0)
    (inv : IsInvariant env Q P) where
  after-stored-Safe :
      {A B : Type 0} (q : ReqCtx) (w : World S) (f : A → TaskOf S B) (k : Outcome B → Task S)
      (x : S × Outcome A)
      → ((a : A) → x.1 ≡ returned a → IsSafeBefore P (f a))
      → ((o : Outcome B) → IsSafe P (k o))
      → IsSafe P (after f k (stored q w x).1)
  after-stored-Safe q w f k (s, returned a) h hk = (h a refl).safe k hk
  after-stored-Safe q w f k (s, thrown e) h hk = hk (thrown e)

  -- What follows a check may rely on its result.
  pub on_store-bind-Safe :
      {A B : Type 0} (m : Effects.Act S A) (f : A → TaskOf S B)
      → ((a : A) (s : S) → (m s).1 ≡ returned a → IsSafeBefore P (f a))
      → IsSafeBefore P (Tasks.◌>>=◌ (once (on_store m)) f)
  on_store-bind-Safe m f h = record {
    safe = λ k hk r. (
      (on_store-Keeps env P inv m).keep r,
      after-stored-Safe r.0 r.1 f k (m r.1.store) (λ a e. h a r.1.store e) hk,
    );
  }

  acts_task-Safe :
      (res : ResCtx) (acts : List (Act S)) (throws : Option Thrown)
      → IsSafeBefore P (acts_task env res acts throws)
  unfolding acts_task
  acts_task-Safe res [] throws = record { safe = λ k hk. hk (ended_by throws) }
  acts_task-Safe res (a ∷ acts) throws =
      >>=-Safe P _ _ (once-Safe P _ (act_step-Keeps env P inv res.reply res.req_id a))
        (λ _. acts_task-Safe res acts throws)

  pub handler_task-Safe : (res : ResCtx) (h : Handler S) → IsSafeBefore P (handler_task env res h)
  unfolding handler_task
  handler_task-Safe res h = record {
    safe = λ k hk r. (λ hr. hr, (acts_task-Safe res (h r.0 r.1).acts (h r.0 r.1).throws).safe k hk);
  }

  pub closed-Safe : IsSafeBefore P (once socket_closed)
  closed-Safe = once-Safe P socket_closed (record { keep = λ r h. h })

  pub middleware_task-Safe :
      (res : ResCtx) (hs : List (Handler S)) → IsSafeBefore P (middleware_task env res hs)
  unfolding middleware_task
  middleware_task-Safe res [] = pure-Safe P false
  middleware_task-Safe res (h ∷ hs) = >>=-Safe P _ _ closed-Safe (λ closed.
      if-Safe P closed _ _ (λ _. pure-Safe P true)
        (>>=-Safe P _ _ (handler_task-Safe res h) (λ _.
          >>=-Safe P _ _ closed-Safe
            (λ sent. if-Safe P sent _ _ (λ _. pure-Safe P true) (middleware_task-Safe res hs)))))
