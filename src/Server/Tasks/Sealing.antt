-- ===== src/Server/Tasks/Sealing.antt =====
-- Tasks of src/server/btpsServer.ts that do not come to their end before the socket is closed: the
-- rules for the parts that methods are made of. A closed socket stays closed, whatever runs.
use btps_sdk.Prelude.{
  ◌≡◌, ◌⊎◌, refl, Bool, true, false, Option, none, some, List, [], ◌∷◌, if◌then◌else◌, inl, inr,
  arith,
}
use btps_sdk.Effects.{Outcome, returned, thrown}
use btps_sdk.Errors.{Thrown}
use btps_sdk.Server.Pipeline.{Run, StepOf, ResCtx, socket_closed}
use btps_sdk.Server.Tasks
use btps_sdk.Server.Tasks.{
  Task, stop, turn, fork, both, TaskOf, once, after, try_catch, catching, on_copy, forget,
  unawaited, at_once, unless_sent,
}
use btps_sdk.Server.Tasks.Pipeline.{ended_by, acts_task, handler_task, middleware_task}
use btps_sdk.Server.Triples.{IsClosed, Closes}
use btps_sdk.Server.World.{ReqCtx, Act, Handler, Surroundings, is_closed, act_step}

abbrev pub Anything : {A : Type 0} → A → Type 0
Anything a = Unit

abbrev pub Nothing : {A : Type 0} → A → Type 0
Nothing a = ⊥

abbrev pub IsUnsent : Bool → Type 0
IsUnsent sent = sent ≡ false

module _ {S : Type 0} where
  -- A turn closes the socket, or leads to a task that will.
  abbrev pub IsSealing : Task S → Type 0
  IsSealing stop = ⊥
  IsSealing (turn f k) = (r : Run S) → IsClosed (f r).1 ⊎ IsSealing (k r)
  IsSealing (fork t u) = IsSealing u
  IsSealing (both t u v) = IsSealing v

  -- A method that closes the socket, throws, or returns a result of `R`.
  pub record Seals {A : Type 0} (t : TaskOf S A) (R : A → Type 0) : Type 0 where
    pub seals :
        (k : Outcome A → Task S)
        → ((a : A) → R a → IsSealing (k (returned a)))
        → ((e : Thrown) → IsSealing (k (thrown e)))
        → IsSealing (t k)

  -- A method that closes the socket.
  pub record Shuts {A : Type 0} (t : TaskOf S A) : Type 0 where
    pub shuts : (k : Outcome A → Task S) → IsSealing (t k)

  pub Shuts-Seals : {A : Type 0} {t : TaskOf S A} → Shuts t → Seals t Nothing
  Shuts-Seals h = record { seals = λ k hk he. h.shuts k }

  outcome-IsSealing :
      {A : Type 0} (k : Outcome A → Task S) (o : Outcome A)
      → ((a : A) → Unit {0} → IsSealing (k (returned a)))
      → ((e : Thrown) → IsSealing (k (thrown e)))
      → IsSealing (k o)
  outcome-IsSealing k (returned a) hk he = hk a tt
  outcome-IsSealing k (thrown e) hk he = he e

  pub once-any : {A : Type 0} (m : StepOf S A) → Seals (once m) Anything
  once-any m = record { seals = λ k hk he r. inr (outcome-IsSealing k (m r).1 hk he) }

  pub once-Shuts : {A : Type 0} (m : StepOf S A) → Closes m → Shuts (once m)
  once-Shuts m h = record { shuts = λ k r. inl (h.closes r) }

  closed-cases :
      (k : Outcome Bool → Task S) (b : Bool)
      → ((a : Bool) → IsUnsent a → IsSealing (k (returned a)))
      → (b ≡ true) ⊎ IsSealing (k (returned b))
  closed-cases k true hk = inl refl
  closed-cases k false hk = inr (hk false refl)

  pub closed-Seals : Seals (once socket_closed) IsUnsent
  closed-Seals = record { seals = λ k hk he r. closed-cases k (is_closed r.1.socket) hk }

  pub pure-Seals : {A : Type 0} (a : A) {R : A → Type 0} → R a → Seals (Tasks.pure a) R
  pure-Seals a h = record { seals = λ k hk he. hk a h }

  pub >>=-Seals :
      {A B : Type 0} {t : TaskOf S A} {f : A → TaskOf S B} (M : A → Type 0) {R : B → Type 0}
      → Seals t M
      → ((a : A) → M a → Seals (f a) R)
      → Seals (Tasks.◌>>=◌ t f) R
  >>=-Seals {A} {B} {t} {f} M h hf = record {
    seals = λ k hk he. h.seals (after f k) (λ a ha. (hf a ha).seals k hk he) he;
  }

  -- A method of which nothing is known, and the rest.
  pub any-then-Seals :
      {A B : Type 0} {t : TaskOf S A} {f : A → TaskOf S B} {R : B → Type 0}
      → Seals t Anything
      → ((a : A) → Seals (f a) R)
      → Seals (Tasks.◌>>=◌ t f) R
  any-then-Seals h hf = >>=-Seals Anything h (λ a _. hf a)

  pub try_catch-Shuts :
      {A : Type 0} {t : TaskOf S A} {f : Thrown → TaskOf S A}
      → Seals t Nothing
      → ((e : Thrown) → Shuts (f e))
      → Shuts (try_catch t f)
  try_catch-Shuts {A} {t} {f} h hf = record {
    shuts = λ k. h.seals (catching f k) (λ a e. elim e [ ]) (λ e. (hf e).shuts k);
  }

  pub on_copy-Seals :
      {A : Type 0} (f : ReqCtx → ReqCtx) {t : TaskOf S A} {R : A → Type 0}
      → Seals t R
      → Seals (on_copy f t) R
  on_copy-Seals f h = record {
    seals = λ k hk he r. inr (h.seals _ (λ a ha r'. inr (hk a ha)) (λ e r'. inr (he e)));
  }

  pub on_copy-Shuts :
      {A : Type 0} (f : ReqCtx → ReqCtx) {t : TaskOf S A} → Shuts t → Shuts (on_copy f t)
  on_copy-Shuts f h = record { shuts = λ k r. inr (h.shuts _) }

  pub forget-Shuts : {A : Type 0} {t : TaskOf S A} → Shuts t → Shuts (forget t)
  forget-Shuts h = record { shuts = λ k. h.shuts _ }

  pub if-Seals :
      {A : Type 0} (b : Bool) {t u : TaskOf S A} {R : A → Type 0}
      → Seals t R
      → Seals u R
      → Seals (if b then t else u) R
  if-Seals true ht hu = ht
  if-Seals false ht hu = hu

  -- What follows an answer that has not been sent.
  pub unsent-Seals :
      (sent : Bool) {u : TaskOf S Bool} {R : Bool → Type 0}
      → IsUnsent sent
      → Seals u R
      → Seals (if sent then Tasks.pure true else u) R
  unsent-Seals true e h = absurd (ground arith)
  unsent-Seals false e h = h

  unless_sent-Seals :
      (sent : Bool) {rest : TaskOf S (Unit {0})}
      → IsUnsent sent
      → Seals rest Nothing
      → Seals (unless_sent sent rest) Nothing
  unless_sent-Seals true e h = absurd (ground arith)
  unless_sent-Seals false e h = h

  -- Middleware, and then the rest unless they sent the response.
  pub guarded :
      {t : TaskOf S Bool} {rest : TaskOf S (Unit {0})}
      → Seals t IsUnsent
      → Seals rest Nothing
      → Seals (Tasks.◌>>=◌ t (λ sent. unless_sent sent rest)) Nothing
  guarded h hr = >>=-Seals IsUnsent h (λ sent e. unless_sent-Seals sent e hr)

module _ {S : Type 0} (env : Surroundings) (res : ResCtx) where
  ended_by-IsSealing :
      (throws : Option Thrown) (k : Outcome (Unit {0}) → Task S)
      → ((a : Unit {0}) → Unit {0} → IsSealing (k (returned a)))
      → ((e : Thrown) → IsSealing (k (thrown e)))
      → IsSealing (k (ended_by throws))
  ended_by-IsSealing none k hk he = hk tt tt
  ended_by-IsSealing (some e) k hk he = he e

  acts_task-any :
      (acts : List (Act S)) (throws : Option Thrown)
      → Seals (acts_task env res acts throws) Anything
  unfolding acts_task
  acts_task-any [] throws = record { seals = ended_by-IsSealing throws }
  acts_task-any (a ∷ acts) throws =
      any-then-Seals (once-any (act_step env res.reply res.req_id a))
        (λ _. acts_task-any acts throws)

  pub handler_task-any : (h : Handler S) → Seals (handler_task env res h) Anything
  unfolding handler_task
  handler_task-any h = record {
    seals = λ k hk he r. inr ((acts_task-any (h r.0 r.1).acts (h r.0 r.1).throws).seals k hk he);
  }

  -- Middleware that say that the response was not sent, or that the socket is closed.
  pub middleware_task-Seals : (hs : List (Handler S)) → Seals (middleware_task env res hs) IsUnsent
  unfolding middleware_task
  middleware_task-Seals [] = pure-Seals false refl
  middleware_task-Seals (h ∷ hs) = >>=-Seals IsUnsent closed-Seals (λ closed e.
      unsent-Seals closed e (
        any-then-Seals (handler_task-any h) (λ _.
          >>=-Seals IsUnsent closed-Seals
            (λ sent e'. unsent-Seals sent e' (middleware_task-Seals hs)))))
