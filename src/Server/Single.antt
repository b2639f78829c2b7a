-- ===== src/Server/Single.antt =====
-- What src/server/btpsServer.ts writes to a socket.
use btps_sdk.Prelude.{
  ◌≤◌, ◌≡◌, true, false, Option, [], length, All, arith, Bool-cases, none, some, inl, inr,
}
use btps_sdk.Errors.{Thrown, transform_to_exception}
use btps_sdk.Server.Closing.{is_closed-close_socket}
use btps_sdk.Server.Invariant.{IsInvariant}
use btps_sdk.Server.World.{
  Entry, emitted, forwarded, reported, Response, World, Surroundings, is_closed, log_entry,
  bad_response, destroy_unless, write_response, send_btps_response,
}

-- Nothing was written to an open socket, no more than one response to any, and each conforms.
pub record IsSingle {S : Type 0} (env : Surroundings) (w : World S) : Type 0 where
  pub unanswered : is_closed w.socket ≡ false → w.written ≡ []
  pub bounded : length w.written ≤ 1
  pub conforming : All (λ r. env.conforms r ≡ true) w.written

give_up-IsSingle :
    {S : Type 0} (env : Surroundings) (t : Option Thrown) (w : World S)
    → IsSingle env w
    → IsSingle env (destroy_unless t w)
give_up-IsSingle env none w h = record {
  unanswered = λ e. cc;
  bounded = h.bounded;
  conforming = h.conforming;
}
give_up-IsSingle env (some e) w h = h

logged-IsSingle :
    {S : Type 0} (env : Surroundings) (e : Entry) (w : World S)
    → IsSingle env w
    → IsSingle env (log_entry e w)
logged-IsSingle env e w h = record {
  unanswered = h.unanswered;
  bounded = h.bounded;
  conforming = h.conforming;
}

write_response-IsSingle :
    {S : Type 0} (env : Surroundings) (r : Response) (t : Option Thrown) (w : World S)
    → IsSingle env w
    → w.written ≡ []
    → env.conforms r ≡ true
    → IsSingle env (write_response env r t w)
write_response-IsSingle env r none w h e ok = record {
  unanswered = λ open_still. cc;
  bounded = rw e (omega arith);
  conforming = rw e (ok, tt);
}
write_response-IsSingle env r (some t) w h e ok =
    give_up-IsSingle env _ _ (logged-IsSingle env (reported (transform_to_exception t)) w h)

send_btps_response-IsSingle :
    {S : Type 0} (env : Surroundings) (r : Response) (w : World S)
    → IsSingle env w
    → IsSingle env (send_btps_response env r w)
unfolding send_btps_response
send_btps_response-IsSingle env r w h = elim (Bool-cases (is_closed w.socket)) [
  | inl closed ↦ rw closed h
  | inr open_still ↦ elim (Bool-cases (env.conforms r)) [
    | inl ok ↦
        rw (open_still, ok)
          (write_response-IsSingle env r (env.write r) w h (h.unanswered open_still) ok)
    | inr bad ↦
        rw (open_still, bad)
          (give_up-IsSingle env _ _ (logged-IsSingle env (reported bad_response) w h))
  ]
]

pub IsSingle-invariant :
    {S : Type 0} (env : Surroundings) → IsInvariant {S = S} env (λ d. Unit) (IsSingle env)
IsSingle-invariant env = record {
  on_response = send_btps_response-IsSingle env;
  on_end = λ w h. record {
    unanswered = λ e. cc (is_closed-close_socket w.socket, e);
    bounded = h.bounded;
    conforming = h.conforming;
  };
  on_destroy =
      λ w h. record { unanswered = λ e. cc; bounded = h.bounded; conforming = h.conforming };
  on_change =
      λ s w h. record { unanswered = h.unanswered; bounded = h.bounded; conforming = h.conforming };
  on_report = λ e w h. logged-IsSingle env (reported e) w h;
  on_emitted = λ d w ok h. logged-IsSingle env (emitted d) w h;
  on_forwarded = λ d w ok h. logged-IsSingle env (forwarded d) w h;
}
