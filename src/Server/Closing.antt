-- ===== src/Server/Closing.antt =====
-- The socket after the answers of src/server/btpsServer.ts.
use btps_sdk.Prelude.{◌≡◌, refl, true, Option, none, some, Bool-cases, inl, inr}
use btps_sdk.Crypto.{Platform}
use btps_sdk.Errors.{BtpError, Thrown, Exception, transform_to_exception}
use btps_sdk.Json.{Json}
use btps_sdk.Server.Invariant.{IsInvariant}
use btps_sdk.Server.Pipeline.{Run, Config, on_world, answer}
use btps_sdk.Server.Triples.{IsClosed, Closes}
use btps_sdk.Server.World.{
  live, ended, destroyed, Socket, Response, World, Surroundings, is_closed, close_socket, give_up,
  bad_response, write_response, send_throws, send_btps_response, send_btps_error, finish,
}
use btps_sdk.Trust.Store.{TrustStore}

pub is_closed-close_socket : (s : Socket) → is_closed (close_socket s) ≡ true
is_closed-close_socket live = refl
is_closed-close_socket ended = refl
is_closed-close_socket destroyed = refl

module _ {S : Type 0} (env : Surroundings) where
  IsClosed-send_btps_response :
      (r : Response) (w : World S) → IsClosed w → IsClosed (send_btps_response env r w)
  unfolding send_btps_response
  IsClosed-send_btps_response r w h = rw h h

  -- A closed socket stays closed.
  pub IsClosed-invariant : IsInvariant {S = S} env (λ d. Unit) IsClosed
  IsClosed-invariant = record {
    on_response = IsClosed-send_btps_response;
    on_end = λ w h. is_closed-close_socket w.socket;
    on_destroy = λ w h. refl;
    on_change = λ s w h. h;
    on_report = λ e w h. h;
    on_emitted = λ d w ok h. h;
    on_forwarded = λ d w ok h. h;
  }

  finish-IsClosed : (t : Option Thrown) (r : Run S) → IsClosed r.1 → IsClosed (finish t r).0.1
  finish-IsClosed none r h = h
  finish-IsClosed (some e) r h = h

  module _ (calm : (e : Exception) → env.on_error e ≡ none) where
    give_up-IsClosed : (e : Exception) (w : World S) → IsClosed (give_up env e w)
    give_up-IsClosed e w = rw (calm e) refl

    write_response-IsClosed :
        (r : Response) (t : Option Thrown) (w : World S) → IsClosed (write_response env r t w)
    write_response-IsClosed r none w = refl
    write_response-IsClosed r (some e) w = give_up-IsClosed (transform_to_exception e) w

    -- An answer leaves the socket closed where the callback `onError` does not throw.
    pub send_btps_response-IsClosed :
        (r : Response) (w : World S) → IsClosed (send_btps_response env r w)
    unfolding send_btps_response
    send_btps_response-IsClosed r w = elim (Bool-cases (is_closed w.socket)) [
      | inl closed ↦ rw closed closed
      | inr open_still ↦ elim (Bool-cases (env.conforms r)) [
        | inl ok ↦ rw (open_still, ok) (write_response-IsClosed r (env.write r) w)
        | inr bad ↦ rw (open_still, bad) (give_up-IsClosed bad_response w)
      ]
    ]

    pub on_error-Closes :
        (e : BtpError) (id : Option Json) → Closes (on_world {S = S} (send_btps_error env e id))
    unfolding send_btps_error
    on_error-Closes e id = record { closes = λ r. send_btps_response-IsClosed _ r.1 }

module _ (p : Platform) (store : TrustStore) (env : Surroundings) (config : Config store.State)
    (calm : (e : Exception) → env.on_error e ≡ none) where
  open store use {State}

  pub answer-Closes : (f : World State → Response) → Closes (answer p store env config f)
  answer-Closes f = record {
    closes = λ r.
        finish-IsClosed env (send_throws env (f r.1) r.1) (r.0, send_btps_response env (f r.1) r.1)
          (send_btps_response-IsClosed env calm (f r.1) r.1);
  }
