-- ===== src/Client/Steps.antt =====
-- What the steps of src/client/btpsClient.ts come down to, for the proofs about all of them.
use btps_sdk.Prelude.{
  ℕ, ◌≡◌, refl, String, Bool, true, false, some, [], ◌==◌, if◌then◌else◌, Bool-cases, Option-cases,
  inl, inr,
}
use btps_sdk.Client.{Options, Client, Network, resolve_error}
use btps_sdk.Client.Connection.{
  continue_connect, initialize_connection, resolve_btp_address, get_btp_address_parts, message_of,
  tls_port,
}
use btps_sdk.Crypto.{Platform}
use btps_sdk.Errors.{plain}
use btps_sdk.Text.{concat}

-- A property of a conditional holds where it holds of both branches.
pub if_cases :
    {A : Type 0} (Q : A → Type 0) (b : Bool) (x y : A)
    → (b ≡ true → Q x)
    → (b ≡ false → Q y)
    → Q (if b then x else y)
if_cases Q true x y hx hy = hx refl
if_cases Q false x y hx hy = hy refl

-- A new connection has replaced the client's socket.
abbrev pub opened : Client → Client
opened c = record c {
  socket = some (record { lines = []; is_ended = false; is_destroyed = false });
}

module _ (p : Platform) (net : Network) (o : Options) (P : Client → Type 0) (receiver_id : String)
    (c : Client) (refused : (m : String) → P (resolve_error p.stringify o (plain m) c).0)
    (connected : c.destroyed ≡ false → P (opened c)) where
  initialize_connection_cases :
      (host : String) (port : ℕ) → P (initialize_connection p net o receiver_id host port c)
  unfolding initialize_connection
  initialize_connection_cases host port =
      if_cases P c.destroyed _ _ (λ gone. refused "BtpsClient instance is destroyed")
        (λ alive. elim (Option-cases (net.tls_connect host port)) [
          | inl fine ↦ rw fine (connected alive)
          | inr (e, bad) ↦ rw bad (
              refused (
                concat "DNS resolution failed for "
                  (concat receiver_id (concat ": " (message_of e)))))
        ])

  -- A lookup's answer leads to an error or to a new connection.
  pub continue_connect_cases : P (continue_connect p net o receiver_id c)
  unfolding continue_connect
  continue_connect_cases = elim (Option-cases (resolve_btp_address p net o receiver_id)) [
    | inl none_found ↦
        rw (none_found, continue_connect)
          (refused (
            concat "DNS resolution failed for "
              (concat receiver_id (concat ": " "No btpAddress record found"))))
    | inr (address, found) ↦ elim (Option-cases (get_btp_address_parts net address)) [
      | inl unread ↦ rw (found, unread, continue_connect) (refused "invalid hostname: undefined")
      | inr ((port, host), read) ↦ elim (Bool-cases (host == "")) [
        | inl empty ↦ rw (found, read, empty, continue_connect) (refused "invalid hostname: ")
        | inr some_host ↦
            rw (found, read, some_host, continue_connect)
              (initialize_connection_cases host (tls_port p net o port))
      ]
    ]
  ]
