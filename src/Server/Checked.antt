-- ===== src/Server/Checked.antt =====
-- What reaches the application through src/server/btpsServer.ts: emitted and forwarded messages.
use btps_sdk.Prelude.{
  ℕ, ◌≡◌, refl, true, Option, List, [], ◌∷◌, ◌++◌, All, All-append, ap, Bool-cases, inl, inr, none,
  some,
}
use btps_sdk.Crypto.{Platform}
use btps_sdk.Effects.{returned}
use btps_sdk.Errors.{Thrown, Exception, transform_to_exception}
use btps_sdk.Server.Invariant.{IsInvariant}
use btps_sdk.Server.Signature.{Processed, verify_message_signature}
use btps_sdk.Server.TrustCheck.{verify_trust}
use btps_sdk.Server.World.{
  Response, Entry, emitted, forwarded, reported, response_sent, World, Surroundings, is_closed,
  log_entry, write_response, send_btps_response, give_up, destroy_unless, bad_response,
}
use btps_sdk.Trust.{Check}
use btps_sdk.Trust.Store.{TrustStore}

-- The messages that were emitted to listeners or forwarded.
abbrev pub delivered : List Entry → List Processed
delivered [] = []
delivered (emitted d ∷ es) = d ∷ delivered es
delivered (forwarded d ∷ es) = d ∷ delivered es
delivered (reported e ∷ es) = delivered es
delivered (response_sent r ∷ es) = delivered es

delivered-append : (xs ys : List Entry) → delivered (xs ++ ys) ≡ delivered xs ++ delivered ys
delivered-append [] ys = refl
delivered-append (emitted d ∷ xs) ys = ap (◌∷◌ d) (delivered-append xs ys)
delivered-append (forwarded d ∷ xs) ys = ap (◌∷◌ d) (delivered-append xs ys)
delivered-append (reported e ∷ xs) ys = delivered-append xs ys
delivered-append (response_sent r ∷ xs) ys = delivered-append xs ys

-- Both checks of the message returned that it is valid, each in some state of the store.
pub record IsChecked (p : Platform) (store : TrustStore) (d : Processed) : Type 0 where
  pub now : ℕ
  pub signed_in : store.State
  pub trusted_in : store.State
  pub signature_check : Check
  pub trust_check : Check
  pub signed : (verify_message_signature p store d signed_in).1 ≡ returned signature_check
  pub is_signed : signature_check.is_valid ≡ true
  pub trusted : (verify_trust store p.digest now d trusted_in).1 ≡ returned trust_check
  pub is_trusted : trust_check.is_valid ≡ true

module _ (p : Platform) (store : TrustStore) (env : Surroundings) where
  open store use {State}

  -- All that was delivered has been checked.
  abbrev pub AllChecked : World State → Type 0
  AllChecked w = All (IsChecked p store) (delivered w.log)

  log_entry-AllChecked :
      (e : Entry) (w : World State)
      → All (IsChecked p store) (delivered (e ∷ []))
      → AllChecked w
      → AllChecked (log_entry e w)
  log_entry-AllChecked e w ok h =
      rw (delivered-append w.log (e ∷ [])) (All-append _ (delivered w.log) _ h ok)

  destroyed-AllChecked :
      (t : Option Thrown) (w : World State) → AllChecked w → AllChecked (destroy_unless t w)
  destroyed-AllChecked none w h = h
  destroyed-AllChecked (some e) w h = h

  give_up-AllChecked :
      (e : Exception) (w : World State) → AllChecked w → AllChecked (give_up env e w)
  give_up-AllChecked e w h =
      destroyed-AllChecked (env.on_error e) (log_entry (reported e) w)
        (log_entry-AllChecked (reported e) w tt h)

  write_response-AllChecked :
      (r : Response) (t : Option Thrown) (w : World State)
      → AllChecked w
      → AllChecked (write_response env r t w)
  write_response-AllChecked r none w h = log_entry-AllChecked (response_sent r) w tt h
  write_response-AllChecked r (some e) w h = give_up-AllChecked (transform_to_exception e) w h

  send_btps_response-AllChecked :
      (r : Response) (w : World State) → AllChecked w → AllChecked (send_btps_response env r w)
  unfolding send_btps_response
  send_btps_response-AllChecked r w h = elim (Bool-cases (is_closed w.socket)) [
    | inl closed ↦ rw closed h
    | inr open_still ↦ elim (Bool-cases (env.conforms r)) [
      | inl ok ↦ rw (open_still, ok) (write_response-AllChecked r (env.write r) w h)
      | inr bad ↦ rw (open_still, bad) (give_up-AllChecked bad_response w h)
    ]
  ]

  pub AllChecked-invariant : IsInvariant env (IsChecked p store) AllChecked
  AllChecked-invariant = record {
    on_response = send_btps_response-AllChecked;
    on_end = λ w h. h;
    on_destroy = λ w h. h;
    on_change = λ s w h. h;
    on_report = λ e w h. log_entry-AllChecked (reported e) w tt h;
    on_emitted = λ d w ok h. log_entry-AllChecked (emitted d) w (ok, tt) h;
    on_forwarded = λ d w ok h. log_entry-AllChecked (forwarded d) w (ok, tt) h;
  }

  pub is_checked :
      (now : ℕ) (d : Processed) (s t : State) (c c' : Check)
      → (verify_message_signature p store d s).1 ≡ returned c
      → c.is_valid ≡ true
      → (verify_trust store p.digest now d t).1 ≡ returned c'
      → c'.is_valid ≡ true
      → IsChecked p store d
  is_checked now d s t c c' a b a' b' = record {
    now = now;
    signed_in = s;
    trusted_in = t;
    signature_check = c;
    trust_check = c';
    signed = a;
    is_signed = b;
    trusted = a';
    is_trusted = b';
  }
