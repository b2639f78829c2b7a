-- ===== src/Client/Stopped.antt =====
-- src/client/btpsClient.ts: a client that has its answer or was destroyed.
use btps_sdk.Prelude.{
  ℕ, ◌≡◌, refl, ◌∙◌, true, false, Option, none, some, List, [], String, leb, arith, ◌∷◌,
}
use btps_sdk.Client.{
  Options, Client, Socket, Network, has_calls, max_retries_of, retry_connect, send_artifact,
  write_line, on_drain, flush_backpressure, flush_loop,
}
use btps_sdk.Client.Connection.{Event, run, destroy, on_line, on_parsed, end_socket, destroy_socket}
use btps_sdk.Client.Invariant.{IsInvariant, run-keeps}
use btps_sdk.Client.Steps.{if_cases}
use btps_sdk.Effects.{Outcome, returned, thrown}
use btps_sdk.Json.{Json}
use btps_sdk.Crypto.{Platform}

abbrev pub IsDead : Option Socket → Type 0
IsDead none = Unit
IsDead (some s) = s.is_destroyed ≡ true

-- What no write to a line changes.
record SameState (c d : Client) : Type 0 where
  retries : d.retries ≡ c.retries
  should_retry : d.should_retry ≡ c.should_retry
  destroyed : d.destroyed ≡ c.destroyed
  dead : IsDead c.socket → IsDead d.socket

module _ (p : Platform) (net : Network) (o : Options) where
  send_artifact-SameState : (line : String) (c : Client) → SameState c (send_artifact net line c)
  unfolding send_artifact write_line
  send_artifact-SameState line c = ground arith

  flush_loop-SameState : (queue : List String) (c : Client) → SameState c (flush_loop net queue c)
  unfolding flush_loop write_line
  flush_loop-SameState [] c = record {
    retries = refl;
    should_retry = refl;
    destroyed = refl;
    dead = λ h. h;
  }
  flush_loop-SameState (chunk ∷ queue) c =
      ground (arith, flush_loop-SameState queue (write_line net chunk c).0)

  on_drain-SameState : (c : Client) → SameState c (on_drain net c)
  unfolding on_drain flush_backpressure
  on_drain-SameState c = ground (
    arith,
    flush_loop-SameState c.backpressure_queue (record c { awaits_drain = false }),
    flush_loop-SameState c.backpressure_queue (record c { is_draining = true }),
  )

  -- It does not retry, and has counted `n` retries.
  record Stopped (n : ℕ) (c : Client) : Type 0 where
    stays : c.should_retry ≡ false
    counts : c.retries ≡ n

  Stopped-IsInvariant : (n : ℕ) → IsInvariant p net o (Stopped n)
  Stopped-IsInvariant n = record {
    touch = λ _ _ _ _ _ _ _ c h. record { stays = h.stays; counts = h.counts };
    on_open = λ c _ h. record { stays = h.stays; counts = h.counts };
    on_retry = λ r c again h. absurd (cc (again, h.stays));
    on_send = λ line c h.
        let s = send_artifact-SameState line c in
        record { stays = s.should_retry ∙ h.stays; counts = s.retries ∙ h.counts };
    on_flush = λ c h.
        let s = on_drain-SameState c in
        record { stays = s.should_retry ∙ h.stays; counts = s.retries ∙ h.counts };
    on_close = λ c h. record { stays = h.stays; counts = h.counts };
    on_break = λ c h. record { stays = h.stays; counts = h.counts };
    on_answer = λ c h. record { stays = refl; counts = h.counts };
    on_destroy = λ c h. record { stays = refl; counts = h.counts };
  }

  record Dead (c : Client) : Type 0 where
    gone : c.destroyed ≡ true
    closed : IsDead c.socket

  destroy_socket-IsDead : (s : Option Socket) → IsDead (destroy_socket s)
  destroy_socket-IsDead none = tt
  destroy_socket-IsDead (some s) = refl

  end_socket-IsDead : (s : Option Socket) → IsDead s → IsDead (end_socket s)
  end_socket-IsDead none h = tt
  end_socket-IsDead (some s) h = h

  retry_connect-Dead : (r : String) (c : Client) → Dead c → Dead (retry_connect o r c)
  unfolding retry_connect
  retry_connect-Dead r c h =
      if_cases Dead (leb (max_retries_of o) c.retries) _ _ (λ _. h)
        (λ _. record { gone = h.gone; closed = h.closed })

  Dead-IsInvariant : IsInvariant p net o Dead
  Dead-IsInvariant = record {
    touch = λ _ _ _ _ _ _ _ c h. record { gone = h.gone; closed = h.closed };
    on_open = λ c alive h. absurd (cc (alive, h.gone));
    on_retry = λ r c again h. retry_connect-Dead r c h;
    on_send = λ line c h.
        let s = send_artifact-SameState line c in
        record { gone = s.destroyed ∙ h.gone; closed = s.dead h.closed };
    on_flush = λ c h.
        let s = on_drain-SameState c in
        record { gone = s.destroyed ∙ h.gone; closed = s.dead h.closed };
    on_close = λ c h. record { gone = h.gone; closed = end_socket-IsDead c.socket h.closed };
    on_break = λ c h. record { gone = h.gone; closed = destroy_socket-IsDead c.socket };
    on_answer = λ c h. record { gone = h.gone; closed = h.closed };
    on_destroy = λ c h. record { gone = refl; closed = destroy_socket-IsDead c.socket };
  }

  on_parsed-Stopped : (m : Outcome Json) (c : Client) → Stopped c.retries (on_parsed p net o m c)
  on_parsed-Stopped (returned msg) c = record { stays = refl; counts = refl }
  on_parsed-Stopped (thrown e) c =
      if_cases (Stopped c.retries) (has_calls c.calls) _ _
        (λ _. record { stays = refl; counts = refl }) (λ _. record { stays = refl; counts = refl })

  -- Once a message has come or could not be read, the client schedules no other attempt, whatever
  -- happens to it then.
  pub retries-run-on_line :
      (line : String) (es : List Event) (c : Client)
      → (run p net o es (on_line p net o line c)).retries ≡ c.retries
  unfolding on_line
  retries-run-on_line line es c =
      (run-keeps p net o (Stopped c.retries) (Stopped-IsInvariant c.retries) es
        (on_line p net o line c) (on_parsed-Stopped (net.json_parse line) c)).counts

  -- A destroyed client stays so, has no socket that is not destroyed, and schedules no attempt,
  -- whatever happens to it then.
  pub run-destroy :
      (es : List Event) (c : Client)
      → let after = run p net o es (destroy p net o c) in
        (after.destroyed ≡ true) × IsDead after.socket × (after.retries ≡ c.retries)
  run-destroy es c =
      let dead =
        run-keeps p net o Dead Dead-IsInvariant es (destroy p net o c)
          (record { gone = refl; closed = destroy_socket-IsDead c.socket }) in
      (
        dead.gone,
        dead.closed,
        (run-keeps p net o (Stopped c.retries) (Stopped-IsInvariant c.retries) es
            (destroy p net o c) (record { stays = refl; counts = refl })).counts,
      )
