-- ===== src/Client/Draining.antt =====
-- src/client/btpsClient.ts: the lines that are held back.
use btps_sdk.Prelude.{◌≡◌, refl, sym, ◌∙◌, subst, true, false, List, [], String, leb, arith}
use btps_sdk.Client.{
  Options, Client, Network, max_retries_of, retry_connect, send_artifact, write_line, on_drain,
  flush_backpressure, flush_loop, init,
}
use btps_sdk.Client.Connection.{Event, run}
use btps_sdk.Client.Invariant.{IsInvariant, run-keeps}
use btps_sdk.Client.Steps.{if_cases}
use btps_sdk.Crypto.{Platform}

-- No loop waits for `drain`, and lines are held back only while `is_draining` is set.
record Held (c : Client) : Type 0 where
  waits : c.awaits_drain ≡ false
  empty : c.is_draining ≡ false → c.backpressure_queue ≡ []

module _ (p : Platform) (net : Network) (o : Options) where
  flush_loop-empty :
      (queue : List String) (c : Client)
      → queue ≡ []
      → flush_loop net queue (record c { is_draining = true })
        ≡ record c { backpressure_queue = []; is_draining = false; awaits_drain = false }
  unfolding flush_loop
  flush_loop-empty queue c h = rw h refl

  on_drain-Held : (c : Client) → Held c → on_drain net c ≡ c
  unfolding on_drain flush_backpressure flush_loop
  on_drain-Held c h =
      if_cases (λ d. d ≡ c) c.awaits_drain _ _ (λ w. absurd (cc (w, h.waits)))
        (λ _.
          if_cases (λ d. d ≡ c) c.is_draining _ _ (λ _. refl)
            (λ idle. flush_loop-empty c.backpressure_queue c (h.empty idle) ∙ (λ i. record c {
              backpressure_queue = sym (h.empty idle) i;
              is_draining = sym idle i;
              awaits_drain = sym h.waits i;
            })))

  send_artifact-Held : (line : String) (c : Client) → Held c → Held (send_artifact net line c)
  unfolding send_artifact write_line
  send_artifact-Held line c h = ground (arith, h.waits)

  retry_connect-Held : (r : String) (c : Client) → Held c → Held (retry_connect o r c)
  unfolding retry_connect
  retry_connect-Held r c h =
      if_cases Held (leb (max_retries_of o) c.retries) _ _ (λ _. h)
        (λ _. record { waits = h.waits; empty = h.empty })

  Held-IsInvariant : IsInvariant p net o Held
  Held-IsInvariant = record {
    touch = λ _ _ _ _ _ _ _ c h. record { waits = h.waits; empty = h.empty };
    on_open = λ c _ h. record { waits = h.waits; empty = h.empty };
    on_retry = λ r c _ h. retry_connect-Held r c h;
    on_send = λ line c h. send_artifact-Held line c h;
    on_flush = λ c h. subst Held (sym (on_drain-Held c h)) h;
    on_close = λ c h. record { waits = h.waits; empty = h.empty };
    on_break = λ c h. record { waits = h.waits; empty = h.empty };
    on_answer = λ c h. record { waits = h.waits; empty = h.empty };
    on_destroy = λ c h. record { waits = h.waits; empty = λ _. refl };
  }

  -- In every state that a new client reaches, the `drain` event of its socket changes nothing: no
  -- line that was held back is written again.
  pub on_drain-run : (es : List Event) → on_drain net (run p net o es init) ≡ run p net o es init
  on_drain-run es =
      on_drain-Held _ (
        run-keeps p net o Held Held-IsInvariant es init
          (record { waits = refl; empty = λ _. refl }))
