-- ===== src/Client/Retries.antt =====
-- src/client/btpsClient.ts: how often a client connects again by itself.
use btps_sdk.Prelude.{
  ℕ, ◌+◌, ◌≤◌, ◌≡◌, refl, ap, ◌∙◌, String, true, false, Option, none, List, [], ◌∷◌, arith, length,
  length-append, Bool-cases, inl, inr,
}
use btps_sdk.Client.{
  Options, Client, Call, Network, has_calls, max_retries_of, nothing, get_retry_info, retry_connect,
  resolve_error, fail_or_retry, send_artifact, write_line, on_drain, flush_loop, flush_backpressure,
  init,
}
use btps_sdk.Client.Connection.{
  connect, on_lookup, continue_connect, on_timer, on_connected, open_calls, on_timeout,
  on_socket_error, on_socket_end, on_line, Event, connect_to, lookup_answered, timer_fired, secured,
  received, drained, timed_out, failed, peer_ended, ended_by_user, destroyed_by_user, handle, run,
  destroy_socket, is_set, answer_first, fire_first, on_parsed,
}
use btps_sdk.Client.Steps.{if_cases, continue_connect_cases}
use btps_sdk.Crypto.{Platform}
use btps_sdk.Effects.{Outcome, returned, thrown}
use btps_sdk.Json.{Json}
use btps_sdk.Errors.{BtpError, plain, transform_to_exception}

-- Neither the timers nor the number of retries differ.
record SameTimers (c d : Client) : Type 0 where
  timers : d.timers ≡ c.timers
  retries : d.retries ≡ c.retries

module _ (p : Platform) (net : Network) (o : Options) where
  resolve_error-SameTimers :
      (e : BtpError) (c : Client) → SameTimers c (resolve_error p.stringify o e c).0
  unfolding resolve_error
  resolve_error-SameTimers e c = elim (Bool-cases (has_calls c.calls)) [
    | inl h ↦ rw h (record { timers = refl; retries = refl })
    | inr h ↦ rw h (record { timers = refl; retries = refl })
  ]

  connect-SameTimers :
      (receiver_id : String) (callbacks : Option Call) (c : Client)
      → SameTimers c (connect p net o receiver_id callbacks c)
  unfolding connect
  connect-SameTimers receiver_id callbacks c = ground arith

  flush_loop-SameTimers : (queue : List String) (c : Client) → SameTimers c (flush_loop net queue c)
  unfolding flush_loop write_line
  flush_loop-SameTimers [] c = record { timers = refl; retries = refl }
  flush_loop-SameTimers (chunk ∷ queue) c =
      ground (arith, flush_loop-SameTimers queue (write_line net chunk c).0)

  on_drain-SameTimers : (c : Client) → SameTimers c (on_drain net c)
  unfolding on_drain flush_backpressure
  on_drain-SameTimers c = ground (
    arith,
    flush_loop-SameTimers c.backpressure_queue (record c { awaits_drain = false }),
    flush_loop-SameTimers c.backpressure_queue (record c { is_draining = true }),
  )

  send_artifact-SameTimers : (line : String) (c : Client) → SameTimers c (send_artifact net line c)
  unfolding send_artifact write_line
  send_artifact-SameTimers line c = ground arith

  open_calls-SameTimers :
      (calls : List Call) (c : Client) → SameTimers c (open_calls p net o calls c)
  unfolding open_calls
  open_calls-SameTimers [] c = record { timers = refl; retries = refl }
  open_calls-SameTimers (call ∷ calls) c =
      grind (arith, open_calls-SameTimers calls, send_artifact-SameTimers)

  on_parsed-SameTimers : (m : Outcome Json) (c : Client) → SameTimers c (on_parsed p net o m c)
  on_parsed-SameTimers (returned msg) c = record { timers = refl; retries = refl }
  on_parsed-SameTimers (thrown e) c = ground arith

  continue_connect-SameTimers :
      (receiver_id : String) (c : Client) → SameTimers c (continue_connect p net o receiver_id c)
  continue_connect-SameTimers receiver_id c =
      continue_connect_cases p net o (SameTimers c) receiver_id c
        (λ m. resolve_error-SameTimers (plain m) c)
        (λ alive. record { timers = refl; retries = refl })

  -- From `c` to `d`, `n` timers fired: each retry that was counted is a timer that fired or is set.
  record Progress (n : ℕ) (c d : Client) : Type 0 where
    counted : n + length d.timers + c.retries ≡ length c.timers + d.retries
    bounded : c.retries ≤ max_retries_of o → d.retries ≤ max_retries_of o

  SameTimers-Progress : (c d : Client) → SameTimers c d → Progress 0 c d
  SameTimers-Progress c d s = record {
    counted = omega (arith, ap length s.timers, s.retries);
    bounded = λ h. omega (arith, s.retries);
  }

  retry_connect-Progress :
      (receiver_id : String) (c d : Client)
      → SameTimers c d
      → Progress 0 c (retry_connect o receiver_id d)
  unfolding retry_connect
  retry_connect-Progress receiver_id c d s =
      ground
        (arith, length-append d.timers (receiver_id ∷ []), s.timers, s.retries, ap length s.timers)

  fail_or_retry-Progress :
      (receiver_id : String) (e : BtpError) (c d : Client)
      → SameTimers c d
      → Progress 0 c (fail_or_retry p.stringify o receiver_id e d)
  unfolding fail_or_retry
  fail_or_retry-Progress receiver_id e c d s =
      let same = resolve_error-SameTimers e d in
      let both : SameTimers c (resolve_error p.stringify o e d).0 = record {
        timers = same.timers ∙ s.timers;
        retries = same.retries ∙ s.retries;
      } in
      if_cases (Progress 0 c) (resolve_error p.stringify o e d).1.will_retry _ _
        (λ again. retry_connect-Progress receiver_id c _ both)
        (λ done. SameTimers-Progress c _ both)

  -- Whether a step is a timer that fires.
  abbrev pub fires : Event → Client → ℕ
  fires timer_fired c = elim c.timers [ [] ↦ 0 | t ∷ ts ↦ 1 ]
  fires _ c = 0

  -- How many of the timers fire in a run.
  unfoldable pub fired : List Event → Client → ℕ
  fired [] c = 0
  fired (e ∷ es) c = fires e c + fired es (handle p net o e c)

  fired_timer-Progress :
      (ts : List String) (c : Client)
      → c.timers ≡ ts
      → Progress (elim ts [ [] ↦ 0 | t ∷ rest ↦ 1 ]) c (fire_first p net o ts c)
  fired_timer-Progress [] c h = record { counted = omega arith; bounded = λ h. h }
  fired_timer-Progress (r ∷ rest) c h =
      let same = connect-SameTimers r none (record c { timers = rest }) in
      record {
        counted = omega (arith, ap length h, ap length same.timers, same.retries);
        bounded = λ b. omega (arith, same.retries);
      }

  answered-SameTimers : (ls : List String) (c : Client) → SameTimers c (answer_first p net o ls c)
  answered-SameTimers [] c = record { timers = refl; retries = refl }
  answered-SameTimers (r ∷ rest) c =
      let same = continue_connect-SameTimers r (record c { lookups = rest }) in
      record { timers = same.timers; retries = same.retries }

  on_socket_end-Progress : (r : String) (c : Client) → Progress 0 c (on_socket_end p net o r c)
  unfolding on_socket_end
  on_socket_end-Progress r c =
      if_cases (Progress 0 c) (get_retry_info o nothing c).will_retry _ _
        (λ again. retry_connect-Progress r c _ (record { timers = refl; retries = refl }))
        (λ done. SameTimers-Progress c _ (record { timers = refl; retries = refl }))

  on_timeout-Progress : (r : String) (c : Client) → Progress 0 c (on_timeout p net o r c)
  unfolding on_timeout
  on_timeout-Progress r c =
      if_cases (Progress 0 c) (is_set o.connection_timeout_ms)
        (fail_or_retry p.stringify o r (plain "Connection timeout")
          (record c { socket = destroy_socket c.socket }))
        c
        (λ set.
          fail_or_retry-Progress r (plain "Connection timeout") c
            (record c { socket = destroy_socket c.socket })
            (record { timers = refl; retries = refl }))
        (λ unset. SameTimers-Progress c c (record { timers = refl; retries = refl }))

  handle-Progress : (e : Event) (c : Client) → Progress (fires e c) c (handle p net o e c)
  unfolding handle on_lookup on_timer on_connected on_socket_error on_line
  handle-Progress (connect_to r cb) c = SameTimers-Progress c _ (connect-SameTimers r cb c)
  handle-Progress lookup_answered c = SameTimers-Progress c _ (answered-SameTimers c.lookups c)
  handle-Progress timer_fired c = fired_timer-Progress c.timers c refl
  handle-Progress secured c =
      let same = open_calls-SameTimers c.calls c in
      SameTimers-Progress c _ (record { timers = same.timers; retries = same.retries })
  handle-Progress (received line) c =
      SameTimers-Progress c _ (on_parsed-SameTimers (net.json_parse line) c)
  handle-Progress drained c = SameTimers-Progress c _ (on_drain-SameTimers c)
  handle-Progress (timed_out r) c = on_timeout-Progress r c
  handle-Progress (failed r e) c =
      fail_or_retry-Progress r (transform_to_exception e).error c c
        (record { timers = refl; retries = refl })
  handle-Progress (peer_ended r) c = on_socket_end-Progress r c
  handle-Progress ended_by_user c =
      SameTimers-Progress c _ (record { timers = refl; retries = refl })
  handle-Progress destroyed_by_user c =
      SameTimers-Progress c _ (record { timers = refl; retries = refl })

  fired-Progress : (es : List Event) (c : Client) → Progress (fired es c) c (run p net o es c)
  unfolding fired run
  fired-Progress [] c = record { counted = omega arith; bounded = λ h. h }
  fired-Progress (e ∷ es) c =
      let first = handle-Progress e c in
      let rest = fired-Progress es (handle p net o e c) in
      record {
        counted = omega (arith, first.counted, rest.counted);
        bounded = λ h. rest.bounded (first.bounded h);
      }

  -- In any run of a new client, whatever its events and calls, the timers that fire and so connect
  -- again are at most as many as the configured retries, 5 if none are configured: a client does not
  -- reconnect for ever. The retries that it counts are the timers that fired and those still set.
  pub fired-le :
      (es : List Event)
      → (fired es init ≤ max_retries_of o)
        × (fired es init + length (run p net o es init).timers ≡ (run p net o es init).retries)
  fired-le es =
      let done = fired-Progress es init in
      let total = done.counted in
      (omega (arith, total, done.bounded (omega arith)), omega (arith, total))
