-- ===== src/Client/Invariant.antt =====
-- Properties of a client of src/client/btpsClient.ts that the single writes to its state keep, and the
-- runs that keep them therefore.
use btps_sdk.Prelude.{
  ◌≡◌, String, Bool, true, false, Option, none, some, List, [], ◌∷◌, ◌++◌, map, arith,
}
use btps_sdk.Client.{
  Options, Client, Call, Network, RetryInfo, ForError, nothing, syntax_error, with_message,
  has_calls, get_retry_info, retry_connect, resolve_error, fail_or_retry, send_artifact, on_drain,
  on_message, on_error, on_end, send, settle, reject, Opening,
}
use btps_sdk.Client.Connection.{
  connect, on_lookup, on_timer, on_connected, open_calls, on_timeout, on_socket_error,
  on_socket_end, on_line, end_socket, destroy_socket, is_set, Event, connect_to, lookup_answered,
  timer_fired, secured, received, drained, timed_out, failed, peer_ended, ended_by_user,
  destroyed_by_user, handle, run, destroy, listen, settle_call, open_with, answer_first, fire_first,
  on_parsed, bad_json,
}
use btps_sdk.Client.Steps.{if_cases, continue_connect_cases, opened}
use btps_sdk.Crypto.{Platform}
use btps_sdk.Effects.{Outcome, returned, thrown}
use btps_sdk.Json.{Json}
use btps_sdk.Errors.{BtpError, plain, transform_to_exception}
use btps_sdk.Text.{concat}
use btps_sdk.Identity.{ParsedIdentity, parse_identity}

-- What `P` does not see: the calls, the errors, and what is waited for.
abbrev pub touched :
    Bool
    → List Call
    → List Call
    → List String
    → List String
    → List BtpError
    → List BtpError
    → Client
    → Client
touched connecting calls detached lookups timers logged uncaught c = record c {
  is_connecting = connecting;
  calls = calls;
  detached = detached;
  lookups = lookups;
  timers = timers;
  logged = logged;
  uncaught = uncaught;
}

module _ (p : Platform) (net : Network) (o : Options) where
  pub record IsInvariant (P : Client → Type 0) : Type 0 where
    pub touch :
        (connecting : Bool) (calls detached : List Call) (lookups timers : List String)
        (logged uncaught : List BtpError) (c : Client)
        → P c
        → P (touched connecting calls detached lookups timers logged uncaught c)
    pub on_open : (c : Client) → c.destroyed ≡ false → P c → P (opened c)
    pub on_retry : (r : String) (c : Client) → c.should_retry ≡ true → P c → P (retry_connect o r c)
    pub on_send : (line : String) (c : Client) → P c → P (send_artifact net line c)
    pub on_flush : (c : Client) → P c → P (on_drain net c)
    pub on_close : (c : Client) → P c → P (record c { socket = end_socket c.socket })
    pub on_break : (c : Client) → P c → P (record c { socket = destroy_socket c.socket })
    pub on_answer : (c : Client) → P c → P (record c { should_retry = false })
    pub on_destroy : (c : Client) → P c → P (destroy p net o c)

  will_retry-should_retry :
      (e : ForError) (c : Client) → (get_retry_info o e c).will_retry ≡ true → c.should_retry ≡ true
  unfolding get_retry_info
  will_retry-should_retry e c h = ground arith

  module _ (P : Client → Type 0) (inv : IsInvariant P) where
    resolve_error-keeps : (e : BtpError) (c : Client) → P c → P (resolve_error p.stringify o e c).0
    unfolding resolve_error
    resolve_error-keeps e c h =
        if_cases (λ (r : Client × RetryInfo). P r.0) (has_calls c.calls) _ _
          (λ _. inv.touch _ _ c.detached c.lookups c.timers c.logged c.uncaught c h)
          (λ _. inv.touch _ c.calls c.detached c.lookups c.timers _ c.uncaught c h)

    resolve_error-should_retry :
        (e : BtpError) (c : Client)
        → (resolve_error p.stringify o e c).1.will_retry ≡ true
        → (resolve_error p.stringify o e c).0.should_retry ≡ true
    unfolding resolve_error
    resolve_error-should_retry e c h =
        ground (arith, will_retry-should_retry (with_message e.message) c)

    fail_or_retry-keeps :
        (r : String) (e : BtpError) (c : Client) → P c → P (fail_or_retry p.stringify o r e c)
    unfolding fail_or_retry
    fail_or_retry-keeps r e c h =
        if_cases P (resolve_error p.stringify o e c).1.will_retry _ _
          (λ again.
            inv.on_retry r _ (resolve_error-should_retry e c again) (resolve_error-keeps e c h))
          (λ done. resolve_error-keeps e c h)

    started-keeps :
        (parsed : Option ParsedIdentity) (r : String) (c : Client)
        → P c
        → P (elim parsed [
          | none ↦ (resolve_error p.stringify o (plain (concat "invalid identity: " r)) c).0
          | some i ↦ record c { lookups = c.lookups ++ r ∷ [] }
        ])
    started-keeps none r c h = resolve_error-keeps _ c h
    started-keeps (some i) r c h =
        inv.touch c.is_connecting c.calls c.detached (c.lookups ++ r ∷ []) c.timers c.logged
          c.uncaught c h

    open_with-keeps : (a : Opening) (c : Client) → P c → P (open_with p net o a c)
    open_with-keeps (send line) c h = inv.on_send line c h
    open_with-keeps (settle r) c h = h
    open_with-keeps (reject e) c h = h

    connect-keeps :
        (r : String) (callbacks : Option Call) (c : Client)
        → P c
        → P (connect p net o r callbacks c)
    unfolding connect
    connect-keeps r callbacks c h =
        if_cases P c.is_connecting _ _
          (λ busy. resolve_error-keeps (plain "Already connecting") _ (
            inv.touch c.is_connecting c.calls (listen callbacks c.detached) c.lookups c.timers
              c.logged c.uncaught c h))
          (λ idle. started-keeps (parse_identity r) r _ (
            inv.touch true (listen callbacks c.calls) c.detached c.lookups c.timers c.logged
              c.uncaught c h))

    on_lookup-keeps : (ls : List String) (c : Client) → P c → P (answer_first p net o ls c)
    on_lookup-keeps [] c h = h
    on_lookup-keeps (r ∷ rest) c h =
        let popped =
          inv.touch c.is_connecting c.calls c.detached rest c.timers c.logged c.uncaught c h in
        continue_connect_cases p net o P r (record c { lookups = rest })
          (λ m. resolve_error-keeps (plain m) _ popped) (λ alive. inv.on_open _ alive popped)

    on_timer-keeps : (ts : List String) (c : Client) → P c → P (fire_first p net o ts c)
    on_timer-keeps [] c h = h
    on_timer-keeps (r ∷ rest) c h =
        connect-keeps r none _
          (inv.touch c.is_connecting c.calls c.detached c.lookups rest c.logged c.uncaught c h)

    open_calls-keeps : (calls : List Call) (c : Client) → P c → P (open_calls p net o calls c)
    unfolding open_calls
    open_calls-keeps [] c h = h
    open_calls-keeps (call ∷ calls) c h =
        open_calls-keeps calls _ (open_with-keeps call.opening c h)

    on_socket_end-keeps : (r : String) (c : Client) → P c → P (on_socket_end p net o r c)
    unfolding on_socket_end
    on_socket_end-keeps r c h =
        let info = get_retry_info o nothing c in
        let ended =
          inv.touch false (map (on_end info) c.calls) c.detached c.lookups c.timers c.logged
            c.uncaught c h in
        if_cases P info.will_retry _ _
          (λ again. inv.on_retry r _ (will_retry-should_retry nothing c again) ended)
          (λ done. ended)

    on_timeout-keeps : (r : String) (c : Client) → P c → P (on_timeout p net o r c)
    unfolding on_timeout
    on_timeout-keeps r c h =
        if_cases P (is_set o.connection_timeout_ms)
          (fail_or_retry p.stringify o r (plain "Connection timeout")
            (record c { socket = destroy_socket c.socket }))
          c
          (λ set.
            fail_or_retry-keeps r (plain "Connection timeout")
              (record c { socket = destroy_socket c.socket }) (inv.on_break c h))
          (λ unset. h)

    on_parsed-keeps : (m : Outcome Json) (c : Client) → P c → P (on_parsed p net o m c)
    on_parsed-keeps (returned msg) c h =
        inv.touch false (map (on_message msg) c.calls) c.detached c.lookups c.timers c.logged
          c.uncaught _ (inv.on_close _ (inv.on_answer c h))
    on_parsed-keeps (thrown e) c h =
        let info =
          get_retry_info o syntax_error
            (record c { should_retry = false; is_connecting = false }) in
        if_cases P (has_calls c.calls) _ _
          (λ _.
            inv.touch false (map (on_error p.stringify info (bad_json p net o e)) c.calls)
              c.detached c.lookups c.timers c.logged c.uncaught _ (inv.on_answer c h))
          (λ _.
            inv.touch false c.calls c.detached c.lookups c.timers c.logged
              (c.uncaught ++ bad_json p net o e ∷ []) _ (inv.on_answer c h))

    on_line-keeps : (line : String) (c : Client) → P c → P (on_line p net o line c)
    unfolding on_line
    on_line-keeps line c h = on_parsed-keeps (net.json_parse line) c h

    handle-keeps : (e : Event) (c : Client) → P c → P (handle p net o e c)
    unfolding handle on_lookup on_timer on_connected on_socket_error
    handle-keeps (connect_to r cb) c h = connect-keeps r cb c h
    handle-keeps lookup_answered c h = on_lookup-keeps c.lookups c h
    handle-keeps timer_fired c h = on_timer-keeps c.timers c h
    handle-keeps secured c h =
        let d = open_calls p net o c.calls c in
        inv.touch d.is_connecting (map (λ call. settle_call call.opening call) c.calls) d.detached
          d.lookups d.timers d.logged d.uncaught d (open_calls-keeps c.calls c h)
    handle-keeps (received line) c h = on_line-keeps line c h
    handle-keeps drained c h = inv.on_flush c h
    handle-keeps (timed_out r) c h = on_timeout-keeps r c h
    handle-keeps (failed r e) c h = fail_or_retry-keeps r (transform_to_exception e).error c h
    handle-keeps (peer_ended r) c h = on_socket_end-keeps r c h
    handle-keeps ended_by_user c h =
        inv.touch false c.calls c.detached c.lookups c.timers c.logged c.uncaught
          (record c { socket = end_socket c.socket }) (inv.on_close c h)
    handle-keeps destroyed_by_user c h = inv.on_destroy c h

    pub run-keeps : (es : List Event) (c : Client) → P c → P (run p net o es c)
    unfolding run
    run-keeps [] c h = h
    run-keeps (e ∷ es) c h = run-keeps es (handle p net o e c) (handle-keeps e c h)
