-- ===== src/Client/Connection.antt =====
-- src/client/btpsClient.ts: connecting, the events of the socket, and the ends of a client. A handler
-- runs to its end before the next event, as the language runs it; the listeners of a call that wait
-- for a lookup of their own are taken as one step.
use Prim.Native.Char.{code}
use text.Mathlib.Text.{starts_with}
use btps_sdk.Prelude.{
  ℕ, ◌+◌, ◌-◌, ◌*◌, String, Bool, true, false, ◌&&◌, Option, none, some, List, [], ◌∷◌, ◌++◌, ◌==◌,
  map, eqb, leb, or_else, if◌then◌else◌,
}
use btps_sdk.Client.{
  Options, Client, Call, Opening, send, settle, reject, Socket, Network, RetryInfo, nothing,
  syntax_error, resolve, on_message, on_error, on_end, has_calls, get_retry_info, retry_connect,
  resolve_error, fail_or_retry, send_artifact, on_drain,
}
use btps_sdk.Crypto.{Platform}
use btps_sdk.Dns.{get_host_and_selector}
use btps_sdk.Effects.{Outcome, returned, thrown}
use btps_sdk.Errors.{BtpError, plain, Thrown, exception, error, other, transform_to_exception}
use btps_sdk.Identity.{parse_identity}
use btps_sdk.Json.{Json}
use btps_sdk.Text.{concat}

-- `parseInt(s, 10)` for a text of digits, from those that were read.
unfoldable pub parse_int : ℕ → String → ℕ
parse_int n String.[] = n
parse_int n (String.◌∷◌ c s) =
    let rest = parse_int (10 * n + (code c - 48)) s in
    if leb 48 (code c) && leb (code c) 57 then rest else n

abbrev pub message_of : Thrown → String
message_of (exception e) = e.message
message_of (error m) = m
message_of (other j) = j

-- A text that is there and not empty.
abbrev given : Option String → Option String
given none = none
given (some s) = if s == "" then none else some s

-- A number that is there and not 0.
abbrev pub is_set : Option ℕ → Bool
is_set none = false
is_set (some n) = if eqb n 0 then false else true

abbrev pub end_socket : Option Socket → Option Socket
end_socket none = none
end_socket (some s) = some (record s { is_ended = true })

abbrev pub destroy_socket : Option Socket → Option Socket
destroy_socket none = none
destroy_socket (some s) = some (record s { is_destroyed = true })

-- `callbacks?.(...)`: the listeners of a call are added.
abbrev pub listen : Option Call → List Call → List Call
listen none cs = cs
listen (some c) cs = cs ++ c ∷ []

abbrev pub settle_call : Opening → Call → Call
settle_call (send line) c = c
settle_call (settle r) c = resolve r c
settle_call (reject e) c = c

-- `getBtpAddressParts` with the platform's parser of URLs.
unfoldable pub get_btp_address_parts : Network → String → Option (String × String)
get_btp_address_parts net input =
    net.parse_url (if starts_with input "btps://" then input else concat "btps://" input)

module _ (p : Platform) (net : Network) (o : Options) where
  unfoldable pub resolve_btp_address : String → Option String
  resolve_btp_address receiver_id = elim (given o.host) [
    | some host ↦ some host
    | none ↦ elim (get_host_and_selector p.resolve_txt p.print receiver_id) [
      | thrown e ↦ none
      | returned none ↦ none
      | returned (some a) ↦ some a.host
    ]
  ]

  abbrev refuse : String → Client → Client
  refuse message c = (resolve_error p.stringify o (plain message) c).0

  unfoldable pub connect : String → Option Call → Client → Client
  unfolding resolve_error
  connect receiver_id callbacks c =
      if c.is_connecting
      then refuse "Already connecting" (record c { detached = listen callbacks c.detached })
      else let started = record c { is_connecting = true; calls = listen callbacks c.calls } in
        elim (parse_identity receiver_id) [
          | none ↦ refuse (concat "invalid identity: " receiver_id) started
          | some _ ↦ record started { lookups = started.lookups ++ receiver_id ∷ [] }
        ]

  abbrev no_address : String → String → Client → Client
  no_address receiver_id why c =
      refuse (concat "DNS resolution failed for " (concat receiver_id (concat ": " why))) c

  -- A socket takes the place of the earlier one; `tls.connect` may throw, which `connect` catches.
  unfoldable pub initialize_connection : String → String → ℕ → Client → Client
  unfolding resolve_error
  initialize_connection receiver_id host port c =
      if c.destroyed
      then refuse "BtpsClient instance is destroyed" c
      else elim (net.tls_connect host port) [
        | some e ↦ no_address receiver_id (message_of e) c
        | none ↦ record c {
          socket = some (record { lines = []; is_ended = false; is_destroyed = false });
        }
      ]

  abbrev pub tls_port : String → ℕ
  tls_port port = if port == "" then or_else o.port 3443 else parse_int 0 port

  -- What `connect` does when the address of a receiver has been looked up.
  unfoldable pub continue_connect : String → Client → Client
  unfolding initialize_connection resolve_btp_address get_btp_address_parts parse_int
  continue_connect receiver_id c = elim (resolve_btp_address receiver_id) [
    | none ↦ no_address receiver_id "No btpAddress record found" c
    | some address ↦ elim (get_btp_address_parts net address) [
      | none ↦ refuse "invalid hostname: undefined" c
      | some (port, hostname) ↦
          if hostname == ""
          then refuse "invalid hostname: " c
          else initialize_connection receiver_id hostname (tls_port port) c
    ]
  ]

  -- The first lookup of a list is answered.
  abbrev pub answer_first : List String → Client → Client
  answer_first [] c = c
  answer_first (receiver_id ∷ rest) c = continue_connect receiver_id (record c { lookups = rest })

  unfoldable pub on_lookup : Client → Client
  unfolding continue_connect
  on_lookup c = answer_first c.lookups c

  -- The first timer of a list fires.
  abbrev pub fire_first : List String → Client → Client
  fire_first [] c = c
  fire_first (receiver_id ∷ rest) c = connect receiver_id none (record c { timers = rest })

  unfoldable pub on_timer : Client → Client
  unfolding connect
  on_timer c = fire_first c.timers c

  abbrev pub open_with : Opening → Client → Client
  open_with (send line) c = send_artifact net line c
  open_with (settle r) c = c
  open_with (reject e) c = c

  -- The listeners for `connected`, in order.
  unfoldable pub open_calls : List Call → Client → Client
  unfolding send_artifact
  open_calls [] c = c
  open_calls (call ∷ calls) c = open_calls calls (open_with call.opening c)

  unfoldable pub on_connected : Client → Client
  unfolding open_calls
  on_connected c = record (open_calls c.calls c) {
    calls = map (λ call. settle_call call.opening call) c.calls;
  }

  unfoldable pub on_timeout : String → Client → Client
  unfolding fail_or_retry
  on_timeout receiver_id c =
      if is_set o.connection_timeout_ms
      then fail_or_retry p.stringify o receiver_id (plain "Connection timeout")
          (record c { socket = destroy_socket c.socket })
      else c

  unfoldable pub on_socket_error : String → Thrown → Client → Client
  unfolding fail_or_retry transform_to_exception
  on_socket_error receiver_id e c =
      fail_or_retry p.stringify o receiver_id (transform_to_exception e).error c

  unfoldable pub on_socket_end : String → Client → Client
  unfolding get_retry_info on_end retry_connect
  on_socket_end receiver_id c =
      let info = get_retry_info o nothing c in
      let ended = record c { calls = map (on_end info) c.calls; is_connecting = false } in
      if info.will_retry then retry_connect o receiver_id ended else ended

  abbrev pub bad_json : Thrown → BtpError
  bad_json e = plain (concat "Invalid JSON: " (concat "SyntaxError: " (message_of e)))

  -- An emitted `error` without a listener is thrown.
  abbrev pub emit_error : RetryInfo → BtpError → Client → Client
  emit_error info e c =
      if has_calls c.calls
      then record c { calls = map (on_error p.stringify info e) c.calls }
      else record c { uncaught = c.uncaught ++ e ∷ [] }

  abbrev pub on_parsed : Outcome Json → Client → Client
  on_parsed (returned msg) c = record c {
    should_retry = false;
    calls = map (on_message msg) c.calls;
    socket = end_socket c.socket;
    is_connecting = false;
  }
  on_parsed (thrown e) c =
      let stopped = record c { should_retry = false; is_connecting = false } in
      emit_error (get_retry_info o syntax_error stopped) (bad_json e) stopped

  unfoldable pub on_line : String → Client → Client
  unfolding get_retry_info on_message on_error
  on_line line c = on_parsed (net.json_parse line) c

  abbrev pub end_client : Client → Client
  end_client c = record c { is_connecting = false; socket = end_socket c.socket }

  abbrev pub destroy : Client → Client
  destroy c = record c {
    is_connecting = false;
    destroyed = true;
    backpressure_queue = [];
    socket = destroy_socket c.socket;
    should_retry = false;
    calls = [];
    detached = c.detached ++ c.calls;
  }

-- What happens to a client: the calls of its methods, the answers and timers that it waits for, and
-- the events of its socket, which name the receiver that the socket was opened for.
pub data Event : Type 0 where
  connect_to : (receiver_id : String) → Option Call → Event
  lookup_answered : Event
  timer_fired : Event
  secured : Event
  received : (line : String) → Event
  drained : Event
  timed_out : (receiver_id : String) → Event
  failed : (receiver_id : String) → Thrown → Event
  peer_ended : (receiver_id : String) → Event
  ended_by_user : Event
  destroyed_by_user : Event

module _ (p : Platform) (net : Network) (o : Options) where
  unfoldable pub handle : Event → Client → Client
  unfolding connect on_lookup on_timer on_connected on_line on_drain on_timeout on_socket_error
      on_socket_end
  handle (connect_to receiver_id callbacks) c = connect p net o receiver_id callbacks c
  handle lookup_answered c = on_lookup p net o c
  handle timer_fired c = on_timer p net o c
  handle secured c = on_connected p net o c
  handle (received line) c = on_line p net o line c
  handle drained c = on_drain net c
  handle (timed_out receiver_id) c = on_timeout p net o receiver_id c
  handle (failed receiver_id e) c = on_socket_error p net o receiver_id e c
  handle (peer_ended receiver_id) c = on_socket_end p net o receiver_id c
  handle ended_by_user c = end_client p net o c
  handle destroyed_by_user c = destroy p net o c

  unfoldable pub run : List Event → Client → Client
  unfolding handle
  run [] c = c
  run (e ∷ es) c = run es (handle e c)
