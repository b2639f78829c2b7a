-- ===== src/Client.antt =====
-- src/client/btpsClient.ts: the state of a client, its retry decisions, its errors, and the writing of
-- artifacts with the lines that are held back. An event is given to the listeners of the calls that
-- wait for an answer; what those do is in the calls themselves.
pub mod Connection
pub mod Transporter
pub mod Agent
pub mod Payloads
pub mod Tests
pub mod Steps
pub mod Invariant
pub mod Stopped
pub mod Draining
pub mod Settling
pub mod Retries
use Prim.Native.String
use btps_sdk.Prelude.{
  ℕ, suc, ◌-◌, String, Bool, true, false, ◌||◌, not, Option, none, some, List, [], ◌∷◌, ◌++◌, ◌==◌,
  map, ltb, leb, or_else, if◌then◌else◌,
}
use btps_sdk.Effects.{Outcome}
use btps_sdk.Errors.{BtpError, plain, Exception, Thrown}
use btps_sdk.Json.{Json, bool, num, obj, end, field}

-- `BtpsClientOptions`, without the TLS options that the client passes on.
pub record Options : Type 0 where
  pub identity : String
  pub btp_identity_key : String
  pub btp_identity_cert : String
  pub max_retries : Option ℕ
  pub retry_delay_ms : Option ℕ
  pub connection_timeout_ms : Option ℕ
  pub host : Option String
  pub port : Option ℕ

-- `BTPSRetryInfo`
pub record RetryInfo : Type 0 where
  pub will_retry : Bool
  pub retries_left : ℕ
  pub attempt : ℕ

-- `BTPClientResponse`
pub record ClientResponse : Type 0 where
  pub response : Option Json
  pub error : Option Exception

abbrev pub build_client_error_response : Exception → ClientResponse
build_client_error_response e = record { response = none; error = some e }

-- What a call does when the client is connected: it sends a line, it is settled at once, or its
-- listener is rejected, which nothing handles.
pub data Opening : Type 0 where
  send : String → Opening
  settle : ClientResponse → Opening
  reject : Thrown → Opening

-- A call that waits for its answer: what it does on `connected`, what it makes of a message, unless
-- its listener is rejected, and the result that its promise was resolved with, if it was.
pub record Call : Type 0 where
  pub opening : Opening
  pub answer : Json → Option ClientResponse
  pub message_received : Bool
  pub result : Option ClientResponse

-- A TLS socket: the lines that were written to it, and whether it was ended or destroyed.
pub record Socket : Type 0 where
  pub lines : List String
  pub is_ended : Bool
  pub is_destroyed : Bool

-- `BtpsClient`, with the receivers of the address lookups that have not been answered and of the
-- timers that have not fired, the calls whose listeners the emitter has, those whose listeners were
-- removed, what was logged, and what was thrown where nothing catches it.
pub record Client : Type 0 where
  pub socket : Option Socket
  pub retries : ℕ
  pub backpressure_queue : List String
  pub is_draining : Bool
  pub awaits_drain : Bool
  pub destroyed : Bool
  pub should_retry : Bool
  pub is_connecting : Bool
  pub lookups : List String
  pub timers : List String
  pub calls : List Call
  pub detached : List Call
  pub logged : List BtpError
  pub uncaught : List BtpError

abbrev pub init : Client
init = record {
  socket = none;
  retries = 0;
  backpressure_queue = [];
  is_draining = false;
  awaits_drain = false;
  destroyed = false;
  should_retry = true;
  is_connecting = false;
  lookups = [];
  timers = [];
  calls = [];
  detached = [];
  logged = [];
  uncaught = [];
}

-- What `getRetryInfo` is asked about: nothing, a syntax error, or an error with a message.
pub data ForError : Type 0 where
  nothing : ForError
  syntax_error : ForError
  with_message : String → ForError

abbrev pub non_retryable_errors : List String
non_retryable_errors =
    "invalid identity" ∷ "invalid btpAddress" ∷ "invalid hostname" ∷ "unsupported protocol"
    ∷ "signature verification failed" ∷ "destroyed" ∷ []

abbrev includes : String → List String → Bool
includes s [] = false
includes s (t ∷ ts) = t == s || includes s ts

-- `(err?.message ?? ''.toLowerCase())` is the message as it stands.
unfoldable pub is_non_retryable_error : ForError → Bool
is_non_retryable_error nothing = includes "" non_retryable_errors
is_non_retryable_error syntax_error = false
is_non_retryable_error (with_message m) = includes m non_retryable_errors

abbrev pub is_syntax_error : ForError → Bool
is_syntax_error syntax_error = true
is_syntax_error _ = false

-- A promise keeps the first result that it is given.
abbrev pub resolve : ClientResponse → Call → Call
resolve r c = record c { result = some (or_else c.result r) }

abbrev pub resolve_given : Option ClientResponse → Call → Call
resolve_given none c = c
resolve_given (some r) c = resolve r c

abbrev pub retry_json : RetryInfo → Json
retry_json i = obj (
    field "willRetry" (bool i.will_retry)
      (field "retriesLeft" (num i.retries_left) (field "attempt" (num i.attempt) end)))

-- The listeners of a call for `message`, `error` and `end`.
unfoldable pub on_message : Json → Call → Call
on_message msg c = resolve_given (c.answer msg) (record c { message_received = true })

unfoldable pub on_error : (Json → String) → RetryInfo → BtpError → Call → Call
on_error stringify info e c =
    if c.message_received || info.will_retry
    then c
    else resolve
        (build_client_error_response
          (record { error = e; cause = some (stringify (retry_json info)) }))
        c

unfoldable pub on_end : RetryInfo → Call → Call
on_end info c =
    if c.message_received || info.will_retry
    then c
    else resolve
        (build_client_error_response
          (record { error = plain "Connection ended before message was received"; cause = none }))
        c

abbrev pub has_calls : List Call → Bool
has_calls [] = false
has_calls (c ∷ cs) = true

-- What a socket answers to a write and whether it is writable, after the lines that it was given.
pub record Network : Type 0 where
  pub can_write : List String → Bool
  pub is_writable : Socket → Bool
  pub tls_connect : (host : String) (port : ℕ) → Option Thrown
  pub parse_url : String → Option (String × String)
  pub json_parse : String → Outcome Json

abbrev pub max_retries_of : Options → ℕ
max_retries_of o = or_else o.max_retries 5

module _ (o : Options) where
  unfoldable pub get_retry_info : ForError → Client → RetryInfo
  unfolding is_non_retryable_error
  get_retry_info e c =
      let will_retry =
        if c.destroyed || is_syntax_error e || is_non_retryable_error e || not c.should_retry
        then false
        else ltb c.retries (max_retries_of o) in
      record {
        will_retry = will_retry;
        retries_left = if will_retry then max_retries_of o - c.retries - 1 else 0;
        attempt = c.retries;
      }

  -- `setTimeout` is a timer for the receiver.
  unfoldable pub retry_connect : String → Client → Client
  retry_connect receiver_id c =
      if leb (max_retries_of o) c.retries
      then c
      else record c { retries = suc c.retries; timers = c.timers ++ receiver_id ∷ [] }

module _ (stringify : Json → String) (o : Options) where
  -- Without a listener the error is logged.
  unfoldable pub resolve_error : BtpError → Client → Client × RetryInfo
  unfolding get_retry_info on_error
  resolve_error e c =
      let info = get_retry_info o (with_message e.message) c in
      let connecting = if info.will_retry then false else c.is_connecting in
      if has_calls c.calls
      then (
        record c { is_connecting = connecting; calls = map (on_error stringify info e) c.calls },
        info,
      )
      else (record c { is_connecting = connecting; logged = c.logged ++ e ∷ [] }, info)

  abbrev retry_if : String → Client × RetryInfo → Client
  retry_if receiver_id (c, info) = if info.will_retry then retry_connect o receiver_id c else c

  -- An error, and another attempt if it says so.
  unfoldable pub fail_or_retry : String → BtpError → Client → Client
  unfolding resolve_error retry_connect
  fail_or_retry receiver_id e c = retry_if receiver_id (resolve_error e c)

module _ (net : Network) where
  -- `this.socket?.write(line)`, which is undefined where there is no socket.
  unfoldable pub write_line : String → Client → Client × Bool
  write_line line c = elim c.socket [
    | none ↦ (c, false)
    | some s ↦ (
      record c { socket = some (record s { lines = s.lines ++ line ∷ [] }) },
      net.can_write (s.lines ++ line ∷ []),
    )
  ]

  abbrev hold_back : String → Client × Bool → Client
  hold_back line (c, true) = c
  hold_back line (c, false) = record c {
    backpressure_queue = c.backpressure_queue ++ line ∷ [];
    is_draining = true;
  }

  unfoldable pub send_artifact : String → Client → Client
  unfolding write_line
  send_artifact serialized c =
      hold_back (String.◌++◌ serialized "\n") (write_line (String.◌++◌ serialized "\n") c)

  -- The end of the loop of `flushBackpressure`, with its `finally` block.
  abbrev stop_flushing : List String → Client → Client
  stop_flushing queue c = record c {
    backpressure_queue = queue;
    is_draining = false;
    awaits_drain = false;
  }

  -- The loop over the lines that are held back. After a write that is not taken it waits for `drain`.
  unfoldable pub flush_loop : List String → Client → Client
  unfolding write_line
  flush_loop [] c = stop_flushing [] c
  flush_loop (chunk ∷ queue) c =
      let (c', written) = write_line chunk c in
      let rest = flush_loop queue c' in
      if not (elim c.socket [ none ↦ false | some s ↦ net.is_writable s ])
      then stop_flushing (chunk ∷ queue) c
      else if chunk == ""
      then stop_flushing queue c
      else if written
      then rest
      else record c' { backpressure_queue = queue; awaits_drain = true }

  unfoldable pub flush_backpressure : Client → Client
  unfolding flush_loop
  flush_backpressure c =
      if c.is_draining then c else flush_loop c.backpressure_queue (record c { is_draining = true })

  -- A `drain` event: its listener flushes, and a loop that waits for it goes on.
  unfoldable pub on_drain : Client → Client
  unfolding flush_backpressure
  on_drain c =
      if c.awaits_drain
      then flush_loop c.backpressure_queue (record c { awaits_drain = false })
      else flush_backpressure c
