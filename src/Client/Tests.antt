-- ===== src/Client/Tests.antt =====
-- A client of src/client at concrete inputs, and the theorems at them.
use btps_sdk.Prelude.{
  ◌≤◌, ◌≡◌, ◌+◌, refl, Bool, true, false, none, some, List, [], ◌∷◌, ◌++◌, length, map, is_some,
  if◌then◌else◌, ◌==◌,
}
use btps_sdk.Client.{
  Options, Client, Call, Network, Opening, send, settle, reject, get_retry_info,
  is_non_retryable_error, retry_connect, resolve_error, fail_or_retry, on_error, on_end, on_message,
  write_line, send_artifact, flush_loop, flush_backpressure, on_drain, init,
}
use btps_sdk.Client.Agent.{Command, agent_artifact, transporter_action, command_opening}
use btps_sdk.Client.Connection.{
  Event, connect_to, lookup_answered, timer_fired, secured, received, drained, failed, peer_ended,
  timed_out, run, handle, destroy, connect, on_lookup, on_timer, on_connected, on_line, on_timeout,
  on_socket_error, on_socket_end, continue_connect, initialize_connection, resolve_btp_address,
  get_btp_address_parts, open_calls, parse_int,
}
use btps_sdk.Client.Draining.{on_drain-run}
use btps_sdk.Client.Payloads.{
  SendsPlain, command_opening-SendsPlain, sign_encrypt_payload-IsClear, IsClear,
}
use btps_sdk.Client.Retries.{fired, fired-le}
use btps_sdk.Client.Settling.{RetriesOrSettles, handle-RetriesOrSettles}
use btps_sdk.Client.Stopped.{IsDead, run-destroy}
use btps_sdk.Client.Transporter.{
  transport, transport_call, sign_encrypt_artifact, sign_encrypt_payload,
}
use btps_sdk.Crypto.{Platform, sign_btp_payload, get_fingerprint_from_pem}
use btps_sdk.Crypto.Documents.{seal, sign_encrypt}
use btps_sdk.Crypto.Encryption.{encrypt_btp_payload}
use btps_sdk.Crypto.Tests.{ciphers, fresh}
use btps_sdk.Dns.{
  get_host_and_selector, resolve_public_key, get_dns_identity_parts, parts_lookup, parts_of,
  host_lookup, txt_parts, address_of, base64_to_pem, lines_from,
}
use btps_sdk.Effects.{returned, thrown}
use btps_sdk.Errors.{error, transform_to_exception}
use btps_sdk.Identity.{parse_identity}
use btps_sdk.JsMap
use btps_sdk.Json.{str, without, Fields, field, end, get_field, set_field}
use btps_sdk.Samples.{platform, pem}
use btps_sdk.Text.{split, trim, trim_start, trim_end, is_space, ends_with, join}

client_runs : Unit {0}
unfolding get_retry_info is_non_retryable_error retry_connect resolve_error fail_or_retry on_error
    on_end on_message write_line send_artifact flush_loop flush_backpressure on_drain run handle
    connect on_lookup on_timer on_connected on_line on_timeout on_socket_error on_socket_end
    continue_connect initialize_connection resolve_btp_address get_btp_address_parts open_calls
    parse_int parse_identity split transform_to_exception fired transport
client_runs = tt

abbrev options : Options
options = record {
  identity = "a$x.com";
  btp_identity_key = "private";
  btp_identity_cert = pem;
  max_retries = some 2;
  retry_delay_ms = none;
  connection_timeout_ms = some 100;
  host = some "y.com";
  port = none;
}

-- A network that takes the first line of a connection but answers that its buffer is full.
abbrev net : Network
net = record {
  can_write = λ lines. false;
  is_writable = λ s. true;
  tls_connect = λ host port. none;
  parse_url = λ url. some ("3443", "y.com");
  json_parse =
      λ line. if line == "bad" then thrown (error "Unexpected token") else returned (str line);
}

abbrev message : Fields
message = field "from" (str "a$x.com") (field "to" (str "b$y.com") end)

abbrev call : Call
call = transport_call platform net options message

-- A connection that fails three times, and a fourth timer that is not there.
abbrev failing : List Event
failing =
    connect_to "b$y.com" (some call)
    ∷ lookup_answered
    ∷ failed "b$y.com" (error "refused")
    ∷ timer_fired
    ∷ lookup_answered
    ∷ failed "b$y.com" (error "refused")
    ∷ timer_fired
    ∷ lookup_answered
    ∷ failed "b$y.com" (error "refused")
    ∷ timer_fired
    ∷ []

abbrev answered : List Event
answered =
    connect_to "b$y.com" (some call) ∷ lookup_answered ∷ secured ∷ drained ∷ received "ok" ∷ []

run-failing :
    (fired platform net options failing init ≡ 2)
    × (map (λ c. is_some c.result) (run platform net options failing init).calls ≡ true ∷ [])
unfolding client_runs
run-failing = (refl, refl)

run-answered :
    (map (λ c. c.result) (run platform net options answered init).calls
      ≡ some (record { response = some (str "ok"); error = none }) ∷ [])
    × ((run platform net options answered init).backpressure_queue ≡ "{}\n" ∷ [])
unfolding client_runs
run-answered = (refl, refl)

-- A second call sends the artifact of the first one again.
run-twice :
    elim (run platform net options (answered ++ answered) init).socket [
      | none ↦ []
      | some s ↦ s.lines
    ]
    ≡ "{}\n" ∷ "{}\n" ∷ []
unfolding client_runs
run-twice = refl

fired-le_example :
    (fired platform net options failing init ≤ 2)
    × (fired platform net options failing init
          + length (run platform net options failing init).timers
        ≡ (run platform net options failing init).retries)
fired-le_example = fired-le platform net options failing

run-destroy_example :
    let after =
      run platform net options failing
        (destroy platform net options (run platform net options answered init)) in
    (after.destroyed ≡ true)
    × IsDead after.socket
    × (after.retries ≡ (run platform net options answered init).retries)
run-destroy_example =
    run-destroy platform net options failing (run platform net options answered init)

on_drain-run_example :
    on_drain net (run platform net options answered init) ≡ run platform net options answered init
on_drain-run_example = on_drain-run platform net options answered

abbrev connected : Client
connected = run platform net options (connect_to "b$y.com" (some call) ∷ lookup_answered ∷ []) init

handle-RetriesOrSettles_example :
    RetriesOrSettles connected (handle platform net options (peer_ended "b$y.com") connected)
    × RetriesOrSettles connected
        (handle platform net options (failed "b$y.com" (error "refused")) connected)
    × RetriesOrSettles connected (handle platform net options (timed_out "b$y.com") connected)
handle-RetriesOrSettles_example =
    handle-RetriesOrSettles platform net options "b$y.com" (error "refused") connected refl

-- A command that asks for an encrypted document.
abbrev sending : Command
sending = record {
  action_type = "trust.request";
  to = "b$y.com";
  document = some (str "letter");
  options = some (record {
    encryption = some (record { algorithm = "aes-256-gcm"; mode = "standardEncrypt" });
  });
}

-- Every domain publishes the sample key.
abbrev published : Platform
published = record platform {
  resolve_txt = λ name. returned (("v=1.0.0;u=y.com;s=btps1;p=k" ∷ []) ∷ []);
}

abbrev is_send : Opening → Bool
is_send (send text) = true
is_send (settle r) = false
is_send (reject e) = false

command_sends :
    is_send (command_opening published ciphers options "agent" fresh fresh sending) ≡ true
unfolding client_runs command_opening agent_artifact transporter_action set_field without
    sign_encrypt_artifact sign_encrypt seal encrypt_btp_payload sign_btp_payload
    get_fingerprint_from_pem get_host_and_selector resolve_public_key get_dns_identity_parts
    parts_lookup parts_of host_lookup txt_parts address_of base64_to_pem lines_from parse_identity
    JsMap.get JsMap.set get_field split trim trim_start trim_end is_space ends_with join
command_sends = refl

command_opening-SendsPlain_example :
    SendsPlain published ciphers options
      (str "letter")
      (command_opening published ciphers options "agent" fresh fresh sending)
command_opening-SendsPlain_example =
    command_opening-SendsPlain published ciphers options "agent" fresh fresh sending (str "letter")
      refl refl

sign_encrypt_payload-IsClear_example : IsClear platform ciphers options (
    sign_encrypt_payload platform ciphers options
      (λ j. true)
      fresh
      (field "to"
        (str "b$y.com")
        (field "selector" (str "btps1") (field "document" (str "letter") end))))
sign_encrypt_payload-IsClear_example =
    sign_encrypt_payload-IsClear platform ciphers options (λ j. true) fresh
      (field "to" (str "b$y.com")
        (field "selector" (str "btps1") (field "document" (str "letter") end)))
