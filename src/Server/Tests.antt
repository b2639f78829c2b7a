-- ===== src/Server/Tests.antt =====
-- Runs of the server, and the theorems on it at inputs that exercise the code.
use btps_sdk.Prelude.{ℕ, ◌≡◌, refl, true, Option, List, [], ◌∷◌, length, filter, map}
use btps_sdk.Dns
use btps_sdk.JsMap
use btps_sdk.Identity.{parse_identity}
use btps_sdk.Text.{split}
use btps_sdk.Effects.{returned}
use btps_sdk.Json.{Json, str, obj, Fields, field, end}
use btps_sdk.Server.Delegation.{IsDelegated, IsBacked, verify_delegation-IsDelegated}
use btps_sdk.Server.Signature.{verify_delegation, verify_delegated}
use btps_sdk.Samples.{pem}
use btps_sdk.Crypto.{Platform, signature_json, verify_signature, get_fingerprint_from_pem}
use btps_sdk.Json
use btps_sdk.Json.{Json, str}
use btps_sdk.Middleware.Loading.{get_middleware}
use btps_sdk.Server.Checked.{delivered}
use btps_sdk.Server.Connection
use btps_sdk.Server.Connection.{ConnectionEvent, line, timed_out, run_connection}
use btps_sdk.Server.Pipeline
use btps_sdk.Server.Signature
use btps_sdk.Server.TrustCheck
use btps_sdk.Server.World
use btps_sdk.Server.Pipeline.{ResCtx, execute_request_pipeline}
use btps_sdk.Server.Signature.{Processed, agent}
use btps_sdk.Dns.{base64_to_pem, lines_from}
use btps_sdk.Text.{join}
use btps_sdk.Server.World.{
  live, emitted, log_entry, ReqCtx, send_btps_error, send_btps_response, prepare_btps_response,
  World, btps_error, btps_response,
}
use btps_sdk.Text
use btps_sdk.Trust.{TrustRecord, passed, is_trust_active}
use btps_sdk.Samples.{platform, store, surroundings, config, json_parse, opened}

server : Unit {0}
unfolding Connection.run_connection Connection.handle_event Connection.handle_line
    Connection.handle_parsed Connection.parse_and_validate Connection.includes
    Connection.is_immediate_action Connection.is_btps_transport_artifact
    Pipeline.handle_on_socket_error Pipeline.emit Pipeline.emit_awaited Pipeline.forward_artifact
    Pipeline.process_message Pipeline.deliver Pipeline.after_trust Pipeline.check_trust
    Pipeline.after_signature Pipeline.check_signature Pipeline.execute_request_pipeline
    Signature.resolve_key Signature.get_agent_public_key Signature.verify_agent_signature
    Signature.verify_message_signature TrustCheck.verify_agent_trust TrustCheck.verify_trust
    World.send_btps_response World.send_throws World.act_step World.prepare_btps_response
    World.send_btps_error World.perform World.perform_all World.run_script World.execute_middleware
    verify_signature get_fingerprint_from_pem get_middleware is_trust_active Json.get_field
    Json.set_field Json.without Text.trim Text.trim_start Text.trim_end Text.is_space Text.ends_with
    filter
server = tt

abbrev events : List (ℕ × ConnectionEvent)
events = (50, line "good") ∷ (60, line "forged") ∷ []

abbrev run_of : List (ℕ × ConnectionEvent) → World (Option TrustRecord)
run_of es = run_connection json_parse (λ j. true) platform store surroundings config es opened

-- The signed request is delivered and answered; the second line finds the socket closed.
good_answers : map (λ r. r.code) (run_of events).written ≡ 200 ∷ []
unfolding server
good_answers = refl

good_delivered : length (delivered (run_of events).log) ≡ 1
unfolding server
good_delivered = refl

forged_answers : map (λ r. r.code) (run_of ((50, line "forged") ∷ [])).written ≡ 500 ∷ []
unfolding server
forged_answers = refl

forged_delivered : length (delivered (run_of ((50, line "forged") ∷ [])).log) ≡ 0
unfolding server
forged_delivered = refl

abbrev named_platform : Platform
named_platform = record platform { resolve_txt = λ name. returned (("p=k" ∷ []) ∷ []) }

abbrev signed_field : Json
signed_field =
    signature_json (record { algorithm_hash = "sha256"; value = "{}"; fingerprint = pem })

abbrev delegation : Fields
delegation = field "agentId" (str "agent") (
    field "agentPubKey" (str pem) (
      field "signedBy" (str "b$y.com")
        (field "selector" (str "s") (field "signature" signed_field end))))

abbrev letter : Fields
letter = field "id" (str "4") (
    field "from" (str "a$x.com")
      (field "signature" signed_field (field "delegation" (obj delegation) end)))

verify_delegation-IsDelegated_example :
    IsDelegated named_platform letter delegation × IsBacked named_platform letter delegation
unfolding server verify_delegation verify_delegated Dns.resolve_public_key
    Dns.get_dns_identity_parts Dns.parts_lookup Dns.parts_of Dns.txt_parts Dns.from_entries
    parse_identity split join base64_to_pem lines_from JsMap.get JsMap.set
verify_delegation-IsDelegated_example =
    verify_delegation-IsDelegated named_platform letter delegation passed refl refl
