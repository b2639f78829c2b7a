-- ===== src/Authentication/Login/Tests.antt =====
-- A login of src/core/authentication/BtpsAuthentication.ts at a concrete answer, and the theorem at it.
use btps_sdk.Prelude.{◌≡◌, refl, String, true, none, some}
use btps_sdk.Authentication.Login.{authenticate, fetch_auth_session}
use btps_sdk.Authentication.Login.Accepted.{
  IsAccepted, request_options, auth_command, authenticate-IsAccepted,
}
use btps_sdk.Client.{Options, ClientResponse}
use btps_sdk.Client.Agent.{Command}
use btps_sdk.Effects.{Outcome, returned}
use btps_sdk.Identity.{parse_identity, is_valid_identity}
use btps_sdk.Json.{bool, str, obj, Fields, end, field, get_field, without}
use btps_sdk.Samples.{keys}
use btps_sdk.Text.{split}

abbrev options : Options
options = record {
  identity = "";
  btp_identity_key = "";
  btp_identity_cert = "";
  max_retries = none;
  retry_delay_ms = none;
  connection_timeout_ms = none;
  host = none;
  port = none;
}

abbrev document : Fields
document = field "agentId" (str "btps_ag_1") (field "refreshToken" (str "R") end)

abbrev accepted : Fields
accepted = field "status" (obj (field "ok" (bool true) end)) (field "document" (obj document) end)

-- A server that accepts every command.
abbrev answer : Options → String → Command → Outcome ClientResponse
answer o agent_id m =
    returned
      (record { response = some (obj (field "type" (str "btps_response") accepted)); error = none })

authenticate-IsAccepted_example :
    (is_valid_identity "b$y.com" ≡ true)
    × IsAccepted
        (answer
          (request_options "b$y.com" keys options)
          "temp"
          (auth_command "b$y.com" "T" keys none))
        accepted
unfolding authenticate fetch_auth_session is_valid_identity parse_identity split get_field without
authenticate-IsAccepted_example =
    authenticate-IsAccepted answer "b$y.com" "T" keys none options accepted refl
