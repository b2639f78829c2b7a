-- ===== src/Authentication/Login.antt =====
-- src/core/authentication/BtpsAuthentication.ts, the agent's side: an authentication and the refresh of
-- a session. What a command of an agent is settled with is a parameter.
pub mod Accepted
pub mod Tests
use btps_sdk.Prelude.{
  ◌≡◌, String, Bool, true, false, ◌&&◌, ◌||◌, not, Option, none, some, ◌==◌, if◌then◌else◌, ℕ,
}
use btps_sdk.Client.{Options, ClientResponse}
use btps_sdk.Client.Agent.{Command}
use btps_sdk.Crypto.{PemKeys}
use btps_sdk.Effects.{Outcome, returned, thrown}
use btps_sdk.Errors.{
  Exception, Thrown, error, identity_error, authentication_invalid, transform_to_exception,
}
use btps_sdk.Identity.{is_valid_identity}
use btps_sdk.Json.{
  Json, str, obj, Fields, end, field, get_field, without, fields_of, string_of, is_truthy,
}

-- `AuthRequestResponse`: the response without its type, or an error.
pub data Login : Type 0 where
  logged_in : Fields → Login
  rejected : Exception → Login

abbrev pub refused_login : String → Login
refused_login cause = rejected (record { error = authentication_invalid; cause = some cause })

-- A value that may be undefined, as a field.
abbrev given_field : String → Option Json → Fields → Fields
given_field k none fs = fs
given_field k (some v) fs = field k v fs

-- `BTPAuthReqDoc`
abbrev pub auth_request : (identity auth_token public_key : String) → Option Json → Json
auth_request identity auth_token public_key agent_info = obj (
    field "identity" (str identity) (
      field "authToken" (str auth_token)
        (field "publicKey" (str public_key) (given_field "agentInfo" agent_info end))))

abbrev pub login_document : Fields → Option Fields → Login
login_document response none = refused_login "Invalid authentication response format"
login_document response (some document) =
    if is_truthy (get_field "agentId" document) && is_truthy (get_field "refreshToken" document)
    then logged_in (without "type" response)
    else refused_login "Invalid authentication response format"

-- Whether a response is an error.
abbrev pub is_error : Fields → Bool
is_error response = elim (string_of (get_field "type" response)) [
  | none ↦ false
  | some t ↦ t == "btps_error"
]

-- A response without a status throws where its status is read.
abbrev pub login_status : Fields → Option Fields → Login
login_status response none =
    rejected (transform_to_exception (error "Cannot read properties of undefined (reading 'ok')"))
login_status response (some status) =
    if not (is_truthy (get_field "ok" status))
      || not (is_truthy (get_field "document" response))
      || is_error response
    then refused_login "Invalid authentication response"
    else login_document response (fields_of (get_field "document" response))

abbrev pub login_response : Option Json → Login
login_response (some (obj response)) =
    login_status response (fields_of (get_field "status" response))
login_response _ = refused_login "Invalid authentication response"

abbrev pub login_given : Option Exception → Option Json → Login
login_given (some e) response = rejected e
login_given none response = login_response response

abbrev pub login_answer : Outcome ClientResponse → Login
login_answer (thrown e) = rejected (transform_to_exception e)
login_answer (returned r) = login_given r.error r.response

module _ (command : Options → (agent_id : String) → Command → Outcome ClientResponse) where
  -- `_fetchAuthSession`; `options` holds the options of the agent.
  unfoldable pub fetch_auth_session :
      (agent_id identity auth_token : String) (key_pair : PemKeys) (agent_info : Option Json)
      (action : String)
      → Options
      → Login
  unfolding transform_to_exception
  fetch_auth_session agent_id identity auth_token key_pair agent_info action options =
      login_answer (
        command
          (record options {
            identity = identity;
            btp_identity_key = key_pair.private_key;
            btp_identity_cert = key_pair.public_key;
          })
          agent_id
          (record {
            action_type = action;
            to = identity;
            document = some (auth_request identity auth_token key_pair.public_key agent_info);
            options = none;
          }))

  abbrev invalid_identity : Login
  invalid_identity = rejected (record { error = identity_error; cause = none })

  unfoldable pub authenticate :
      (identity auth_token : String) (key_pair : PemKeys) (agent_info : Option Json)
      → Options
      → Login
  unfolding fetch_auth_session is_valid_identity
  authenticate identity auth_token key_pair agent_info options =
      if is_valid_identity identity
      then fetch_auth_session "temp" identity auth_token key_pair agent_info "auth.request" options
      else invalid_identity

  unfoldable pub refresh_session :
      (agent_id identity refresh_token : String) (key_pair : PemKeys) (agent_info : Option Json)
      → Options
      → Login
  unfolding fetch_auth_session is_valid_identity
  refresh_session agent_id identity refresh_token key_pair agent_info options =
      if is_valid_identity identity
      then fetch_auth_session agent_id identity refresh_token key_pair agent_info "auth.refresh"
          options
      else invalid_identity
