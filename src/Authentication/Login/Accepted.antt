-- ===== src/Authentication/Login/Accepted.antt =====
-- src/core/authentication/BtpsAuthentication.ts, the agent's side: what a successful login has checked.
use btps_sdk.Prelude.{
  ◌≡◌, refl, sym, ap, String, true, false, ◌&&◌, ◌||◌, not, Option, none, some, arith,
}
use btps_sdk.Authentication.Login.{
  Login, logged_in, rejected, login_document, login_status, login_response, login_given,
  login_answer, is_error, fetch_auth_session, authenticate, auth_request,
}
use btps_sdk.Client.{Options, ClientResponse}
use btps_sdk.Client.Agent.{Command}
use btps_sdk.Client.Steps.{if_cases}
use btps_sdk.Crypto.{PemKeys}
use btps_sdk.Effects.{Outcome, returned, thrown}
use btps_sdk.Errors.{Exception}
use btps_sdk.Identity.{is_valid_identity}
use btps_sdk.Json.{
  Json, null, bool, num, str, arr, obj, Fields, get_field, without, fields_of, is_truthy,
}

-- What a command was settled with is a response of the server whose status is ok, which is not of
-- the type of an error, and whose document names an agent and a refresh token; the fields are those of
-- the response without its type.
pub record IsAccepted (o : Outcome ClientResponse) (fs : Fields) : Type 0 where
  pub settled : ClientResponse
  pub response : Fields
  pub status : Fields
  pub document : Fields
  pub answered : o ≡ returned settled
  pub no_exception : settled.error ≡ none
  pub responded : settled.response ≡ some (obj response)
  pub stated : fields_of (get_field "status" response) ≡ some status
  pub ok : is_truthy (get_field "ok" status) ≡ true
  pub typed : fs ≡ without "type" response
  pub no_error : is_error response ≡ false
  pub documented : fields_of (get_field "document" response) ≡ some document
  pub agent : is_truthy (get_field "agentId" document) ≡ true
  pub token : is_truthy (get_field "refreshToken" document) ≡ true

abbrev fields_at : Login → Fields → Fields
fields_at (logged_in fs) d = fs
fields_at (rejected e) d = d

-- What the server's response is found to be once its status was read.
record IsGood (response fs : Fields) : Type 0 where
  status : Fields
  document : Fields
  stated : fields_of (get_field "status" response) ≡ some status
  ok : is_truthy (get_field "ok" status) ≡ true
  typed : fs ≡ without "type" response
  no_error : is_error response ≡ false
  documented : fields_of (get_field "document" response) ≡ some document
  agent : is_truthy (get_field "agentId" document) ≡ true
  token : is_truthy (get_field "refreshToken" document) ≡ true

login_document-IsGood :
    (response status : Fields) (o : Option Fields) (fs : Fields)
    → fields_of (get_field "status" response) ≡ some status
    → is_truthy (get_field "ok" status) ≡ true
    → fields_of (get_field "document" response) ≡ o
    → is_error response ≡ false
    → login_document response o ≡ logged_in fs
    → IsGood response fs
login_document-IsGood response status none fs s k d e = λ h. absurd (cc h)
login_document-IsGood response status (some document) fs s k d e =
    if_cases (λ l. l ≡ logged_in fs → IsGood response fs)
      (is_truthy (get_field "agentId" document) && is_truthy (get_field "refreshToken" document)) _
      _
      (λ both h. record {
        status = status;
        document = document;
        stated = s;
        ok = k;
        typed = sym (ap (λ l. fields_at l fs) h);
        no_error = e;
        documented = d;
        agent = ground arith;
        token = ground arith;
      })
      (λ _ h. absurd (cc h))

login_status-IsGood :
    (response : Fields) (o : Option Fields) (fs : Fields)
    → fields_of (get_field "status" response) ≡ o
    → login_status response o ≡ logged_in fs
    → IsGood response fs
login_status-IsGood response none fs s = λ h. absurd (cc h)
login_status-IsGood response (some status) fs s =
    if_cases (λ l. l ≡ logged_in fs → IsGood response fs)
      (not (is_truthy (get_field "ok" status))
        || not (is_truthy (get_field "document" response))
        || is_error response)
      _ _ (λ _ h. absurd (cc h))
      (λ fine h.
        login_document-IsGood response status (fields_of (get_field "document" response)) fs s
          (ground arith) refl (ground arith) h)

login_response-IsGood :
    (r : Option Json) (fs : Fields)
    → login_response r ≡ logged_in fs
    → (response : Fields) × (r ≡ some (obj response)) × IsGood response fs
login_response-IsGood none fs h = absurd (cc h)
login_response-IsGood (some null) fs h = absurd (cc h)
login_response-IsGood (some (bool b)) fs h = absurd (cc h)
login_response-IsGood (some (num n)) fs h = absurd (cc h)
login_response-IsGood (some (str s)) fs h = absurd (cc h)
login_response-IsGood (some (arr a)) fs h = absurd (cc h)
login_response-IsGood (some (obj r)) fs h =
    (r, refl, login_status-IsGood r (fields_of (get_field "status" r)) fs refl h)

login_given-IsGood :
    (e : Option Exception) (r : Option Json) (fs : Fields)
    → login_given e r ≡ logged_in fs
    → (e ≡ none) × ((response : Fields) × (r ≡ some (obj response)) × IsGood response fs)
login_given-IsGood (some e) r fs h = absurd (cc h)
login_given-IsGood none r fs h = (refl, login_response-IsGood r fs h)

login_answer-IsAccepted :
    (o : Outcome ClientResponse) (fs : Fields) → login_answer o ≡ logged_in fs → IsAccepted o fs
login_answer-IsAccepted (thrown e) fs h = absurd (cc h)
login_answer-IsAccepted (returned r) fs h =
    let (no_exception, (response, responded, good)) = login_given-IsGood r.error r.response fs h in
    record {
      settled = r;
      response = response;
      status = good.status;
      document = good.document;
      answered = refl;
      no_exception = no_exception;
      responded = responded;
      stated = good.stated;
      ok = good.ok;
      typed = good.typed;
      no_error = good.no_error;
      documented = good.documented;
      agent = good.agent;
      token = good.token;
    }

-- The command of an authentication: the options it is given, and the message.
abbrev pub request_options : (identity : String) → PemKeys → Options → Options
request_options identity keys o = record o {
  identity = identity;
  btp_identity_key = keys.private_key;
  btp_identity_cert = keys.public_key;
}

abbrev pub auth_command : (identity auth_token : String) → PemKeys → Option Json → Command
auth_command identity auth_token keys info = record {
  action_type = "auth.request";
  to = identity;
  document = some (auth_request identity auth_token keys.public_key info);
  options = none;
}

module _ (command : Options → (agent_id : String) → Command → Outcome ClientResponse) where
  -- An authentication succeeds only for a readable identity, and only where the command
  -- `auth.request` of the agent temp to that identity, with the identity, the token, the public key
  -- and the agent's information in its document, was settled without an error and with a response of
  -- the server whose status is ok, which is not of the type of an error and whose document names an
  -- agent and a refresh token; it gives the fields of that response without its type.
  pub authenticate-IsAccepted :
      (identity auth_token : String) (keys : PemKeys) (info : Option Json) (o : Options)
      (fs : Fields)
      → authenticate command identity auth_token keys info o ≡ logged_in fs
      → (is_valid_identity identity ≡ true)
        × IsAccepted
            (command
              (request_options identity keys o)
              "temp"
              (auth_command identity auth_token keys info))
            fs
  unfolding authenticate fetch_auth_session
  authenticate-IsAccepted identity auth_token keys info o fs =
      if_cases
        (λ l.
          l ≡ logged_in fs
          → (is_valid_identity identity ≡ true)
            × IsAccepted
                (command (request_options identity keys o) "temp"
                  (auth_command identity auth_token keys info))
                fs)
        (is_valid_identity identity) _ _ (λ valid h. (valid, login_answer-IsAccepted _ fs h))
        (λ _ h. absurd (cc h))
