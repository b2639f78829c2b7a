-- ===== src/Samples.antt =====
-- Concrete instances of what the model takes as parameters, for the tests: a platform whose
-- signatures are the signed texts, a trust store of one record, and surroundings that always work.
use btps_sdk.Prelude.{String, true, Option, none, some, [], ◌==◌, if◌then◌else◌}
use btps_sdk.Crypto.{Platform, PemKeys, signature_json}
use btps_sdk.Dates.{at}
use btps_sdk.Effects.{returned, thrown}
use btps_sdk.Errors.{error}
use btps_sdk.Json.{Json, str, obj, Fields, end, field}
use btps_sdk.Server.Pipeline.{Config}
use btps_sdk.Server.World.{live, World, Surroundings}
use btps_sdk.Trust.{Status, accepted, unencrypted, TrustRecord}
use btps_sdk.Trust.Store.{TrustStore}

abbrev pub pem : String
pem = "-----BEGIN PUBLIC KEY-----\nk\n-----END PUBLIC KEY-----"

abbrev pub keys : PemKeys
keys = record { public_key = pem; private_key = "private" }

abbrev pub platform : Platform
platform = record {
  stringify = λ j. "{}";
  digest = λ s. s;
  key_digest = λ algorithm s. returned s;
  sign = λ algorithm message key. returned message;
  verify = λ algorithm message key value. returned (value == message);
  resolve_txt = λ name. thrown (error "ENOTFOUND");
  print = λ e. "ENOTFOUND";
}

abbrev pub trust : Status → TrustRecord
trust status = record {
  id = "a$x.com:b$y.com";
  sender_id = "a$x.com";
  receiver_id = "b$y.com";
  status = status;
  created_at = at 10;
  decided_by = "b$y.com";
  decided_at = at 20;
  expires_at = some (at 100);
  public_key_base64 = "k";
  public_key_fingerprint = pem;
  key_history = [];
  privacy_type = unencrypted;
  retry_after_date = none;
  metadata = none;
}

abbrev pub store : TrustStore
store = record {
  State = Option TrustRecord;
  get_by_id = λ id s. (s, returned s);
  create = λ r id s. (some r, returned r);
  update = λ id patch s. (s, thrown (error "not found"));
}

abbrev pub surroundings : Surroundings
surroundings = record {
  random_uuid = λ n. "id";
  iso_now = λ n. "now";
  conforms = λ r. true;
  write = λ r. none;
  on_error = λ e. none;
}

abbrev pub config : Config (Option TrustRecord)
config = record {
  manager = record {
    middleware_path = none;
    middleware = [];
    hooks = record { on_server_start = none; on_server_stop = none; on_response_sent = none };
  };
  agent_listeners = [];
  transporter_listeners = [];
  handler_fn = none;
}

-- An authentication request of an agent that carries its own key, signed with it.
abbrev signed_request : Fields
signed_request = field "id" (str "1") (
    field "agentId" (str "agent") (
      field "to" (str "b$y.com") (
        field "action" (str "auth.request") (
          field "document" (obj (field "publicKey" (str pem) end)) (
            field "signature"
              (signature_json
                (record { algorithm_hash = "sha256"; value = "{}"; fingerprint = pem }))
              end)))))

-- The same request with the signature of another text.
abbrev forged_request : Fields
forged_request = field "id" (str "2") (
    field "agentId" (str "agent") (
      field "to" (str "b$y.com") (
        field "action" (str "auth.request") (
          field "document" (obj (field "publicKey" (str pem) end)) (
            field "signature"
              (signature_json
                (record { algorithm_hash = "sha256"; value = "?"; fingerprint = pem }))
              end)))))

-- The lines `good` and `forged` stand for the two requests; no other line is JSON.
abbrev pub json_parse : String → Option Json
json_parse s =
    if s == "good"
    then some (obj signed_request)
    else if s == "forged"
    then some (obj forged_request)
    else none

abbrev pub opened : World (Option TrustRecord)
opened = record { store = some (trust accepted); socket = live; written = []; log = [] }
