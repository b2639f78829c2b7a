-- ===== src/Client/Transporter.antt =====
-- src/client/btpsTransporter.ts, and the signing and the reading of messages of
-- src/client/btpsClient.ts. The schemas are parameters.
use btps_sdk.Prelude.{String, Bool, false, Option, none, some, if◌then◌else◌}
use btps_sdk.Client.{
  Options, Client, Call, send, ClientResponse, build_client_error_response, Network,
}
use btps_sdk.Client.Connection.{connect}
use btps_sdk.Crypto.{Platform, PemKeys}
use btps_sdk.Crypto.Documents.{
  CryptoOptions, CryptoResponse, Fresh, gen_error, sign_encrypt, decrypt_verify,
}
use btps_sdk.Crypto.Encryption.{Ciphers}
use btps_sdk.Dns.{protocol_version}
use btps_sdk.Effects.{Outcome, returned}
use btps_sdk.Errors.{exception, plain, identity_error}
use btps_sdk.Identity.{parse_identity}
use btps_sdk.Json.{Json, str, obj, Fields, get_field, set_field, string_of, text_at}

-- `signEncryptArtifact`
module _ (p : Platform) (c : Ciphers) (o : Options) where
  abbrev pub own_keys : PemKeys
  own_keys = record { public_key = o.btp_identity_cert; private_key = o.btp_identity_key }

  unfoldable pub sign_encrypt_artifact :
      Fresh → Fields → Option CryptoOptions → Outcome CryptoResponse
  unfolding sign_encrypt
  sign_encrypt_artifact fresh artifact options = elim (parse_identity o.identity) [
    | none ↦ returned (gen_error (exception identity_error))
    | some _ ↦
        sign_encrypt p c fresh (string_of (get_field "to" artifact)) own_keys artifact options
  ]

  unfoldable pub decrypt_verify_artifact : Fields → String → Outcome CryptoResponse
  unfolding decrypt_verify
  decrypt_verify_artifact artifact sender_pub_pem =
      decrypt_verify p c sender_pub_pem artifact (some o.btp_identity_key)

  abbrev pub has_document : (Json → Bool) → Option Json → Bool
  has_document is_document none = false
  has_document is_document (some j) = is_document j

  -- `BtpsTransporter.signEncrypt`, which passes no options of the encryption on.
  unfoldable pub sign_encrypt_payload : (Json → Bool) → Fresh → Fields → Outcome CryptoResponse
  unfolding sign_encrypt_artifact
  sign_encrypt_payload is_document fresh payload =
      if has_document is_document (get_field "document" payload)
      then sign_encrypt_artifact fresh
          (set_field "from" (str o.identity) (set_field "version" (str protocol_version) payload))
          none
      else returned (gen_error (exception (plain "Invalid artifact")))

abbrev pub invalid_artifact : ClientResponse
invalid_artifact =
    build_client_error_response (record { error = plain "Invalid artifact"; cause = none })

module _ (p : Platform) (net : Network) (o : Options) where
  -- The listeners of a call of `transport`.
  abbrev pub transport_call : Fields → Call
  transport_call artifact = record {
    opening = send (p.stringify (obj artifact));
    answer = λ msg. some (record { response = some msg; error = none });
    message_received = false;
    result = none;
  }

  -- The client, and the result where the artifact is not even sent.
  unfoldable pub transport : (Fields → Bool) → Fields → Client → Client × Option ClientResponse
  unfolding connect
  transport is_artifact artifact c =
      if is_artifact artifact
      then (connect p net o (text_at "to" artifact) (some (transport_call artifact)) c, none)
      else (c, some invalid_artifact)
