-- ===== src/Server/Defaults.antt =====
-- src/server/libs/defaultMiddleware.ts: the default middleware, as handlers on a state that holds the
-- rate limiter. What they count and print of metrics is left out. The clock and the remote address of
-- the connection are arguments.
use btps_sdk.Prelude.{ℕ, String, Bool, true, false, Option, none, some, List, [], ◌∷◌}
use btps_sdk.Errors.{number, BtpError, error}
use btps_sdk.Json.{text_at}
use btps_sdk.Middleware.{
  Phase, before, after, Step, parsing, signature_verification, trust_verification, on_artifact,
  on_error, Definition,
}
use btps_sdk.RateLimiter
use btps_sdk.RateLimiter.{Limiter, Kind, ip_address, from_identity, is_allowed}
use btps_sdk.Server.Signature.{Processed, transporter, agent}
use btps_sdk.Server.World.{ReqCtx, send_error, change_store, Script, Handler}

-- The rate limiter of the module.
abbrev pub rate_limiter : Limiter
rate_limiter =
    RateLimiter.init
      (record { cleanup_interval_sec = some 30; from_identity = some 30; ip_address = some 50 })

abbrev pub too_many_requests : BtpError
too_many_requests = record { code = some (number 429); message = "Too many requests" }

-- `isAgentArtifact ? artifact.agentId : artifact.from`
abbrev pub sender_of : Processed → String
sender_of (agent artifact respond_now) = text_at "agentId" artifact
sender_of (transporter artifact) = text_at "from" artifact

module _ (T : Type 0) where
  abbrev pub Limited : Type 0
  Limited = Limiter × T

  abbrev pass : Script Limited
  pass = record { acts = []; throws = none }

  -- The limiter counts the call, and a call too many is answered.
  abbrev pub limited : Limiter × Bool → Script Limited
  limited (limiter, true) = record { acts = change_store (λ s. (limiter, s.1)) ∷ []; throws = none }
  limited (limiter, false) = record {
    acts = change_store (λ s. (limiter, s.1)) ∷ send_error true too_many_requests ∷ [];
    throws = none;
  }

  unfoldable pub ip_limiter : (now : ℕ) (remote_address : String) → Handler Limited
  unfolding is_allowed
  ip_limiter now remote_address q w = limited (is_allowed now remote_address ip_address w.store.0)

  abbrev limit_message : ℕ → Option Processed → Bool → Limiter → Script Limited
  limit_message now none failed l = pass
  limit_message now (some d) true l = pass
  limit_message now (some d) false l = limited (is_allowed now (sender_of d) from_identity l)

  abbrev has_error : ReqCtx → Bool
  has_error q = elim q.error [ none ↦ false | some e ↦ true ]

  unfoldable pub identity_limiter : (now : ℕ) → Handler Limited
  unfolding is_allowed
  identity_limiter now q w = limit_message now q.message (has_error q) w.store.0

  abbrev read_message : Option Processed → Script Limited
  read_message (some d) = pass
  read_message none = record {
    acts = [];
    throws = some (error "Cannot destructure property 'artifact' of 'data' as it is undefined.");
  }

  -- The trackers of signatures, of trust and of messages read the message.
  unfoldable pub tracker : Handler Limited
  tracker q w = read_message q.message

  unfoldable pub error_logger : Handler Limited
  error_logger q w = pass

  abbrev entry : Phase → Step → Handler Limited → Definition (Handler Limited)
  entry phase step handler = record {
    phase = phase;
    step = step;
    priority = some 1;
    config = some (record { enabled = some true });
    handler = handler;
  }

  unfoldable pub create_default_middleware :
      (now : ℕ) (remote_address : String) → List (Definition (Handler Limited))
  unfolding ip_limiter identity_limiter tracker error_logger
  create_default_middleware now remote_address =
      entry before parsing (ip_limiter now remote_address)
      ∷ entry after parsing (identity_limiter now)
      ∷ entry after signature_verification tracker
      ∷ entry after trust_verification tracker
      ∷ entry after on_artifact tracker
      ∷ entry before on_error error_logger
      ∷ []
