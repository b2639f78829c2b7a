-- ===== src/Server/Lifecycle.antt =====
-- The constructor, `start`, `stop`, `onIncomingArtifact` and `forwardTo` of src/server/btpsServer.ts:
-- how the configuration of the connections comes about. The TLS server is whether it listens, and
-- what its `listen` throws at once, if it does, is a parameter.
mod Tests
use btps_sdk.Prelude.{
  ℕ, ◌≡◌, String, Bool, true, false, Option, none, some, List, [], ◌∷◌, ◌++◌, or_else, Option-cases,
}
use btps_sdk.Effects
use btps_sdk.Effects.{Outcome, returned, thrown}
use btps_sdk.Errors.{Thrown}
use btps_sdk.Middleware.Loading
use btps_sdk.Middleware.Loading.{
  Manager, MiddlewareFile, absent, load_middleware, on_server_start, on_server_stop,
}
use btps_sdk.Server.Pipeline.{Config}
use btps_sdk.Server.Signature.{Processed}
use btps_sdk.Server.World.{Handler}

pub record Server (S : Type 0) : Type 0 where
  pub port : ℕ
  pub listening : Bool
  pub config : Config S

-- `type` of `onIncomingArtifact`.
pub data ArtifactType : Type 0 where
  for_agent for_transporter : ArtifactType

module _ {S : Type 0} where
  -- The constructor; `cwd` is the process's folder.
  unfoldable pub create :
      (cwd : String) (port : Option ℕ) (middleware_path : Option String) → Server S
  create cwd port middleware_path = record {
    port = or_else port 3443;
    listening = false;
    config = record {
      manager = Loading.init cwd middleware_path;
      agent_listeners = [];
      transporter_listeners = [];
      handler_fn = none;
    };
  }

  abbrev pub with_config : (Config S → Config S) → Server S → Server S
  with_config f s = record s { config = f s.config }

  unfoldable pub on_incoming_artifact : ArtifactType → (Processed → Handler S) → Server S → Server S
  on_incoming_artifact for_agent l =
      with_config (λ c. record c { agent_listeners = c.agent_listeners ++ l ∷ [] })
  on_incoming_artifact for_transporter l =
      with_config (λ c. record c { transporter_listeners = c.transporter_listeners ++ l ∷ [] })

  unfoldable pub forward_to : (Processed → Handler S) → Server S → Server S
  forward_to f = with_config (λ c. record c { handler_fn = some f })

  -- `resolve` and `files` are those of the loading, `run` is what a hook does, and `listen` what the
  -- TLS server's `listen` throws at once for a port, given whether the server listens already.
  module _ {W : Type 0} (resolve : String → String)
      (files : String → MiddlewareFile (Handler S) (Unit {0}))
      (run : Unit {0} → W → W × Outcome (Unit {0}))
      (listen : (port : ℕ) (listening : Bool) → Option Thrown) where
    abbrev pub with_manager : Manager (Handler S) (Unit {0}) → Server S → Server S
    with_manager m = with_config (λ c. record c { manager = m })

    -- `this.server.listen(this.port)`
    abbrev pub listened : Option Thrown → Server S × W → (Server S × W) × Outcome (Unit {0})
    listened none (s, w) = ((record s { listening = true }, w), returned tt)
    listened (some e) (s, w) = ((s, w), thrown e)

    abbrev pub initialized :
        Server S
        → W
        → Manager (Handler S) (Unit {0}) × Outcome (Unit {0})
        → (Server S × W) × Outcome (Unit {0})
    initialized s w (m, thrown e) = ((with_manager m s, w), thrown e)
    initialized s w (m, returned t) =
        listened (listen s.port s.listening) (with_manager m s, on_server_start run m w)

    unfoldable pub start : Effects.Act (Server S × W) (Unit {0})
    unfolding load_middleware on_server_start
    start (s, w) = initialized s w (load_middleware resolve files s.config.manager)

    unfoldable pub stop : Server S × W → Server S × W
    unfolding on_server_stop
    stop (s, w) = (
      record (with_config (λ c. record c { agent_listeners = []; transporter_listeners = [] }) s) {
        listening = false;
      },
      on_server_stop run s.config.manager w,
    )

module _ {S W : Type 0} (resolve : String → String)
    (files : String → MiddlewareFile (Handler S) (Unit {0}))
    (run : Unit {0} → W → W × Outcome (Unit {0}))
    (listen : (port : ℕ) (listening : Bool) → Option Thrown) where
  -- The middleware were loaded as `m` and the hooks of the start have run, but the TLS server did not
  -- start to listen.
  abbrev pub IsUnheard : Server S → W → Thrown → Server S × W → Type 0
  IsUnheard s w e r =
      (m : Manager (Handler S) (Unit {0})) × (load_middleware resolve files s.config.manager
        ≡ (m, returned tt))
      × (listen s.port s.listening ≡ some e)
      × (r ≡ (with_manager resolve files run listen m s, on_server_start run m w))
