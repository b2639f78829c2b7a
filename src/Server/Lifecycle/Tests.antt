-- ===== src/Server/Lifecycle/Tests.antt =====
-- A server of src/server/btpsServer.ts that is set up, started and stopped.
use btps_sdk.Prelude.{ℕ, ◌≡◌, refl, String, Bool, true, false, Option, none, some, [], length}
use btps_sdk.Effects.{Outcome, returned}
use btps_sdk.Errors.{Thrown, error}
use btps_sdk.Middleware.Loading
use btps_sdk.Middleware.Loading.{
  MiddlewareFile, unloadable, factory, array, load_file, load_factory, load_middleware,
}
use btps_sdk.Server.Lifecycle.{
  Server, create, for_agent, for_transporter, on_incoming_artifact, forward_to, start, stop,
}
use btps_sdk.Server.Signature.{Processed}
use btps_sdk.Server.World.{Handler}

abbrev listener : Processed → Handler ℕ
listener d q w = record { acts = []; throws = none }

abbrev set_up : Server ℕ
set_up = forward_to listener (
    on_incoming_artifact for_transporter listener (
      on_incoming_artifact for_agent listener
        (on_incoming_artifact for_agent listener (create "/app" none none))))

abbrev run_hook : Unit {0} → ℕ → ℕ × Outcome (Unit {0})
run_hook k n = (n, returned tt)

-- A server that listens already does not listen again.
abbrev listen : ℕ → Bool → Option Thrown
listen port true = some (error "ERR_SERVER_ALREADY_LISTEN")
listen port false = none

abbrev good_file : String → MiddlewareFile (Handler ℕ) (Unit {0})
good_file path = factory (array [])

abbrev bad_file : String → MiddlewareFile (Handler ℕ) (Unit {0})
bad_file path = unloadable (error "Unexpected token")

abbrev started : (Server ℕ × ℕ) × Outcome (Unit {0})
started = start (λ s. s) good_file run_hook listen (set_up, 0)

starts : (started.1 ≡ returned tt) × (started.0.0.listening ≡ true) × (started.0.0.port ≡ 3443)
unfolding start load_file load_factory create on_incoming_artifact forward_to Loading.init
starts = (refl, refl, refl)

registered :
    (length started.0.0.config.agent_listeners ≡ 2)
    × (length started.0.0.config.transporter_listeners ≡ 1)
unfolding start load_file load_factory create on_incoming_artifact forward_to Loading.init
registered = (refl, refl)

-- The listeners are removed, and the handler of `forwardTo` stays.
stopped :
    let s = (stop (λ s. s) good_file run_hook listen started.0).0 in
    (s.listening ≡ false) × (s.config.agent_listeners ≡ []) × (s.config.handler_fn ≡ some listener)
unfolding stop start load_file load_factory create on_incoming_artifact forward_to Loading.init
stopped = (refl, refl, refl)

abbrev failed : (Server ℕ × ℕ) × Outcome (Unit {0})
failed = start (λ s. s) bad_file run_hook listen (set_up, 0)

-- A file that cannot be loaded leaves the server as it was.
unloaded : failed.0 ≡ (set_up, 0)
unfolding start load_file load_factory create on_incoming_artifact forward_to Loading.init
unloaded = refl

abbrev again : (Server ℕ × ℕ) × Outcome (Unit {0})
again = start (λ s. s) good_file run_hook listen started.0
