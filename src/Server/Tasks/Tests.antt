-- ===== src/Server/Tasks/Tests.antt =====
-- Two lines of a connection that overlap (src/server/btpsServer.ts), and the theorems on overlapping
-- lines at inputs that exercise the code.
use btps_sdk.Prelude.{
  ℕ, zero, suc, ◌≤◌, ◌≡◌, refl, true, Option, List, [], ◌∷◌, ◌++◌, All, length, filter, map,
}
use btps_sdk.Crypto.{verify_signature, get_fingerprint_from_pem}
use btps_sdk.Json
use btps_sdk.Middleware.Loading.{get_middleware}
use btps_sdk.Samples.{platform, store, surroundings, config, json_parse, opened}
use btps_sdk.Server.Checked.{IsChecked, delivered}
use btps_sdk.Server.Connection
use btps_sdk.Server.Connection.{ConnectionEvent, line, run_connection}
use btps_sdk.Server.Signature
use btps_sdk.Server.Tasks
use btps_sdk.Server.Tasks.Answered.{run_choices-IsClosed}
use btps_sdk.Server.Tasks.Connection.{Choice, arrive, resume, arrivals, run_choices}
use btps_sdk.Server.Tasks.Overlapping.{run_choices-IsChecked, run_choices-IsSingle}
use btps_sdk.Server.Tasks.Refinement.{IsSchedule, run_connection-IsSchedule}
use btps_sdk.Server.Tasks.Schedule.{Proc, finished, left, right, is_idle, advance}
use btps_sdk.Server.TrustCheck
use btps_sdk.Server.World
use btps_sdk.Server.World.{World}
use btps_sdk.Text
use btps_sdk.Trust.{TrustRecord, is_trust_active}

overlap : Unit {0}
unfolding run_choices Tasks.Connection.choose Tasks.Connection.event_task Tasks.Connection.line_task
    Tasks.Connection.parsed_task Tasks.Pipeline.pipeline_task Tasks.Pipeline.check_signature_task
    Tasks.Pipeline.after_signature_task Tasks.Pipeline.check_trust_task
    Tasks.Pipeline.after_trust_task Tasks.Pipeline.deliver_task Tasks.Pipeline.process_task
    Tasks.Pipeline.forward_task Tasks.Pipeline.emit_task Tasks.Pipeline.emit_awaited_task
    Tasks.Pipeline.error_task Tasks.Pipeline.middleware_task Tasks.Pipeline.handler_task
    Tasks.Pipeline.acts_task advance Connection.parse_and_validate Connection.includes
    Connection.is_immediate_action Connection.is_btps_transport_artifact Signature.resolve_key
    Signature.get_agent_public_key Signature.verify_agent_signature
    Signature.verify_message_signature TrustCheck.verify_agent_trust TrustCheck.verify_trust
    World.send_btps_response World.send_throws World.act_step World.prepare_btps_response
    World.send_btps_error World.perform verify_signature get_fingerprint_from_pem get_middleware
    is_trust_active Json.get_field Json.set_field Json.without Text.trim Text.trim_start
    Text.trim_end Text.is_space Text.ends_with filter
overlap = tt

-- A turn of the first line, and one of the second.
abbrev round : List Choice
round = resume (left ∷ right ∷ []) ∷ resume (right ∷ []) ∷ []

abbrev rounds : ℕ → List Choice
rounds zero = []
rounds (suc n) = round ++ rounds n

abbrev choices : List Choice
choices = arrive 50 (line "good") ∷ arrive 60 (line "good") ∷ rounds 30

abbrev run_of : List Choice → Proc (Option TrustRecord) × World (Option TrustRecord)
run_of cs =
    run_choices json_parse (λ j. true) platform store surroundings config cs (finished, opened)

-- Both messages are delivered, and one is answered.
both_done : is_idle (run_of choices).0 ≡ true
unfolding overlap
both_done = refl

both_delivered : length (delivered (run_of choices).1.log) ≡ 2
unfolding overlap
both_delivered = refl

one_answered : map (λ r. r.code) (run_of choices).1.written ≡ 200 ∷ []
unfolding overlap
one_answered = refl

run_choices-IsChecked_example : All (IsChecked platform store) (delivered (run_of choices).1.log)
run_choices-IsChecked_example =
    run_choices-IsChecked json_parse (λ j. true) platform store surroundings config choices opened
      refl

run_choices-IsSingle_example :
    (length (run_of choices).1.written ≤ 1)
    × All (λ r. surroundings.conforms r ≡ true) (run_of choices).1.written
run_choices-IsSingle_example =
    run_choices-IsSingle json_parse (λ j. true) platform store surroundings config choices opened
      refl

abbrev events : List (ℕ × ConnectionEvent)
events = (50, line "good") ∷ (60, line "forged") ∷ []

run_connection-IsSchedule_example :
    IsSchedule json_parse
      (λ j. true)
      platform
      store
      surroundings
      config
      events
      (finished, opened)
      (run_connection json_parse (λ j. true) platform store surroundings config events opened)
run_connection-IsSchedule_example =
    run_connection-IsSchedule json_parse (λ j. true) platform store surroundings config events
      opened

run_choices-IsClosed_example : World.is_closed (run_of choices).1.socket ≡ true
unfolding overlap
run_choices-IsClosed_example =
    run_choices-IsClosed json_parse (λ j. true) platform store surroundings config choices opened
      refl (λ e. refl) refl refl

-- A run that the event loop left in the middle.
abbrev unfinished : List Choice
unfinished = arrive 50 (line "good") ∷ arrive 60 (line "forged") ∷ rounds 2
