-- ===== src/Queue/Tests.antt =====
-- The queue at two messages.
use btps_sdk.Prelude.{String, [], ◌∷◌}
use btps_sdk.Json.{Fields, str, field, end}
use btps_sdk.Queue.{Queues}

abbrev letter : String → Fields
letter id = field "id" (str id) (field "from" (str "a$x.com") (field "to" (str "b$y.com") end))

abbrev queue : Queues
queue = ("b$y.com", letter "1" ∷ letter "2" ∷ []) ∷ ("agent", letter "1" ∷ []) ∷ []
