-- ===== src/Queue.antt =====
-- src/core/server/helpers/InMemoryQueue.ts: the messages of each identity, in order. The keys of the
-- object `queues` are identities and agent ids, none of them a number, so they stay in the order
-- in which they came.
pub mod Laws
mod Tests
use btps_sdk.Prelude.{
  String, Bool, true, false, ◌&&◌, not, Option, none, some, List, [], ◌∷◌, ◌++◌, ◌==◌, is_some,
  or_else, filter, if◌then◌else◌,
}
use btps_sdk.JsMap.{JsMap, get, set}
use btps_sdk.Json.{Fields, get_field, text_at}

abbrev pub Queues : Type 0
Queues = JsMap (List Fields)

unfoldable pub key_of : Fields → String
key_of message =
    if is_some (get_field "to" message) && is_some (get_field "from" message)
    then text_at "to" message
    else text_at "agentId" message

-- `add`, without its event.
unfoldable pub add : Fields → Queues → Queues
unfolding key_of
add message q = set (key_of message) (or_else (get (key_of message) q) [] ++ message ∷ []) q

-- `Object.values(queues).flat()`
unfoldable pub flat : Queues → List Fields
flat [] = []
flat ((k, ms) ∷ q) = ms ++ flat q

-- An empty identity counts as none.
unfoldable pub get_pending : Option String → Queues → List Fields
unfolding flat
get_pending none q = flat q
get_pending (some identity) q = if identity == "" then flat q else or_else (get identity q) []

abbrev pub has_other_id : String → Fields → Bool
has_other_id id message = not (text_at "id" message == id)

unfoldable pub mark_handled : String → Queues → Queues
mark_handled id [] = []
mark_handled id ((k, ms) ∷ q) = (k, filter (has_other_id id) ms) ∷ mark_handled id q
