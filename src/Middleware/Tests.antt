-- ===== src/Middleware/Tests.antt =====
-- A middleware file that is loaded, and the theorems at it.
use btps_sdk.Prelude.{ℕ, ◌≡◌, ◌≢◌, refl, String, true, none, some, [], ◌∷◌, filter, map, All}
use btps_sdk.Middleware.{
  before, parsing, RawValue, not_object, object, RawPriority, missing, integer, other,
  validate_definition, valid_middleware, insert, sort, validate_and_sort, is_for,
}
use btps_sdk.Middleware.Order.{IsSorted, ranked}
use btps_sdk.Middleware.Loading.{
  MiddlewareFile, absent, factory, array, Manager, init, load_file, get_middleware, listed,
  get_middleware-order,
}

manager : Unit {0}
unfolding validate_definition valid_middleware validate_and_sort sort insert init load_file
    get_middleware filter
manager = tt

abbrev entry : String → RawPriority → ℕ → RawValue ℕ
entry step priority id = object (record {
  phase = some "before";
  step = some step;
  priority = priority;
  config = none;
  handler = some (3, id);
})

abbrev file : MiddlewareFile ℕ ℕ
file = factory (
    array (
      entry "parsing" missing 1
      ∷ entry "parsing" (integer 5) 2
      ∷ not_object
      ∷ entry "onError" (integer 1) 3
      ∷ entry "parsing" other 4
      ∷ entry "parsing" (integer 5) 5
      ∷ entry "nowhere" missing 6
      ∷ []))

abbrev empty : Manager ℕ ℕ
empty = record {
  middleware_path = some "m.mjs";
  middleware = [];
  hooks = record { on_server_start = none; on_server_stop = none; on_response_sent = none };
}

selected :
    map (λ d. d.handler) (get_middleware before parsing (load_file "m.mjs" file empty).0)
    ≡ 2 ∷ 5 ∷ 1 ∷ []
unfolding manager
selected = refl

file-ne-absent : file ≢ absent
file-ne-absent e = cc e

get_middleware-order_example :
    All
      (λ d. is_for before parsing d ≡ true)
      (get_middleware before parsing (load_file "m.mjs" file empty).0)
    × IsSorted (get_middleware before parsing (load_file "m.mjs" file empty).0)
    × ((n : ℕ)
        → ranked n (get_middleware before parsing (load_file "m.mjs" file empty).0)
          ≡ ranked n (filter (is_for before parsing) (listed file)))
unfolding load_file
get_middleware-order_example =
    get_middleware-order "m.mjs" file empty before parsing file-ne-absent refl
