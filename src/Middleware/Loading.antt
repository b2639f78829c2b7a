-- ===== src/Middleware/Loading.antt =====
-- Loading a middleware file into the manager, and what the server reads from it.
use Prim.Native.String
use btps_sdk.Prelude.{
  ℕ, ◌≡◌, ◌≢◌, ◌⊎◌, inl, inr, refl, ap, String, true, Option, none, some, List, filter, All,
  All-filter_test, or_else, if◌then◌else◌, ◌==◌,
}
use btps_sdk.Errors.{plain, Thrown, exception, error, other}
use btps_sdk.Effects.{Outcome, returned, thrown, Act, throw}
use btps_sdk.Middleware.{
  Phase, Step, Definition, RawValue, valid_middleware, sort, validate_and_sort, is_for,
}
use btps_sdk.Middleware.Order.{IsSorted, sort-IsSorted, filter-IsSorted, ranked, ranked-filter-sort}

-- The lifecycle hooks that a module gives; a hook's effect is the type `K`.
pub record Hooks (K : Type 0) : Type 0 where
  pub on_server_start : Option K
  pub on_server_stop : Option K
  pub on_response_sent : Option K

-- What the file's default export returns.
pub data Factory (H K : Type 0) : Type 0 where
  module_of : List (RawValue H) → Hooks K → Factory H K
  array : List (RawValue H) → Factory H K
  neither : Factory H K
  fails : Thrown → Factory H K

-- What stands at the middleware path.
pub data MiddlewareFile (H K : Type 0) : Type 0 where
  absent : MiddlewareFile H K
  unloadable : Thrown → MiddlewareFile H K
  no_function : MiddlewareFile H K
  factory : Factory H K → MiddlewareFile H K

pub record Manager (H K : Type 0) : Type 0 where
  pub middleware_path : Option String
  pub middleware : List (Definition H)
  pub hooks : Hooks K

-- The constructor; `cwd` is the process's folder.
unfoldable pub init : {H K : Type 0} → String → Option String → Manager H K
init cwd path = record {
  middleware_path =
      some
        (if or_else path "" == "" then String.◌++◌ cwd "/btps.middleware.mjs" else or_else path "");
  middleware = List.[];
  hooks = record { on_server_start = none; on_server_stop = none; on_response_sent = none };
}

-- The message that a caught value is printed as.
abbrev print_thrown : Thrown → String
print_thrown (exception e) = String.◌++◌ "BTPErrorException: " e.message
print_thrown (error m) = String.◌++◌ "Error: " m
print_thrown (other j) = j

abbrev load_failure : {S A : Type 0} → String → Thrown → Act S A
load_failure path e = throw (
    exception (
      plain (
        String.◌++◌ "Failed to load middleware from "
          (String.◌++◌ path (String.◌++◌ ": " (print_thrown e))))))

abbrev run_hook : {K W : Type 0} → (K → W → W × Outcome (Unit {0})) → Option K → W → W
run_hook run none w = w
run_hook run (some k) w = (run k w).0

module _ {H K : Type 0} where
  -- The body of the `try` block, once the file is there.
  unfoldable pub load_factory : String → Factory H K → Act (Manager H K) (Unit {0})
  load_factory path (module_of vs hooks) m =
      (record m { middleware = validate_and_sort vs; hooks = hooks }, returned tt)
  load_factory path (array vs) m = (record m { middleware = validate_and_sort vs }, returned tt)
  load_factory path neither m =
      load_failure path
        (exception (plain "Middleware function must return an array or MiddlewareModule")) m
  load_factory path (fails e) m = load_failure path e m

  unfoldable pub load_file : String → MiddlewareFile H K → Act (Manager H K) (Unit {0})
  unfolding load_factory
  load_file path absent m = (m, returned tt)
  load_file path (unloadable e) m = load_failure path e m
  load_file path no_function m =
      load_failure path (exception (plain "Middleware file must export a default function")) m
  load_file path (factory f) m = load_factory path f m

  -- `resolve` is the path module's, and `files` what the file system holds.
  abbrev pub load_path :
      (String → String)
      → (String → MiddlewareFile H K)
      → Option String
      → Act (Manager H K) (Unit {0})
  load_path resolve files none m = (m, returned tt)
  load_path resolve files (some path) m =
      if path == "" then (m, returned tt) else load_file (resolve path) (files (resolve path)) m

  unfoldable pub load_middleware :
      (String → String) → (String → MiddlewareFile H K) → Act (Manager H K) (Unit {0})
  unfolding load_file
  load_middleware resolve files m = load_path resolve files m.middleware_path m

  unfoldable pub get_middleware : Phase → Step → Manager H K → List (Definition H)
  get_middleware p s m = filter (is_for p s) m.middleware

  unfoldable pub get_all_middleware : Manager H K → List (Definition H)
  get_all_middleware m = m.middleware

  unfoldable pub get_lifecycle_hooks : Manager H K → Hooks K
  get_lifecycle_hooks m = m.hooks

  -- A hook runs on the state of its surroundings, and what it throws is logged and dropped.
  module _ {W : Type 0} (run : K → W → W × Outcome (Unit {0})) where
    unfoldable pub on_server_start : Manager H K → W → W
    on_server_start m = run_hook run m.hooks.on_server_start

    unfoldable pub on_server_stop : Manager H K → W → W
    on_server_stop m = run_hook run m.hooks.on_server_stop

    unfoldable pub on_response_sent : Manager H K → W → W
    on_response_sent m = run_hook run m.hooks.on_response_sent

  -- The definitions that a file gives, in its order.
  abbrev pub listed : MiddlewareFile H K → List (Definition H)
  listed (factory (module_of vs hooks)) = valid_middleware vs
  listed (factory (array vs)) = valid_middleware vs
  listed _ = List.[]

  -- Loading a file is atomic. Either the file is missing, loading returns and the manager is as it
  -- was; or loading returns and the manager's middleware are the valid and enabled ones that the
  -- file gives, sorted; or loading throws and the manager is as it was.
  pub load_file_cases :
      (path : String) (file : MiddlewareFile H K) (m : Manager H K)
      → ((file ≡ absent) × (load_file path file m ≡ (m, returned tt)))
        ⊎ (((load_file path file m).1 ≡ returned tt)
              × ((load_file path file m).0.middleware ≡ sort (listed file))
            ⊎ ((e : Thrown) × (load_file path file m ≡ (m, thrown e))))
  unfolding load_file validate_and_sort
  load_file_cases path absent m = inl (refl, refl)
  load_file_cases path (unloadable e) m = inr (inr (_, refl))
  load_file_cases path no_function m = inr (inr (_, refl))
  load_file_cases path (factory (module_of vs hooks)) m = inr (inl (refl, refl))
  load_file_cases path (factory (array vs)) m = inr (inl (refl, refl))
  load_file_cases path (factory neither) m = inr (inr (_, refl))
  load_file_cases path (factory (fails e)) m = inr (inr (_, refl))

  loaded :
      (path : String) (file : MiddlewareFile H K) (m : Manager H K)
      → file ≢ absent
      → (load_file path file m).1 ≡ returned tt
      → (load_file path file m).0.middleware ≡ sort (listed file)
  loaded path file m there h = elim (load_file_cases path file m) [
    | inl (gone, _) ↦ absurd (there gone)
    | inr (inl (_, e)) ↦ e
    | inr (inr (e, failed)) ↦ cc (ap (λ r. r.1) failed, h)
  ]

  -- After a file that is there has been loaded without a throw, the middleware selected for a
  -- phase and a step are of that phase and step, come in the order of their priority (none
  -- counting as the largest safe integer), and those of one priority are the valid and enabled
  -- ones of the file, in the file's order.
  pub get_middleware-order :
      (path : String) (file : MiddlewareFile H K) (m : Manager H K) (p : Phase) (s : Step)
      → file ≢ absent
      → (load_file path file m).1 ≡ returned tt
      → All (λ d. is_for p s d ≡ true) (get_middleware p s (load_file path file m).0)
        × IsSorted (get_middleware p s (load_file path file m).0)
        × ((n : ℕ)
            → ranked n (get_middleware p s (load_file path file m).0)
              ≡ ranked n (filter (is_for p s) (listed file)))
  unfolding get_middleware
  get_middleware-order path file m p s there h =
      let e = loaded path file m there h in
      (
        All-filter_test (is_for p s) _,
        rw e (filter-IsSorted (is_for p s) _ (sort-IsSorted (listed file))),
        λ n. rw e (ranked-filter-sort (is_for p s) n (listed file)),
      )
