-- ===== src/Trust/JsonStore/Tests.antt =====
-- A store of src/core/trust/storage/JsonTrustStore.ts at concrete inputs, and the theorems at them.
use btps_sdk.Prelude.{◌≡◌, refl, String, true, false, none, some, [], ◌∷◌, ◌==◌, map, if◌then◌else◌}
use btps_sdk.Effects.{Outcome, returned, thrown}
use btps_sdk.Errors.{error}
use btps_sdk.JsMap
use btps_sdk.Samples.{trust}
use btps_sdk.Text.{concat, join}
use btps_sdk.Trust.{accepted, TrustRecord}
use btps_sdk.Trust.JsonStore.{
  JsonStore, Disk, Content, records_only, by_entity, init, init_if_empty, load, write_to_file,
  flush_and_reload, reload_if_changed, get_by_id, create,
}
use btps_sdk.Trust.JsonStore.Persistence.{
  flush_and_reload-saved, write_to_file-lost, saved, dropped,
}

store_runs : Unit {0}
unfolding init init_if_empty load write_to_file flush_and_reload reload_if_changed get_by_id create
    JsMap.get JsMap.set join
store_runs = tt

abbrev digest : String → String
digest s = s

abbrev record_of : String → TrustRecord
record_of id = record (trust accepted) { id = id }

-- The texts of the tests.
abbrev text : Content → String
text (records_only rs) = join "," (map (λ r. r.id) rs)
text (by_entity m) = concat "of " (join "," (map (λ e. e.0) m))

abbrev content : String → Outcome Content
content s =
    if s == "x"
    then returned (records_only (record_of "x" ∷ []))
    else if s == "x,y"
    then returned (records_only (record_of "x" ∷ record_of "y" ∷ []))
    else if s == "of a"
    then returned (by_entity (("a", []) ∷ []))
    else thrown (error "Unexpected token")

abbrev disk : Disk
disk = record {
  stringify = text;
  parse = content;
  creating = λ f. none;
  reading = λ f. none;
  replacing = λ f. none;
  noting = λ f. none;
  releasing = λ f. none;
}

abbrev locked : Disk
locked = record disk { replacing = λ f. some (error "ELOCKED") }

abbrev changed : JsonStore
changed = record {
  record_map = ("x", record_of "x") ∷ ("y", record_of "y") ∷ [];
  dirty = true;
  last_changed_mtime = 5;
  scheduled = true;
  file = record { content = some "x"; mtime = 5 };
}

-- The file of two entities holds only the one that was written last.
two_entities :
    (flush_and_reload
      (some "a")
      disk
      digest
      7
      (record changed { file = record { content = some "of a,b"; mtime = 5 } })).0.file.content
    ≡ some "of a"
unfolding store_runs
two_entities = refl

-- A reload after an external change keeps the time of the old file, so the next read reloads again.
reload_twice :
    (reload_if_changed none disk digest 7
      (record changed { file = record { content = some "x"; mtime = 6 } })).0.last_changed_mtime
    ≡ 6
unfolding store_runs
reload_twice = refl

-- A file that is no JSON leaves the store without its records.
unreadable :
    (flush_and_reload none disk digest 7
      (record changed { dirty = false; file = record { content = some "{"; mtime = 6 } }))
    ≡ (
      record changed {
        record_map = [];
        dirty = false;
        file = record { content = some "{"; mtime = 6 };
      },
      thrown (error "Unexpected token"),
    )
unfolding store_runs
unreadable = refl

flush_and_reload-saved_example :
    flush_and_reload none disk digest 7 changed ≡ (saved none disk digest 7 changed, returned tt)
unfolding store_runs
flush_and_reload-saved_example =
    flush_and_reload-saved none disk digest 7 changed refl refl refl refl refl refl
      ((refl, tt), (tt, tt)) (refl, (refl, tt))

write_to_file-lost_example :
    (write_to_file none locked digest 7 changed
      ≡ (dropped none locked digest changed, thrown (error "ELOCKED")))
    × (write_to_file none locked digest 8 (write_to_file none locked digest 7 changed).0
        ≡ (dropped none locked digest changed, returned tt))
    × (flush_and_reload none locked digest 8 (write_to_file none locked digest 7 changed).0 ≡ (
      record (dropped none locked digest changed) { record_map = load (record_of "x" ∷ []) [] },
      returned tt,
    ))
unfolding store_runs
write_to_file-lost_example =
    write_to_file-lost none locked digest 7 8 changed (error "ELOCKED") "x"
      (records_only (record_of "x" ∷ [])) (record_of "x" ∷ []) refl refl refl refl refl refl
