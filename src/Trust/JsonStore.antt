-- ===== src/Trust/JsonStore.antt =====
-- src/core/trust/storage/JsonTrustStore.ts: trust records in memory, kept in a JSON file. The file is
-- part of the state: its text, and the time of its last change. The disk and JSON are parameters: each
-- call of the disk may throw. A time at which the file is written is an argument. The debounced write
-- is a flag.
pub mod Persistence
pub mod Tests
use btps_sdk.Prelude.{
  ℕ, String, Bool, true, false, not, Option, none, some, List, [], ◌∷◌, ◌==◌, filter, is_some,
  or_else, eqb, if◌then◌else◌,
}
use btps_sdk.Effects.{Outcome, returned, thrown, Act, pure, throw, ◌>>=◌, ◌>>◌}
use btps_sdk.Errors.{Thrown, error}
use btps_sdk.JsMap.{JsMap, get, set, delete, values}
use btps_sdk.Text.{concat}
use btps_sdk.Trust.{TrustRecord, compute_trust_id}
use btps_sdk.Trust.Store.{Patch, merge, TrustStore}

-- What the text of the file stands for: an array of records, or an object with an array for each
-- entity.
pub data Content : Type 0 where
  records_only : List TrustRecord → Content
  by_entity : JsMap (List TrustRecord) → Content

-- The file, which may be missing.
pub record File : Type 0 where
  pub content : Option String
  pub mtime : ℕ

-- JSON, and what the calls of the disk throw, if they do, for the file as it stands: those that
-- create a missing file, those that read it, those that replace it (the lock, `writeFile` and
-- `rename`), `stat`, and the release of the lock. A text that stands for no records does not parse.
pub record Disk : Type 0 where
  pub stringify : Content → String
  pub parse : String → Outcome Content
  pub creating : File → Option Thrown
  pub reading : File → Option Thrown
  pub replacing : File → Option Thrown
  pub noting : File → Option Thrown
  pub releasing : File → Option Thrown

abbrev pub outcome_of : {A : Type 0} → Option Thrown → A → Outcome A
outcome_of none a = returned a
outcome_of (some e) a = thrown e

-- `JsonTrustStore`; `scheduled` says that a debounced write is due.
pub record JsonStore : Type 0 where
  pub record_map : JsMap TrustRecord
  pub dirty : Bool
  pub last_changed_mtime : ℕ
  pub scheduled : Bool
  pub file : File

-- A store that was just constructed.
abbrev pub opened_store : File → JsonStore
opened_store f = record {
  record_map = [];
  dirty = false;
  last_changed_mtime = 0;
  scheduled = false;
  file = f;
}

abbrev pub is_empty : JsMap TrustRecord → Bool
is_empty [] = true
is_empty (e ∷ m) = false

-- The records of the file, in order, in a new map.
unfoldable pub load : List TrustRecord → JsMap TrustRecord → JsMap TrustRecord
load [] m = m
load (r ∷ rs) m = load rs (set r.id r m)

-- `entityName`, where it is not empty; the disk; and the digest.
module _ (entity : Option String) (disk : Disk) (digest : String → String) where
  abbrev pub content_of : List TrustRecord → Content
  content_of rs = elim entity [ none ↦ records_only rs | some name ↦ by_entity ((name, rs) ∷ []) ]

  -- A loop over an object that is no array throws.
  abbrev pub records_in : Option String → Content → Outcome (List TrustRecord)
  records_in none (records_only rs) = returned rs
  records_in none (by_entity m) = thrown (error "records is not iterable")
  records_in (some name) (records_only rs) = returned []
  records_in (some name) (by_entity m) = returned (or_else (get name m) [])

  abbrev pub text_of : List TrustRecord → String
  text_of rs = disk.stringify (content_of rs)

  abbrev pub read_file : File → String → File × Outcome String
  read_file f text = (f, outcome_of (disk.reading f) text)

  -- A missing file is created.
  abbrev pub new_file : ℕ → File → Option Thrown → File × Outcome String
  new_file now f (some e) = (f, thrown e)
  new_file now f none = read_file (record { content = some (text_of []); mtime = now }) (text_of [])

  abbrev pub opened_file : ℕ → File → File × Outcome String
  opened_file now f = elim f.content [
    | none ↦ new_file now f (disk.creating f)
    | some text ↦ read_file f text
  ]

  abbrev pub records_of : Outcome Content → Outcome (List TrustRecord)
  records_of (thrown e) = thrown e
  records_of (returned c) = records_in entity c

  abbrev pub parsed : Outcome String → Outcome (List TrustRecord)
  parsed (thrown e) = thrown e
  parsed (returned text) = records_of (disk.parse text)

  abbrev pub loaded : JsonStore → Outcome (List TrustRecord) → JsonStore × Outcome (Unit {0})
  loaded s (thrown e) = (s, thrown e)
  loaded s (returned rs) = (record s { record_map = load rs [] }, returned tt)

  unfoldable pub init : ℕ → Act JsonStore (Unit {0})
  unfolding load
  init now s =
      let opened = opened_file now s.file in loaded (record s { file = opened.0 }) (parsed opened.1)

  -- The time of the change is read once the file is replaced, and then the lock is released.
  abbrev pub noted : ℕ → JsonStore → Option Thrown → JsonStore × Outcome (Unit {0})
  noted now s (some e) = (s, thrown e)
  noted now s none = (record s { last_changed_mtime = now }, outcome_of (disk.releasing s.file) tt)

  abbrev pub new_text : ℕ → JsonStore → File
  new_text now s = record { content = some (text_of (values s.record_map)); mtime = now }

  abbrev pub written : ℕ → JsonStore → Option Thrown → JsonStore × Outcome (Unit {0})
  written now s (some e) = (s, thrown e)
  written now s none = noted now (record s { file = new_text now s }) (disk.noting (new_text now s))

  -- The store is clean before the lock is taken.
  unfoldable pub write_to_file : ℕ → Act JsonStore (Unit {0})
  write_to_file now s =
      if not s.dirty
      then (s, returned tt)
      else written now (record s { dirty = false }) (disk.replacing s.file)

  abbrev pub clear_records : Act JsonStore (Unit {0})
  clear_records s = pure tt (record s { record_map = [] })

  unfoldable pub flush_and_reload : ℕ → Act JsonStore (Unit {0})
  unfolding init write_to_file
  flush_and_reload now = write_to_file now >> (clear_records >> init now)

  abbrev set_mtime : ℕ → Act JsonStore (Unit {0})
  set_mtime t s = pure tt (record s { last_changed_mtime = t })

  abbrev known_mtime : ℕ → ℕ → Act JsonStore (Unit {0})
  known_mtime now mtime s =
      if eqb mtime s.last_changed_mtime
      then (s, returned tt)
      else (flush_and_reload now >> set_mtime mtime) s

  abbrev stat_file : Act JsonStore ℕ
  stat_file s =
      if is_some s.file.content
      then (s, outcome_of (disk.noting s.file) s.file.mtime)
      else (s, thrown (error "ENOENT"))

  -- The time of the last change is the one that was read before the reload.
  unfoldable pub reload_if_changed : ℕ → Act JsonStore (Unit {0})
  unfolding flush_and_reload
  reload_if_changed now = stat_file >>= known_mtime now

  unfoldable pub init_if_empty : ℕ → Act JsonStore (Unit {0})
  unfolding init
  init_if_empty now s = if is_empty s.record_map then init now s else (s, returned tt)

  abbrev read_record : String → Act JsonStore (Option TrustRecord)
  read_record id s = pure (get id s.record_map) s

  unfoldable pub get_by_id : ℕ → String → Act JsonStore (Option TrustRecord)
  unfolding init_if_empty reload_if_changed
  get_by_id now id = init_if_empty now >> (reload_if_changed now >> read_record id)

  -- A record is written to the map, and a write to the file is due.
  abbrev pub put : String → TrustRecord → Act JsonStore TrustRecord
  put id r s =
      pure r (record s { record_map = set id r s.record_map; dirty = true; scheduled = true })

  abbrev pub create_new : String → TrustRecord → Option TrustRecord → Act JsonStore TrustRecord
  create_new id r none = put id (record r { id = id })
  create_new id r (some found) = throw (
      error (
        concat "Trust record already exists for "
          (concat r.sender_id (concat " → " r.receiver_id))))

  -- The records that are passed to `create` have no id.
  unfoldable pub create : ℕ → TrustRecord → Option String → Act JsonStore TrustRecord
  unfolding get_by_id compute_trust_id
  create now r computed_id =
      let id = or_else computed_id (compute_trust_id digest r.sender_id r.receiver_id) in
      get_by_id now id >>= create_new id r

  abbrev shown : Option String → String
  shown none = "undefined"
  shown (some s) = s

  abbrev pub update_found : String → Patch → Option TrustRecord → Act JsonStore TrustRecord
  update_found id patch none = throw (
      error (
        concat "No trust record found for "
          (concat (shown patch.sender_id) (concat " → " (shown patch.receiver_id)))))
  update_found id patch (some r) = put id (merge r patch)

  unfoldable pub update : ℕ → String → Patch → Act JsonStore TrustRecord
  unfolding get_by_id
  update now id patch = get_by_id now id >>= update_found id patch

  abbrev remove : String → Act JsonStore (Unit {0})
  remove id s =
      if is_some (get id s.record_map)
      then pure tt
          (record s { record_map = delete id s.record_map; dirty = true; scheduled = true })
      else pure tt s

  unfoldable pub delete_record : ℕ → String → Act JsonStore (Unit {0})
  unfolding init_if_empty
  delete_record now id = init_if_empty now >> remove id

  abbrev is_received_by : Option String → TrustRecord → Bool
  is_received_by none r = true
  is_received_by (some id) r = if id == "" then true else r.receiver_id == id

  abbrev read_all : Option String → Act JsonStore (List TrustRecord)
  read_all receiver_id s = pure (filter (is_received_by receiver_id) (values s.record_map)) s

  unfoldable pub get_all : ℕ → Option String → Act JsonStore (List TrustRecord)
  unfolding init_if_empty reload_if_changed filter
  get_all now receiver_id = init_if_empty now >> (reload_if_changed now >> read_all receiver_id)

  unfoldable pub flush_now : ℕ → Act JsonStore (Unit {0})
  unfolding write_to_file
  flush_now now = write_to_file now

  -- The debounced write, where one is due.
  unfoldable pub on_debounce : ℕ → Act JsonStore (Unit {0})
  unfolding write_to_file
  on_debounce now s =
      if s.scheduled then write_to_file now (record s { scheduled = false }) else (s, returned tt)

  -- The store as the other parts use it, at one time.
  abbrev pub json_trust_store : ℕ → TrustStore
  json_trust_store now = record {
    State = JsonStore;
    get_by_id = get_by_id now;
    create = create now;
    update = update now;
  }
