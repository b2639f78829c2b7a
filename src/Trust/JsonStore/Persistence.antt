-- ===== src/Trust/JsonStore/Persistence.antt =====
-- src/core/trust/storage/JsonTrustStore.ts: what the file keeps of the records.
use mathlib.Core.List.{append-nil, append_assoc}
use btps_sdk.Prelude.{
  ℕ, ◌≡◌, refl, ap, sym, ◌∙◌, String, true, false, not, Option, none, some, List, [], ◌∷◌, ◌++◌,
  ◌==◌, eq_iff, eq_refl, All, arith, if◌then◌else◌,
}
use btps_sdk.Effects.{Outcome, returned, thrown, then_run, ◌>>◌}
use btps_sdk.Errors.{Thrown}
use btps_sdk.JsMap.{JsMap, get, set, values}
use btps_sdk.JsMap.Laws.{HasUniqueKeys, IsFresh}
use btps_sdk.Trust.{TrustRecord}
use btps_sdk.Trust.JsonStore.{
  JsonStore, File, Disk, Content, opened_file, new_file, read_file, load, content_of, text_of,
  new_text, records_in, records_of, parsed, outcome_of, init, clear_records, loaded, noted, written,
  write_to_file, flush_and_reload,
}

-- Each record stands under its own id.
abbrev pub IsKeyed : JsMap TrustRecord → Type 0
IsKeyed m = All (λ e. e.1.id ≡ e.0) m

-- No key of the one map is in the other.
abbrev IsApart : JsMap TrustRecord → JsMap TrustRecord → Type 0
IsApart acc m = All (λ e. get e.0 acc ≡ none) m

set-absent :
    (k : String) (r : TrustRecord) (m : JsMap TrustRecord)
    → get k m ≡ none
    → set k r m ≡ m ++ (k, r) ∷ []
unfolding get set
set-absent k r [] h = refl
set-absent k r ((j, s) ∷ m) h = ground (arith, set-absent k r m)

get-append_absent :
    (j k : String) (r : TrustRecord) (acc : JsMap TrustRecord)
    → get j acc ≡ none
    → (k == j) ≡ false
    → get j (acc ++ (k, r) ∷ []) ≡ none
unfolding get
get-append_absent j k r [] h ne = rw ne refl
get-append_absent j k r ((i, s) ∷ acc) h ne = ground (arith, get-append_absent j k r acc)

IsApart-append :
    (k : String) (r : TrustRecord) (acc m : JsMap TrustRecord)
    → IsApart acc m
    → IsFresh k m
    → IsApart (acc ++ (k, r) ∷ []) m
IsApart-append k r acc [] a f = tt
IsApart-append k r acc ((j, s) ∷ m) (a, rest) (f, fs) = (
  get-append_absent j k r acc a (ground (arith, eq_iff j k, eq_iff k j)),
  IsApart-append k r acc m rest fs,
)

load-values :
    (acc m : JsMap TrustRecord)
    → HasUniqueKeys m
    → IsKeyed m
    → IsApart acc m
    → load (values m) acc ≡ acc ++ m
unfolding load
load-values acc [] u k a = sym (append-nil acc)
load-values acc ((j, r) ∷ m) (u, us) (k, ks) (a, rest) =
    ap (load (values m)) (ap (λ i. set i r acc) k ∙ set-absent j r acc a)
    ∙ load-values (acc ++ (j, r) ∷ []) m us ks (IsApart-append j r acc m rest u)
    ∙ append_assoc acc ((j, r) ∷ []) m

IsApart-empty : (m : JsMap TrustRecord) → IsApart [] m
unfolding get
IsApart-empty [] = tt
IsApart-empty (e ∷ m) = (refl, IsApart-empty m)

records_in-content_of :
    (entity : Option String) (disk : Disk) (digest : String → String) (rs : List TrustRecord)
    → records_in entity disk digest entity (content_of entity disk digest rs) ≡ returned rs
unfolding get
records_in-content_of none disk digest rs = refl
records_in-content_of (some name) disk digest rs = rw (eq_refl name) refl

module _ (entity : Option String) (disk : Disk) (digest : String → String) where
  -- A store that is written.
  abbrev pub saved : ℕ → JsonStore → JsonStore
  saved now s = record s {
    dirty = false;
    last_changed_mtime = now;
    file = new_text entity disk digest now s;
  }

  write_to_file-dirty :
      (now : ℕ) (s : JsonStore) (o : Option Thrown)
      → s.dirty ≡ true
      → disk.replacing s.file ≡ o
      → write_to_file entity disk digest now s
        ≡ written entity disk digest now (record s { dirty = false }) o
  unfolding write_to_file
  write_to_file-dirty now s o d l =
      (λ i.
        if not (d i)
        then (s, returned tt)
        else written entity disk digest now (record s { dirty = false }) (disk.replacing s.file))
      ∙ ap (written entity disk digest now (record s { dirty = false })) l

  write_to_file-saved :
      (now : ℕ) (s : JsonStore)
      → s.dirty ≡ true
      → disk.replacing s.file ≡ none
      → disk.noting (new_text entity disk digest now s) ≡ none
      → disk.releasing (new_text entity disk digest now s) ≡ none
      → write_to_file entity disk digest now s ≡ (saved now s, returned tt)
  write_to_file-saved now s d l n r =
      write_to_file-dirty now s none d l
      ∙ ap
          (noted entity disk digest now
            (record s { dirty = false; file = new_text entity disk digest now s }))
          n
      ∙ ap (λ o. (saved now s, outcome_of o tt)) r

  parsed-text :
      (text : String) (o : Option Thrown) (c : Content)
      → o ≡ none
      → disk.parse text ≡ returned c
      → parsed entity disk digest (outcome_of o text) ≡ records_in entity disk digest entity c
  parsed-text text o c h p =
      ap (λ x. parsed entity disk digest (outcome_of x text)) h
      ∙ ap (records_of entity disk digest) p

  -- A store with a change is flushed and read again. Where no call of the disk throws and the text
  -- that is written parses to what it was made from, it has the same records in the same order, if each
  -- stands under its own id; the file is their text, nothing is left to be written, and the time of
  -- the file's change is known.
  pub flush_and_reload-saved :
      (now : ℕ) (s : JsonStore)
      → s.dirty ≡ true
      → disk.replacing s.file ≡ none
      → disk.noting (new_text entity disk digest now s) ≡ none
      → disk.releasing (new_text entity disk digest now s) ≡ none
      → disk.reading (new_text entity disk digest now s) ≡ none
      → disk.parse (text_of entity disk digest (values s.record_map))
        ≡ returned (content_of entity disk digest (values s.record_map))
      → HasUniqueKeys s.record_map
      → IsKeyed s.record_map
      → flush_and_reload entity disk digest now s ≡ (saved now s, returned tt)
  unfolding flush_and_reload init
  flush_and_reload-saved now s d l n r f p u k =
      ap
        (then_run
          (λ (done : Unit {0}). clear_records entity disk digest >> init entity disk digest now))
        (write_to_file-saved now s d l n r)
      ∙ ap (loaded entity disk digest (record (saved now s) { record_map = [] })) (
          parsed-text (text_of entity disk digest (values s.record_map))
            (disk.reading (new_text entity disk digest now s)) _ f p
          ∙ records_in-content_of entity disk digest (values s.record_map))
      ∙ ap (λ m. (record (saved now s) { record_map = m }, returned tt))
          (load-values [] s.record_map u k (IsApart-empty s.record_map))

  -- The store once a change was lost.
  abbrev pub dropped : JsonStore → JsonStore
  dropped s = record s { dirty = false }

  opened_file-text :
      (now : ℕ) (f : File) (text : String)
      → f.content ≡ some text
      → opened_file entity disk digest now f ≡ read_file entity disk digest f text
  opened_file-text now f text h i = elim (h i) [
    | none ↦ new_file entity disk digest now f (disk.creating f)
    | some t ↦ read_file entity disk digest f t
  ]

  reload-clean :
      (later : ℕ) (s : JsonStore) (text : String) (c : Content) (rs : List TrustRecord)
      → s.file.content ≡ some text
      → disk.reading s.file ≡ none
      → disk.parse text ≡ returned c
      → records_in entity disk digest entity c ≡ returned rs
      → flush_and_reload entity disk digest later (dropped s)
        ≡ (record (dropped s) { record_map = load rs [] }, returned tt)
  unfolding flush_and_reload write_to_file init
  reload-clean later s text c rs h f p r =
      ap
        (λ o.
          loaded entity disk digest (record (dropped s) { record_map = []; file = o.0 })
            (parsed entity disk digest o.1))
        (opened_file-text later s.file text h)
      ∙ ap (loaded entity disk digest (record (dropped s) { record_map = [] }))
          (parsed-text text (disk.reading s.file) c f p ∙ r)

  -- When the file cannot be replaced (its lock, the write or the rename throws), the store takes
  -- itself for clean nevertheless: the file stays as it was, a write that follows with no change in
  -- between writes nothing, and a reload that follows with no change in between, where the file can be
  -- read, leaves the store with the records of the old file only.
  pub write_to_file-lost :
      (now later : ℕ) (s : JsonStore) (e : Thrown) (text : String) (c : Content)
      (rs : List TrustRecord)
      → s.dirty ≡ true
      → disk.replacing s.file ≡ some e
      → s.file.content ≡ some text
      → disk.reading s.file ≡ none
      → disk.parse text ≡ returned c
      → records_in entity disk digest entity c ≡ returned rs
      → (write_to_file entity disk digest now s ≡ (dropped s, thrown e))
        × (write_to_file entity disk digest later (write_to_file entity disk digest now s).0
            ≡ (dropped s, returned tt))
        × (flush_and_reload entity disk digest later (write_to_file entity disk digest now s).0
            ≡ (record (dropped s) { record_map = load rs [] }, returned tt))
  unfolding write_to_file
  write_to_file-lost now later s e text c rs d l h f p r =
      let failed = write_to_file-dirty now s (some e) d l in
      (
        failed,
        ap (λ (x : JsonStore × Outcome (Unit {0})). write_to_file entity disk digest later x.0)
            failed,
        ap (λ (x : JsonStore × Outcome (Unit {0})). flush_and_reload entity disk digest later x.0)
              failed
            ∙ reload-clean later s text c rs h f p r,
      )
