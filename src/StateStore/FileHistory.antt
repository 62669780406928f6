-- ===== src/StateStore/FileHistory.antt =====
-- Histories of calls of data/state_store.py: files are never deleted, and their statuses move along
-- ALLOWED_FILE_TRANSITIONS of data/manifest.py.
use binance_algo.Base.{
  ℕ, String, Bool, true, false, Option, none, some, List, [], ◌∷◌, ◌≡◌, inl, inr, refl, arith,
  eq_iff, if◌then◌else◌, Option-cases,
}
use binance_algo.StateStore.Files.{
  validation_refused, find_file, has_file_id, register_data_file, same_file, transitioned,
  transition_data_file, validate_stream_file_with_checkpoint, upsert_stream_checkpoint,
}
use binance_algo.StateStore.FileMachine.{FileMove-iff, FileMove, find_file-update}
use binance_algo.Table.Laws.{select-insert_or_ignore}
use binance_algo.Manifest.{DataFileRecord, DataFileStatus, validated, allowed_file_transition}
use binance_algo.StateStore.Schema.{StateDb}
use binance_algo.StateStore.Jobs.{
  create_backfill_job, transition_backfill_job, register_schema_version, register_quality_result,
}
use binance_algo.StateStore.Ops.{
  StoreCall, register_file, transition_file, validate_file, call, run,
}
use mathlib.Core.Option

-- A file that was there is there still, and its status has stayed or moved once.
abbrev pub Follows : Option DataFileRecord → Option DataFileRecord → Type 0
Follows none after = Unit
Follows (some r) none = ⊥
Follows (some r) (some r') = FileMove r.status r'.status

Follows-refl : (o : Option DataFileRecord) → Follows o o
Follows-refl none = tt
Follows-refl (some r) = inl refl

Follows-update :
    (b : Bool) (s : DataFileStatus) (c : Option String) (n : Option ℕ) (e : Option String) (now : ℕ)
    (o : Option DataFileRecord)
    → (b ≡ true → (r : DataFileRecord) → o ≡ some r → FileMove r.status s)
    → Follows o (if b then Option.map (transitioned s c n e now) o else o)
Follows-update true s c n e now none h = tt
Follows-update true s c n e now (some r) h = h refl r refl
Follows-update false s c n e now o h = Follows-refl o

register-Follows :
    (r : DataFileRecord) (j : String) (db : StateDb)
    → Follows (find_file j db) (find_file j (register_data_file r db).1)
unfolding register_data_file
register-Follows r j db =
    ground (arith, select-insert_or_ignore (has_file_id j) same_file r db.data_files)

transition-Follows :
    (k : String) (s : DataFileStatus) (c : Option String) (n : Option ℕ) (e : Option String)
    (now : ℕ) (j : String) (db : StateDb)
    → Follows (find_file j db) (find_file j (transition_data_file k s c n e now db).1)
unfolding transition_data_file
transition-Follows k s c n e now j db = elim (Option-cases (find_file k db)) [
  | inl unknown ↦ ground (arith, Follows-refl (find_file j db))
  | inr (r, found) ↦ ground (
    arith,
    eq_iff k j,
    (FileMove-iff r.status s).0,
    Follows-refl (find_file j db),
    find_file-update k j s c n e now db.data_files,
  )
]

validate-Follows :
    (k c : String) (n : ℕ) (sk json : String) (now later : ℕ) (j : String) (db : StateDb)
    → Follows
        (find_file j db)
        (find_file j (validate_stream_file_with_checkpoint k c n sk json now later db).1)
unfolding validate_stream_file_with_checkpoint validation_refused allowed_file_transition
validate-Follows k c n sk json now later j db =
    ground
      (arith, eq_iff k j, find_file-update k j validated (some c) (some n) none now db.data_files)

module _ (sha256 : List String → String) where
  pub call-Follows :
      (c : StoreCall) (j : String) (db : StateDb)
      → Follows (find_file j db) (find_file j (call sha256 c db))
  unfolding call upsert_stream_checkpoint create_backfill_job transition_backfill_job
      register_schema_version register_quality_result
  call-Follows (register_file r) j db = register-Follows r j db
  call-Follows (transition_file k s c n e now) j db = transition-Follows k s c n e now j db
  call-Follows (validate_file k c n sk json now later) j db =
      validate-Follows k c n sk json now later j db
  call-Follows _ j db = ground (arith, Follows-refl (find_file j db))

-- Zero or more moves of the table of transitions.
pub data FilePath : DataFileStatus → DataFileStatus → Type 0 where
  here : {s : DataFileStatus} → FilePath s s
  next : {s t u : DataFileStatus} → FileMove s t → FilePath t u → FilePath s u

moved :
    (r : DataFileRecord) (o : Option DataFileRecord)
    → Follows (some r) o
    → (t : DataFileRecord) × (o ≡ some t) × FileMove r.status t.status
moved r none h = elim h [ ]
moved r (some t) h = (t, refl, h)

module _ (sha256 : List String → String) where
  -- Whatever is called, and whichever calls raise: a file that is registered stays registered, and
  -- its status goes only along the table of transitions.
  pub run-FilePath :
      (calls : List StoreCall) (db : StateDb) (k : String) {r : DataFileRecord}
      → find_file k db ≡ some r
      → (r' : DataFileRecord) × (find_file k (run sha256 calls db) ≡ some r')
        × FilePath r.status r'.status
  unfolding run
  run-FilePath [] db k {r} found = (r, found, here)
  run-FilePath (c ∷ cs) db k {r} found =
      let (t, e, move) = moved r _ (rw found at (call-Follows sha256 c k db)) in
      let (r', e', path) = run-FilePath cs (call sha256 c db) k e in (r', e', next move path)
