-- ===== src/StateStore/FileMachine.antt =====
-- What the file methods of data/state_store.py do to the statuses of the files.
use binance_algo.Base.{
  ◌↔◌, ℕ, String, true, false, Option, none, some, List, ◌≡◌, ◌⊎◌, inl, inr, refl, arith, str_eq,
  eq_iff, eq_refl, if◌then◌else◌, ok, err,
}
use binance_algo.Table.{select, update}
use binance_algo.Table.Laws.{select-update_key}
use binance_algo.Manifest.{DataFileRecord, DataFileStatus, file_status_eq, allowed_file_transition}
use binance_algo.StateStore.Schema.{StateDb, invalid_file_transition, unknown_data_file}
use binance_algo.StateStore.Files.{
  file_move_refused, has_file_id, find_file, transitioned, data_file_from_row, transition_data_file,
}
use mathlib.Core.Option

abbrev pub given_or : {A : Type 0} → Option A → Option A → Option A
given_or none old = old
given_or (some x) old = some x

-- The record that a transition is to leave, field by field: what is not given stays.
abbrev pub moved_file :
    DataFileStatus → Option String → Option ℕ → Option String → ℕ → DataFileRecord → DataFileRecord
moved_file s c n e now r = record {
  file_id = r.file_id;
  logical_dataset = r.logical_dataset;
  layer = r.layer;
  source = r.source;
  symbol = r.symbol;
  interval = r.interval;
  start_time_ms = r.start_time_ms;
  end_time_ms = r.end_time_ms;
  row_count = given_or n r.row_count;
  schema_version = r.schema_version;
  checksum = given_or c r.checksum;
  path = r.path;
  status = s;
  created_at_ms = r.created_at_ms;
  updated_at_ms = now;
  ingestion_run_id = r.ingestion_run_id;
  parent_file_ids_json = r.parent_file_ids_json;
  last_error = e;
}

-- The same status, or a move of the table of transitions.
abbrev pub FileMove : DataFileStatus → DataFileStatus → Type 0
FileMove s t = (t ≡ s) ⊎ (allowed_file_transition s t ≡ true)

pub status_eq_iff : (s t : DataFileStatus) → file_status_eq s t ≡ true → s ≡ t
status_eq_iff s t e = ground arith

file_id_of : DataFileRecord → String
file_id_of r = r.file_id

pub find_file-update :
    (k j : String) (s : DataFileStatus) (c : Option String) (n : Option ℕ) (e : Option String)
    (now : ℕ) (rs : List DataFileRecord)
    → select (has_file_id j) (update (has_file_id k) (transitioned s c n e now) rs) ≡ (
        if str_eq k j
        then Option.map (transitioned s c n e now) (select (has_file_id j) rs)
        else select (has_file_id j) rs)
find_file-update k j s c n e now rs =
    select-update_key (λ (r : DataFileRecord). r.file_id) k j (transitioned s c n e now) rs
      (λ r. refl)

pub FileMove-iff : (s t : DataFileStatus) → (file_move_refused s t ≡ false) ↔ FileMove s t
unfolding file_move_refused
FileMove-iff s t = (λ h. ground arith, moves)
  where
    moves : FileMove s t → file_move_refused s t ≡ false
    moves (inl same) = ground arith
    moves (inr allowed) = ground arith

module _ (k : String) (s : DataFileStatus) (c : Option String) (n : Option ℕ) (e : Option String)
    (now : ℕ) (db : StateDb) where
  -- The state after a permitted transition.
  abbrev pub after_transition : StateDb
  after_transition = record db {
    data_files = update (has_file_id k) (transitioned s c n e now) db.data_files;
  }

  pub permitted_transition :
      {r : DataFileRecord}
      → find_file k db ≡ some r
      → FileMove r.status s
      → transition_data_file k s c n e now db
        ≡ (ok (data_file_from_row (transitioned s c n e now r)), after_transition)
  unfolding transition_data_file
  permitted_transition {r} found move = ground (
    arith,
    eq_refl k,
    (FileMove-iff r.status s).1 move,
    find_file-update k k s c n e now db.data_files,
  )

  -- A transition of a known file to the status that it has, or to one that the table of transitions
  -- allows, returns the record with the new status, the error and the time given, and the checksum
  -- and the row count given or, where none is given, those that it had; afterwards that record is
  -- read back under its id, every other file reads as before, and jobs, checkpoints, quality results and schemas are
  -- as they were.
  pub transition_data_file-permitted :
      {r : DataFileRecord}
      → find_file k db ≡ some r
      → FileMove r.status s
      → let (result, after) = transition_data_file k s c n e now db in
        (result ≡ ok (data_file_from_row (moved_file s c n e now r)))
        × ((j : String)
            → find_file j after
              ≡ (if str_eq k j then some (moved_file s c n e now r) else find_file j db))
        × (after.backfill_jobs ≡ db.backfill_jobs)
        × (after.stream_checkpoints ≡ db.stream_checkpoints)
        × (after.quality_results ≡ db.quality_results)
        × (after.schema_versions ≡ db.schema_versions)
  transition_data_file-permitted {r} found move = rw (permitted_transition found move) (
    refl,
    λ j. ground (arith, eq_iff k j, find_file-update k j s c n e now db.data_files),
    refl,
    refl,
    refl,
    refl,
  )

  -- Any other transition of a known file raises `InvalidStateTransition` with both statuses, and
  -- one of an unknown file raises `StateStoreError`; the database stays as it was.
  pub transition_data_file-refused :
      ((r : DataFileRecord)
        → find_file k db ≡ some r
        → ¬ FileMove r.status s
        → transition_data_file k s c n e now db ≡ (err (invalid_file_transition k r.status s), db))
      × (find_file k db ≡ none
          → transition_data_file k s c n e now db ≡ (err (unknown_data_file k), db))
  unfolding transition_data_file
  transition_data_file-refused = (
    λ r found bad.
        ground (
          arith,
          λ (h : file_move_refused r.status s ≡ false). bad ((FileMove-iff r.status s).0 h),
        ),
    λ missing. ground arith,
  )
