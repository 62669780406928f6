-- ===== src/StateStore/Writes.antt =====
-- What registration, validation with a checkpoint, schema versions and job transitions of
-- data/state_store.py promise to their callers.
use binance_algo.Base.{
  Option, eq_refl, eq_iff, str_eq, err, if◌then◌else◌, ◌⊎◌, ok, ℕ, String, none, some, List, ◌≡◌,
  ◌≢◌, refl, arith, false,
}
use binance_algo.StateStore.Files.{
  same_file, has_file_id, get_stream_checkpoint, transitioned, data_file_from_row, upserted,
  has_stream_key, find_file, validation_refused, validate_stream_file_with_checkpoint,
  register_data_file,
}
use binance_algo.Table.{update, select}
use binance_algo.StateStore.FileMachine.{moved_file, find_file-update}
use binance_algo.Manifest.{DataFileStatus, validated, downloaded, DataFileRecord}
use binance_algo.Table.Laws.{insert_or_ignore-twice, select-insert_or_ignore, select-update_key}
use binance_algo.StateStore.Integrity.{stream_key_of}
use binance_algo.StateStore.Schema.{
  unknown_data_file, invalid_file_transition, StateDb, CheckpointRow,
}

module _ (k c : String) (n : ℕ) (sk json : String) (now later : ℕ) (db : StateDb) where
  abbrev pub after_validation : StateDb
  after_validation = record db {
    data_files =
        update (has_file_id k) (transitioned validated (some c) (some n) none now) db.data_files;
    stream_checkpoints = upserted sk json later db.stream_checkpoints;
  }

  pub accepted_validation :
      {r : DataFileRecord}
      → find_file k db ≡ some r
      → validation_refused r.status ≡ false
      → validate_stream_file_with_checkpoint k c n sk json now later db ≡ (
        ok (data_file_from_row (transitioned validated (some c) (some n) none now r)),
        after_validation,
      )
  unfolding validate_stream_file_with_checkpoint
  accepted_validation {r} found fits =
      ground
        (arith, eq_refl k, find_file-update k k validated (some c) (some n) none now db.data_files)

accepts : (s : DataFileStatus) → (s ≡ downloaded) ⊎ (s ≡ validated) → validation_refused s ≡ false
unfolding validation_refused
accepts s h = ground arith

abbrev pub checkpoint_of : Option CheckpointRow → Option String
checkpoint_of none = none
checkpoint_of (some c) = some c.checkpoint_json

pub get-upserted :
    (k j json : String) (now : ℕ) (rows : List CheckpointRow)
    → checkpoint_of (select (has_stream_key j) (upserted k json now rows))
      ≡ (if str_eq k j then some json else checkpoint_of (select (has_stream_key j) rows))
get-upserted k j json now rows = ground (
  arith,
  eq_iff k j,
  eq_refl k,
  select-update_key stream_key_of k j
      (λ c. record c { checkpoint_json = json; updated_at_ms = now }) rows (λ r. refl),
  select-insert_or_ignore (has_stream_key j) (λ c d. str_eq d.stream_key c.stream_key)
      (record { stream_key = k; checkpoint_json = json; updated_at_ms = now }) rows,
)

-- A file that is DOWNLOADED or VALIDATED becomes VALIDATED with the checksum and the row count
-- given, and in the same commit the checkpoint of its stream is the one given; files and
-- checkpoints under other keys read as before.
pub validate-visible :
    (k c : String) (n : ℕ) (sk json : String) (now later : ℕ) (db : StateDb) {r : DataFileRecord}
    → find_file k db ≡ some r
    → (r.status ≡ downloaded) ⊎ (r.status ≡ validated)
    → let (result, after) = validate_stream_file_with_checkpoint k c n sk json now later db in
      (result ≡ ok (data_file_from_row (moved_file validated (some c) (some n) none now r)))
      × ((j : String)
          → find_file j after ≡ (
              if str_eq k j
              then some (moved_file validated (some c) (some n) none now r)
              else find_file j db))
      × ((j : String)
          → get_stream_checkpoint j after
            ≡ (if str_eq sk j then some json else get_stream_checkpoint j db))
unfolding get_stream_checkpoint
validate-visible k c n sk json now later db {r} found h =
    rw (accepted_validation k c n sk json now later db found (accepts r.status h)) (
      refl,
      λ j. ground (
        arith,
        eq_iff k j,
        find_file-update k j validated (some c) (some n) none now db.data_files,
      ),
      λ j. ground (arith, get-upserted sk j json later db.stream_checkpoints),
    )

-- From any other status, or for an unknown file, the call raises, and neither the file nor the
-- checkpoint is written.
pub validate-refused :
    (k c : String) (n : ℕ) (sk json : String) (now later : ℕ) (db : StateDb)
    → ((r : DataFileRecord)
        → find_file k db ≡ some r
        → r.status ≢ downloaded
        → r.status ≢ validated
        → validate_stream_file_with_checkpoint k c n sk json now later db
          ≡ (err (invalid_file_transition k r.status validated), db))
      × (find_file k db ≡ none
          → validate_stream_file_with_checkpoint k c n sk json now later db
            ≡ (err (unknown_data_file k), db))
unfolding validate_stream_file_with_checkpoint validation_refused
validate-refused k c n sk json now later db = (λ r found p q. ground arith, λ missing. ground arith)

-- Registering a record a second time gives the same answer, a record or an error, and changes
-- nothing.
pub register_twice :
    (r : DataFileRecord) (db : StateDb)
    → register_data_file r (register_data_file r db).1 ≡ register_data_file r db
unfolding register_data_file
register_twice r db =
    ground (arith, eq_refl r.file_id, insert_or_ignore-twice same_file r db.data_files)
