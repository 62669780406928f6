-- ===== src/Recorder/Lifecycle.antt =====
-- What a flush of data/writer.py does to the manifest.
use binance_algo.Base.{
  Option, ℕ, eq_refl, arith, ◌≡◌, ◌++◌, refl, inr, String, none, some, [], ◌∷◌, ok, err,
}
use binance_algo.Recorder.Flush.{
  interval_of, registered, write_error, to_be_failed, fail_file, validate, flush_partition,
  download, Clock, Partition, FlushError,
}
use binance_algo.StateStore.Writes.{accepted_validation, after_validation, get-upserted}
use binance_algo.StateStore.Files.{
  get_data_file, validation_refused, has_file_id, get_stream_checkpoint, find_file,
  data_file_from_row, same_file, transitioned, register_data_file,
}
use binance_algo.Manifest.{
  DataFileStatus, allowed_file_transition, downloaded, validated, DataFileRecord,
}
use binance_algo.Table.Laws.{select-append, no_conflict}
use binance_algo.StateStore.FileMachine.{find_file-update, permitted_transition, after_transition}
use binance_algo.StateStore.Integrity.{same_file_covers, file_key}
use binance_algo.Table.{select, insert_or_ignore}
use binance_algo.StateStore.Schema.{StateDb}

pub register_fresh :
    (r : DataFileRecord) (db : StateDb)
    → select (same_file r) db.data_files ≡ none
    → (register_data_file r db
        ≡ (ok (data_file_from_row r), record db { data_files = db.data_files ++ (r ∷ []) }))
      × (find_file r.file_id (record db { data_files = db.data_files ++ (r ∷ []) }) ≡ some r)
unfolding register_data_file insert_or_ignore
register_fresh r db fresh =
    let absent =
      no_conflict file_key (same_file r) r.file_id db.data_files (same_file_covers r) fresh in
    let last = select-append (has_file_id r.file_id) db.data_files r in
    (
      ground (
        arith,
        last,
        eq_refl r.file_id,
        eq_refl r.path,
        eq_refl r.logical_dataset,
        eq_refl r.symbol,
        eq_refl r.interval,
      ),
      ground (arith, last, eq_refl r.file_id),
    )

module _ (message : FlushError → String) (p : Partition) (clock : Clock) (db : StateDb) where
  abbrev stored : StateDb
  stored = record db { data_files = db.data_files ++ ((registered p) ∷ []) }

  abbrev pub downloaded_file : DataFileRecord
  downloaded_file =
      transitioned downloaded (some p.checksum) (some p.height) none clock.downloaded_at
        (registered p)

  abbrev stored_download : StateDb
  stored_download =
      after_transition p.file_id downloaded (some p.checksum) (some p.height) none
        clock.downloaded_at stored

  abbrev pub validated_file : DataFileRecord
  validated_file =
      transitioned validated (some p.checksum) (some p.height) none clock.validated_at
        downloaded_file

  downloads :
      select (same_file (registered p)) db.data_files ≡ none
      → (download p clock (data_file_from_row (registered p)) stored
          ≡ (ok (data_file_from_row downloaded_file), stored_download))
        × (find_file p.file_id stored_download ≡ some downloaded_file)
  unfolding download allowed_file_transition
  downloads fresh =
      let found = (register_fresh (registered p) db fresh).1 in
      let moved =
        permitted_transition p.file_id downloaded (some p.checksum) (some p.height) none
          clock.downloaded_at stored found (inr refl) in
      (
        ground (arith, moved),
        ground (
          arith,
          found,
          eq_refl p.file_id,
          find_file-update p.file_id p.file_id downloaded (some p.checksum) (some p.height) none
              clock.downloaded_at stored.data_files,
        ),
      )

  abbrev stored_valid : StateDb
  stored_valid =
      after_validation p.file_id p.checksum p.height p.stream_key p.checkpoint_json
        clock.validated_at clock.checkpoint_at stored_download

  validates :
      find_file p.file_id stored_download ≡ some downloaded_file
      → validate p clock (data_file_from_row downloaded_file) stored_download
        ≡ (ok (data_file_from_row validated_file), stored_valid)
  unfolding validate validation_refused
  validates found =
      let done =
        accepted_validation p.file_id p.checksum p.height p.stream_key p.checkpoint_json
          clock.validated_at clock.checkpoint_at stored_download found refl in
      ground (arith, done)

  -- The file of a partition with what a flush is to store of it, field by field.
  abbrev pub file_with :
      DataFileStatus → Option String → Option ℕ → Option String → ℕ → DataFileRecord
  file_with status checksum row_count last_error now = record {
    file_id = p.file_id;
    logical_dataset = p.event_type;
    layer = "raw";
    source = "binance_market_stream";
    symbol = p.symbol;
    interval = interval_of p.event_type;
    start_time_ms = p.start_time_ms;
    end_time_ms = p.end_time_ms;
    row_count = row_count;
    schema_version = 1;
    checksum = checksum;
    path = p.target;
    status = status;
    created_at_ms = p.timestamp;
    updated_at_ms = now;
    ingestion_run_id = p.ingestion_run_id;
    parent_file_ids_json = "[]";
    last_error = last_error;
  }

  -- A flush of a new partition whose write succeeds returns; the file is then VALIDATED with the
  -- checksum and the row count of the frame, and the checkpoint of the stream is the frame's.
  pub flush_partition-validates :
      select (same_file (registered p)) db.data_files ≡ none
      → let (result, after) = flush_partition message p clock none db in
        (result
          ≡ ok (file_with validated (some p.checksum) (some p.height) none clock.validated_at))
        × (find_file p.file_id after
            ≡ some (file_with validated (some p.checksum) (some p.height) none clock.validated_at))
        × (get_stream_checkpoint p.stream_key after ≡ some p.checkpoint_json)
  unfolding flush_partition get_stream_checkpoint
  flush_partition-validates fresh =
      let (new, _) = register_fresh (registered p) db fresh in
      let (moved, found) = downloads fresh in
      let k = p.file_id in
      let whole : flush_partition message p clock none db
          ≡ (ok (data_file_from_row validated_file), stored_valid) =
        ground (arith, new, moved, validates found) in
      rw (whole) (
        refl,
        ground (
          arith,
          eq_refl k,
          found,
          find_file-update k k validated (some p.checksum) (some p.height) none clock.validated_at
              stored_download.data_files,
        ),
        ground (
          arith,
          eq_refl p.stream_key,
          get-upserted p.stream_key p.stream_key p.checkpoint_json clock.checkpoint_at
              stored_download.stream_checkpoints,
        ),
      )

  abbrev pub failed_file : String → DataFileRecord
  failed_file m =
      transitioned DataFileStatus.failed none none (some (message (write_error m))) clock.failed_at
        (registered p)

  -- A flush of a new partition whose write raises raises the same error; the file is then FAILED with
  -- the message of the error and without a checksum and a row count, and no checkpoint has changed.
  pub flush_partition-fails :
      (m : String)
      → select (same_file (registered p)) db.data_files ≡ none
      → let (result, after) = flush_partition message p clock (some m) db in
        (result ≡ err (write_error m))
        × (find_file p.file_id after
            ≡ some (
                file_with DataFileStatus.failed none none
                  (some (message (write_error m)))
                  clock.failed_at))
        × (after.stream_checkpoints ≡ db.stream_checkpoints)
  unfolding flush_partition fail_file to_be_failed get_data_file allowed_file_transition
  flush_partition-fails m fresh =
      let (new, found) = register_fresh (registered p) db fresh in
      let k = p.file_id in
      let moved =
        permitted_transition k DataFileStatus.failed none none (some (message (write_error m)))
          clock.failed_at stored found (inr refl) in
      let last =
        find_file-update k k DataFileStatus.failed none none (some (message (write_error m)))
          clock.failed_at stored.data_files in
      (
        ground (arith, new, found, moved),
        ground (arith, new, found, moved, last, eq_refl k),
        ground (arith, new, found, moved),
      )
