-- ===== src/Recorder/Flush.antt =====
-- `_flush_partition` of data/writer.py: the calls of the state store around the write of a Parquet
-- file. The frame, its checksum and its checkpoint are arguments, as is whether the write raises.
use binance_algo.Base.{
  str_eq, ◌||◌, if◌then◌else◌, not, Result, ℕ, String, Bool, true, false, Option, none, some, ok,
  err,
}
use binance_algo.Transaction.{try_except, pure, raise, ◌>>=◌, ◌>>◌, Exec}
use binance_algo.StateStore.Files.{
  get_data_file, register_data_file, validate_stream_file_with_checkpoint, transition_data_file,
}
use binance_algo.Manifest.{
  DataFileStatus, file_status_eq, DataFileRecord, downloading, downloaded, validated,
}
use binance_algo.StateStore.Schema.{StateDb, StoreError}

-- Errors of the state store, and of the storage and polars, by their message.
pub data FlushError : Type 0 where
  store_error : StoreError → FlushError
  write_error : String → FlushError

-- What `_flush_partition` computes from the key and the rows: the names and the bounds of the file,
-- its checksum, the height of the frame, and its checkpoint.
pub record Partition : Type 0 where
  pub file_id : String
  pub event_type : String
  pub symbol : String
  pub start_time_ms : ℕ
  pub end_time_ms : ℕ
  pub target : String
  pub ingestion_run_id : String
  pub timestamp : ℕ
  pub checksum : String
  pub height : ℕ
  pub stream_key : String
  pub checkpoint_json : String

abbrev pub interval_of : String → String
interval_of event_type =
    if str_eq event_type "kline_1m"
    then "1m"
    else if str_eq event_type "mark_price"
    then "1s"
    else "realtime"

-- The record that a flush registers.
abbrev pub registered : Partition → DataFileRecord
registered p = record {
  file_id = p.file_id;
  logical_dataset = p.event_type;
  layer = "raw";
  source = "binance_market_stream";
  symbol = p.symbol;
  interval = interval_of p.event_type;
  start_time_ms = p.start_time_ms;
  end_time_ms = p.end_time_ms;
  row_count = none;
  schema_version = 1;
  checksum = none;
  path = p.target;
  status = downloading;
  created_at_ms = p.timestamp;
  updated_at_ms = p.timestamp;
  ingestion_run_id = p.ingestion_run_id;
  parent_file_ids_json = "[]";
  last_error = none;
}

-- The readings of the clock by the calls of the state store, in their order.
pub record Clock : Type 0 where
  pub downloaded_at : ℕ
  pub validated_at : ℕ
  pub checkpoint_at : ℕ
  pub failed_at : ℕ

abbrev pub FlushAction : Type 0 → Type 0
FlushAction = Exec StateDb FlushError

abbrev pub lifted : {A : Type 0} → Result StoreError A × StateDb → Result FlushError A × StateDb
lifted (ok a, db) = (ok a, db)
lifted (err e, db) = (err (store_error e), db)

abbrev pub in_store : {A : Type 0} → Exec StateDb StoreError A → FlushAction A
in_store m db = lifted (m db)

-- `storage.write_parquet_atomic`
abbrev pub write_parquet : Option String → FlushAction (Unit {0})
write_parquet none db = (ok tt, db)
write_parquet (some message) db = (err (write_error message), db)

unfoldable pub download : Partition → Clock → DataFileRecord → FlushAction DataFileRecord
download p clock r =
    if file_status_eq r.status downloading
    then in_store (
        transition_data_file p.file_id downloaded (some p.checksum) (some p.height) none
          clock.downloaded_at)
    else pure r

unfoldable pub validate : Partition → Clock → DataFileRecord → FlushAction DataFileRecord
validate p clock r =
    if file_status_eq r.status downloaded
    then in_store (
        validate_stream_file_with_checkpoint p.file_id p.checksum p.height p.stream_key
          p.checkpoint_json clock.validated_at clock.checkpoint_at)
    else pure r

-- `current is not None and current.status not in {FAILED, QUARANTINED, VALIDATED}`
unfoldable pub to_be_failed : Option DataFileRecord → Bool
to_be_failed none = false
to_be_failed (some r) = not (
    file_status_eq r.status DataFileStatus.failed
    || file_status_eq r.status DataFileStatus.quarantined
    || file_status_eq r.status validated)

-- The body of the `try`.
abbrev pub flush_body :
    Partition → Clock → Option String → DataFileRecord → FlushAction DataFileRecord
flush_body p clock write_fails r = do
  write_parquet write_fails
  r' ← download p clock r
  validate p clock r'

-- `message` is `str` of the exception.
module _ (message : FlushError → String) where
  abbrev pub mark_failed : Partition → Clock → FlushError → Bool → FlushAction (Unit {0})
  mark_failed p clock e false = pure tt
  mark_failed p clock e true = in_store (
      transition_data_file p.file_id DataFileStatus.failed none none (some (message e))
        clock.failed_at
      >> pure tt)

  unfoldable pub fail_file : Partition → Clock → FlushError → FlushAction DataFileRecord
  fail_file p clock e = do
    current ← in_store (get_data_file p.file_id)
    mark_failed p clock e (to_be_failed current)
    raise e

  unfoldable pub flush_partition : Partition → Clock → Option String → FlushAction DataFileRecord
  flush_partition p clock write_fails = do
    r ← in_store (register_data_file (registered p))
    try_except (flush_body p clock write_fails r) (fail_file p clock)
