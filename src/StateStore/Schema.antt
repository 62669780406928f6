-- ===== src/StateStore/Schema.antt =====
-- The tables of data/state_store.py (`MIGRATION_1`), and the errors that its methods raise.
use binance_algo.Base.{ℕ, String, Bool, List}
use binance_algo.Manifest.{DataFileRecord, BackfillJobRecord, DataFileStatus, BackfillJobStatus}

pub record CheckpointRow : Type 0 where
  pub stream_key : String
  pub checkpoint_json : String
  pub updated_at_ms : ℕ

pub record QualityRow : Type 0 where
  pub result_id : String
  pub file_id : String
  pub check_name : String
  pub passed : Bool
  pub details_json : String
  pub created_at_ms : ℕ

pub record SchemaRow : Type 0 where
  pub logical_dataset : String
  pub schema_version : ℕ
  pub schema_json : String
  pub created_at_ms : ℕ

pub record StateDb : Type 0 where
  pub data_files : List DataFileRecord
  pub backfill_jobs : List BackfillJobRecord
  pub stream_checkpoints : List CheckpointRow
  pub quality_results : List QualityRow
  pub schema_versions : List SchemaRow

-- `sqlite_error` is a broken key constraint, which SQLite raises as `IntegrityError` and the methods
-- wrap; the others are the methods' own, each with what its message shows.
pub data StoreError : Type 0 where
  sqlite_error : StoreError
  file_disappeared file_id_collision unknown_data_file unknown_job : String → StoreError
  invalid_file_transition : String → DataFileStatus → DataFileStatus → StoreError
  invalid_job_transition : String → BackfillJobStatus → BackfillJobStatus → StoreError
  schema_mismatch : String → ℕ → StoreError
