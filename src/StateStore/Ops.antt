-- ===== src/StateStore/Ops.antt =====
-- The writing methods of data/state_store.py as requests, and a history of calls. A call that raises
-- leaves the state that the method left.
use binance_algo.Base.{ℕ, String, Bool, Option, List, [], ◌∷◌}
use binance_algo.Manifest.{DataFileRecord, DataFileStatus, BackfillJobRecord, BackfillJobStatus}
use binance_algo.StateStore.Schema.{StateDb}
use binance_algo.StateStore.Files.{
  register_data_file, transition_data_file, upsert_stream_checkpoint,
  validate_stream_file_with_checkpoint,
}
use binance_algo.StateStore.Jobs.{
  create_backfill_job, transition_backfill_job, register_schema_version, register_quality_result,
}

pub data StoreCall : Type 0 where
  register_file : DataFileRecord → StoreCall
  transition_file :
      String → DataFileStatus → Option String → Option ℕ → Option String → ℕ → StoreCall
  upsert_checkpoint : String → String → ℕ → StoreCall
  validate_file : String → String → ℕ → String → String → ℕ → ℕ → StoreCall
  create_job : BackfillJobRecord → StoreCall
  transition_job : String → BackfillJobStatus → Option ℕ → Option ℕ → Option String → ℕ → StoreCall
  register_schema : String → ℕ → String → ℕ → StoreCall
  register_quality : String → String → Bool → String → ℕ → StoreCall

module _ (sha256 : List String → String) where
  unfoldable pub call : StoreCall → StateDb → StateDb
  call (register_file r) db = (register_data_file r db).1
  call (transition_file k s c n e now) db = (transition_data_file k s c n e now db).1
  call (upsert_checkpoint k j now) db = (upsert_stream_checkpoint k j now db).1
  call (validate_file k c n sk j now later) db =
      (validate_stream_file_with_checkpoint k c n sk j now later db).1
  call (create_job r) db = (create_backfill_job r db).1
  call (transition_job k s c f e now) db = (transition_backfill_job k s c f e now db).1
  call (register_schema d v j now) db = (register_schema_version d v j now db).1
  call (register_quality f c p d now) db = (register_quality_result sha256 f c p d now db).1

  unfoldable pub run : List StoreCall → StateDb → StateDb
  run [] db = db
  run (c ∷ cs) db = run cs (call c db)
