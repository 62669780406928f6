-- ===== src/StateStore/Samples.antt =====
-- Sample states for data/state_store.py, and the theorems on them.
use binance_algo.Base.{◌≡◌, refl, inl, inr, String, none, some, List, [], ◌∷◌, ok}
use binance_algo.StateStore.FileMachine.{transition_data_file-permitted}
use binance_algo.StateStore.Writes.{validate-visible}
use binance_algo.StateStore.FileTrace.{run-EachSteps, EachSteps}
use binance_algo.StateStore.Schema.{SchemaRow, StateDb}
use binance_algo.StateStore.Ops.{register_file, transition_file, run, validate_file, StoreCall}
use binance_algo.StateStore.Files.{
  transitioned, data_file_from_row, transition_data_file, validate_stream_file_with_checkpoint,
}
use binance_algo.StateStore.Integrity.{run-IsConsistent, IsConsistent}
use binance_algo.StateStore.Jobs.{schema_row}
use binance_algo.Manifest.{
  allowed_file_transition, BackfillJobRecord, DataFileRecord, downloaded, validated, completed,
}
use binance_algo.Table.{select}

abbrev aug_file : DataFileRecord
aug_file = record {
  file_id = "f1";
  logical_dataset = "klines";
  layer = "raw";
  source = "archive";
  symbol = "BTCUSDT";
  interval = "1h";
  start_time_ms = 1000;
  end_time_ms = 2000;
  row_count = none;
  schema_version = 1;
  checksum = none;
  path = "raw/f1";
  status = downloaded;
  created_at_ms = 10;
  updated_at_ms = 10;
  ingestion_run_id = "r1";
  parent_file_ids_json = "[]";
  last_error = none;
}

abbrev done_job : BackfillJobRecord
done_job = record {
  job_id = "j1";
  dataset = "klines";
  symbols_json = "[]";
  interval = "1h";
  start_date = "2024-01-01";
  end_date = "2024-01-02";
  status = completed;
  total_files = 1;
  completed_files = 1;
  failed_files = 0;
  created_at_ms = 10;
  updated_at_ms = 20;
  last_error = none;
}

abbrev klines_schema : SchemaRow
klines_schema = schema_row "klines" 1 "{}" 5

abbrev one_file : StateDb
one_file = record {
  data_files = aug_file ∷ [];
  backfill_jobs = done_job ∷ [];
  stream_checkpoints = [];
  quality_results = [];
  schema_versions = klines_schema ∷ [];
}

abbrev concatenated : List String → String
concatenated [] = ""
concatenated (s ∷ ss) = s

abbrev some_calls : List StoreCall
some_calls =
    validate_file "f1" "abc" 24 "btc" "{}" 20 21
    ∷ transition_file "f1" downloaded none none none 22
    ∷ register_file aug_file
    ∷ []

one_file-IsConsistent : IsConsistent one_file
unfolding select
one_file-IsConsistent = record {
  files = (refl, tt);
  jobs = (refl, tt);
  checkpoints = tt;
  results = tt;
}

transition_data_file-permitted_example :
    (transition_data_file "f1" validated (some "abc") (some 24) none 20 one_file).0
    ≡ ok (data_file_from_row (transitioned validated (some "abc") (some 24) none 20 aug_file))
unfolding select allowed_file_transition
transition_data_file-permitted_example =
    (transition_data_file-permitted "f1" validated (some "abc") (some 24) none 20 one_file refl
      (inr refl)).0

run-EachSteps_example : EachSteps concatenated some_calls one_file
run-EachSteps_example = run-EachSteps concatenated some_calls one_file

run-IsConsistent_example : IsConsistent (run concatenated some_calls one_file)
run-IsConsistent_example = run-IsConsistent concatenated some_calls one_file one_file-IsConsistent

validate-visible_example :
    (validate_stream_file_with_checkpoint "f1" "abc" 24 "btc" "{}" 20 21 one_file).0
    ≡ ok (data_file_from_row (transitioned validated (some "abc") (some 24) none 20 aug_file))
unfolding select
validate-visible_example =
    (validate-visible "f1" "abc" 24 "btc" "{}" 20 21 one_file refl (inl refl)).0
