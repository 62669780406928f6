-- ===== src/StateStore/Jobs.antt =====
-- The methods of data/state_store.py on backfill jobs, schema versions and quality results.
use binance_algo.Base.{
  List, [], ◌∷◌, ℕ, String, Bool, Option, none, some, [], ◌∷◌, ◌++◌, ◌&&◌, not, ◌==◌, str_eq,
  is_some,
}
use binance_algo.Table.{select, update, insert_or_ignore}
use binance_algo.Transaction.{pure, gets, modify, raise_if, or_raise, transaction, ◌>>=◌, ◌>>◌}
use binance_algo.Manifest.{
  BackfillJobRecord, BackfillJobStatus, job_status_eq, allowed_job_transition,
}
use binance_algo.StateStore.Schema.{
  StateDb, SchemaRow, QualityRow, sqlite_error, unknown_job, invalid_job_transition,
  schema_mismatch,
}
use binance_algo.StateStore.Files.{Action, find_file}

abbrev pub has_job_id : String → BackfillJobRecord → Bool
has_job_id k r = str_eq r.job_id k

abbrev pub find_job : String → StateDb → Option BackfillJobRecord
find_job k db = select (has_job_id k) db.backfill_jobs

-- A plain `INSERT`: a second job of the same id breaks the primary key.
unfoldable pub create_backfill_job : BackfillJobRecord → Action (Unit {0})
create_backfill_job r = transaction (do
  taken ← gets (find_job r.job_id)
  raise_if (is_some taken) sqlite_error
  modify (λ db. record db { backfill_jobs = db.backfill_jobs ++ (r ∷ []) }))

-- `completed_files = COALESCE(?, completed_files)`
abbrev count_or : Option ℕ → ℕ → ℕ
count_or none old = old
count_or (some n) old = n

abbrev pub job_transitioned :
    BackfillJobStatus
    → Option ℕ
    → Option ℕ
    → Option String
    → ℕ
    → BackfillJobRecord
    → BackfillJobRecord
job_transitioned status completed failed last_error now r = record r {
  status = status;
  completed_files = count_or completed r.completed_files;
  failed_files = count_or failed r.failed_files;
  updated_at_ms = now;
  last_error = last_error;
}

-- `new_status != current and new_status not in ALLOWED_JOB_TRANSITIONS[current]`
unfoldable pub job_move_refused : BackfillJobStatus → BackfillJobStatus → Bool
job_move_refused current new =
    not (job_status_eq new current) && not (allowed_job_transition current new)

unfoldable pub transition_backfill_job :
    String → BackfillJobStatus → Option ℕ → Option ℕ → Option String → ℕ → Action (Unit {0})
transition_backfill_job k new completed failed last_error now = transaction (do
  row ← gets (find_job k)
  r ← or_raise row (unknown_job k)
  raise_if (job_move_refused r.status new) (invalid_job_transition k r.status new)
  modify (λ db. record db {
    backfill_jobs =
        update (has_job_id k) (job_transitioned new completed failed last_error now)
          db.backfill_jobs;
  }))

abbrev pub is_schema : String → ℕ → SchemaRow → Bool
is_schema dataset version r = str_eq r.logical_dataset dataset && r.schema_version == version

abbrev pub find_schema : String → ℕ → StateDb → Option SchemaRow
find_schema dataset version db = select (is_schema dataset version) db.schema_versions

abbrev differs : Option SchemaRow → String → Bool
differs none json = Bool.false
differs (some r) json = not (str_eq r.schema_json json)

abbrev pub schema_row : String → ℕ → String → ℕ → SchemaRow
schema_row dataset version json now = record {
  logical_dataset = dataset;
  schema_version = version;
  schema_json = json;
  created_at_ms = now;
}

unfoldable pub register_schema_version : String → ℕ → String → ℕ → Action (Unit {0})
register_schema_version dataset version json now = transaction (do
  row ← gets (find_schema dataset version)
  raise_if (differs row json) (schema_mismatch dataset version)
  modify (λ db. record db {
    schema_versions =
        insert_or_ignore (λ r. is_schema r.logical_dataset r.schema_version)
          (schema_row dataset version json now) db.schema_versions;
  }))

abbrev pub has_result_id : String → QualityRow → Bool
has_result_id k r = str_eq r.result_id k

abbrev pub quality_row : String → String → String → Bool → String → ℕ → QualityRow
quality_row result_id file_id check_name passed details_json now = record {
  result_id = result_id;
  file_id = file_id;
  check_name = check_name;
  passed = passed;
  details_json = details_json;
  created_at_ms = now;
}

-- `sha256` joins the parts by a separator and hashes them (hashlib); the file must exist (a foreign
-- key) unless the row is there already.
module _ (sha256 : List String → String) where
  unfoldable pub register_quality_result : String → String → Bool → String → ℕ → Action String
  register_quality_result file_id check_name passed details_json now =
      let result_id = sha256 (file_id ∷ check_name ∷ details_json ∷ []) in
      transaction (do
        stored ← gets (λ db. select (has_result_id result_id) db.quality_results)
        file ← gets (find_file file_id)
        raise_if (not (is_some stored) && not (is_some file)) sqlite_error
        modify (λ db. record db {
          quality_results =
              insert_or_ignore (λ r. has_result_id r.result_id)
                (quality_row result_id file_id check_name passed details_json now)
                db.quality_results;
        })
        pure result_id)
