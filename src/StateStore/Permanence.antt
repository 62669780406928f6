-- ===== src/StateStore/Permanence.antt =====
-- What no later call of data/state_store.py changes: schema versions and finished jobs.
use binance_algo.Base.{
  Option, eq_iff, err, ℕ, String, none, some, List, [], ◌∷◌, ◌≡◌, ◌≢◌, refl, arith, false,
}
use binance_algo.StateStore.Jobs.{
  job_transitioned, has_job_id, schema_row, is_schema, register_quality_result,
  transition_backfill_job, create_backfill_job, find_job, job_move_refused, register_schema_version,
  find_schema,
}
use binance_algo.StateStore.Integrity.{job_key}
use binance_algo.StateStore.Ops.{transition_job, create_job, register_schema, call, StoreCall, run}
use binance_algo.Table.Laws.{select-append, select-insert_or_ignore, select-update_key}
use binance_algo.StateStore.Files.{
  upsert_stream_checkpoint, transition_data_file, validate_stream_file_with_checkpoint,
  register_data_file,
}
use binance_algo.Manifest.{BackfillJobRecord, allowed_job_transition, BackfillJobStatus}
use binance_algo.StateStore.Schema.{schema_mismatch, SchemaRow, StateDb}

module _ (sha256 : List String → String) (d : String) (v : ℕ) where
  schema_kept :
      (c : StoreCall) (db : StateDb) {row : SchemaRow}
      → find_schema d v db ≡ some row
      → find_schema d v (call sha256 c db) ≡ some row
  unfolding call register_data_file transition_data_file validate_stream_file_with_checkpoint
      upsert_stream_checkpoint create_backfill_job transition_backfill_job register_schema_version
      register_quality_result
  schema_kept (register_schema d' v' json now) db h = ground (
    arith,
    select-insert_or_ignore (is_schema d v) (λ r. is_schema r.logical_dataset r.schema_version)
        (schema_row d' v' json now) db.schema_versions,
  )
  schema_kept _ db h = ground arith

  -- The row of a schema version, once registered, is changed by no call: a registration with other
  -- content raises.
  pub schema_immutable :
      (calls : List StoreCall) (db : StateDb) {row : SchemaRow}
      → find_schema d v db ≡ some row
      → (find_schema d v (run sha256 calls db) ≡ some row)
        × ((json : String) (now : ℕ)
            → row.schema_json ≢ json
            → register_schema_version d v json now (run sha256 calls db)
              ≡ (err (schema_mismatch d v), run sha256 calls db))
  unfolding run register_schema_version
  schema_immutable [] db {row} h =
      (h, λ json now differ. ground (arith, eq_iff row.schema_json json))
  schema_immutable (c ∷ cs) db h = schema_immutable cs (call sha256 c db) (schema_kept c db h)

-- Completed and failed are final.
abbrev pub IsFinal : BackfillJobStatus → Type 0
IsFinal BackfillJobStatus.completed = Unit
IsFinal BackfillJobStatus.failed = Unit
IsFinal _ = ⊥

abbrev pub HasFinal : BackfillJobStatus → Option BackfillJobRecord → Type 0
HasFinal s none = ⊥
HasFinal s (some j) = j.status ≡ s

final_refuses : (s t : BackfillJobStatus) → IsFinal s → job_move_refused s t ≡ false → t ≡ s
unfolding job_move_refused allowed_job_transition
final_refuses s t f h = ground arith

module _ (sha256 : List String → String) (k : String) (s : BackfillJobStatus)
    (final : IsFinal s) where
  final_kept :
      (c : StoreCall) (db : StateDb)
      → HasFinal s (find_job k db)
      → HasFinal s (find_job k (call sha256 c db))
  unfolding call register_data_file transition_data_file validate_stream_file_with_checkpoint
      upsert_stream_checkpoint create_backfill_job transition_backfill_job register_schema_version
      register_quality_result
  final_kept (create_job r) db h = ground (arith, select-append (has_job_id k) db.backfill_jobs r)
  final_kept (transition_job j t c f e now) db h = ground (
    arith,
    eq_iff j k,
    final_refuses s t final,
    select-update_key job_key j k (job_transitioned t c f e now) db.backfill_jobs (λ r. refl),
  )
  final_kept _ db h = ground arith

  -- A backfill job that has completed or failed keeps that status, whatever is called.
  pub job_final :
      (calls : List StoreCall) (db : StateDb)
      → HasFinal s (find_job k db)
      → HasFinal s (find_job k (run sha256 calls db))
  unfolding run
  job_final [] db h = h
  job_final (c ∷ cs) db h = job_final cs (call sha256 c db) (final_kept c db h)
