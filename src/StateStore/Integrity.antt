-- ===== src/StateStore/Integrity.antt =====
-- Atomicity, keys, registration, checkpoints, schemas and job states of data/state_store.py.
use binance_algo.Base.{
  ℕ, String, true, none, some, List, [], ◌∷◌, ◌≡◌, inl, inr, refl, arith, str_eq, eq_refl, is_some,
  Option-cases, Bool-cases,
}
use binance_algo.Table.{select}
use binance_algo.Table.Laws.{
  select-insert_or_ignore, IsKeyed, update-IsKeyed, insert_or_ignore-IsKeyed, append-IsKeyed,
  no_conflict,
}
use binance_algo.Transaction.{IsAtomic}
use binance_algo.Manifest.{DataFileRecord, validated, BackfillJobRecord}
use binance_algo.StateStore.Schema.{StateDb, CheckpointRow, QualityRow}
use binance_algo.StateStore.Files.{
  has_file_id, register_data_file, same_file, transitioned, has_stream_key, upserted,
  transition_data_file, validate_stream_file_with_checkpoint, upsert_stream_checkpoint,
}
use binance_algo.StateStore.Jobs.{
  create_backfill_job, transition_backfill_job, register_schema_version, register_quality_result,
  find_job, job_transitioned, has_result_id, quality_row, quality_row,
}
use binance_algo.StateStore.Ops.{
  StoreCall, register_file, transition_file, upsert_checkpoint, validate_file, create_job,
  transition_job, register_quality, call, run,
}

abbrev pub file_key : DataFileRecord → String
file_key r = r.file_id

abbrev pub job_key : BackfillJobRecord → String
job_key r = r.job_id

abbrev pub stream_key_of : CheckpointRow → String
stream_key_of r = r.stream_key

abbrev pub result_key : QualityRow → String
result_key r = r.result_id

pub same_file_covers :
    (r s : DataFileRecord) → str_eq s.file_id r.file_id ≡ true → same_file r s ≡ true
same_file_covers r s e = ground arith

-- A registration that raises, for a collision or for a file that "disappeared", has written
-- nothing, although its checks stand after the commit.
pub register_data_file-IsAtomic :
    (r : DataFileRecord) (db : StateDb) → IsAtomic db (register_data_file r db)
unfolding register_data_file
register_data_file-IsAtomic r db = ground (
  arith,
  eq_refl r.file_id,
  eq_refl r.path,
  eq_refl r.logical_dataset,
  eq_refl r.symbol,
  eq_refl r.interval,
  no_conflict file_key (same_file r) r.file_id db.data_files (same_file_covers r),
  select-insert_or_ignore (has_file_id r.file_id) same_file r db.data_files,
)

-- No two rows of a table have one primary key.
pub record IsConsistent (db : StateDb) : Type 0 where
  pub files : IsKeyed file_key db.data_files
  pub jobs : IsKeyed job_key db.backfill_jobs
  pub checkpoints : IsKeyed stream_key_of db.stream_checkpoints
  pub results : IsKeyed result_key db.quality_results

upserted-IsKeyed :
    (k json : String) (now : ℕ) (rows : List CheckpointRow)
    → IsKeyed stream_key_of rows
    → IsKeyed stream_key_of (upserted k json now rows)
upserted-IsKeyed k json now rows h = elim (Bool-cases (is_some (select (has_stream_key k) rows))) [
  | inl old ↦ rw old (update-IsKeyed stream_key_of k _ rows (λ r. refl) h)
  | inr new ↦ rw new (insert_or_ignore-IsKeyed stream_key_of _ _ rows (λ s e. e) h)
]

module _ (sha256 : List String → String) where
  call-files-IsKeyed :
      (c : StoreCall) (db : StateDb)
      → IsConsistent db
      → IsKeyed file_key (call sha256 c db).data_files
  unfolding call register_data_file transition_data_file validate_stream_file_with_checkpoint
      upsert_stream_checkpoint create_backfill_job transition_backfill_job register_schema_version
      register_quality_result
  call-files-IsKeyed (register_file r) db h =
      ground
        (arith, insert_or_ignore-IsKeyed file_key same_file r db.data_files (same_file_covers r))
  call-files-IsKeyed (transition_file k s c n e now) db h =
      ground (arith, update-IsKeyed file_key k (transitioned s c n e now) db.data_files (λ r. refl))
  call-files-IsKeyed (validate_file k c n sk json now later) db h = ground (
    arith,
    update-IsKeyed file_key k (transitioned validated (some c) (some n) none now) db.data_files
        (λ r. refl),
  )
  call-files-IsKeyed _ db h = ground arith

  call-jobs-IsKeyed :
      (c : StoreCall) (db : StateDb)
      → IsConsistent db
      → IsKeyed job_key (call sha256 c db).backfill_jobs
  unfolding call register_data_file transition_data_file validate_stream_file_with_checkpoint
      upsert_stream_checkpoint create_backfill_job transition_backfill_job register_schema_version
      register_quality_result
  call-jobs-IsKeyed (create_job r) db h = elim (Option-cases (find_job r.job_id db)) [
    | inl free ↦ ground (arith, append-IsKeyed job_key r db.backfill_jobs free h.jobs)
    | inr (old, taken) ↦ ground arith
  ]
  call-jobs-IsKeyed (transition_job k s c f e now) db h =
      ground (
        arith,
        update-IsKeyed job_key k (job_transitioned s c f e now) db.backfill_jobs (λ r. refl),
      )
  call-jobs-IsKeyed _ db h = ground arith

  call-checkpoints-IsKeyed :
      (c : StoreCall) (db : StateDb)
      → IsConsistent db
      → IsKeyed stream_key_of (call sha256 c db).stream_checkpoints
  unfolding call register_data_file transition_data_file validate_stream_file_with_checkpoint
      upsert_stream_checkpoint create_backfill_job transition_backfill_job register_schema_version
      register_quality_result
  call-checkpoints-IsKeyed (upsert_checkpoint k json now) db h =
      upserted-IsKeyed k json now db.stream_checkpoints h.checkpoints
  call-checkpoints-IsKeyed (validate_file k c n sk json now later) db h =
      ground (arith, upserted-IsKeyed sk json later db.stream_checkpoints)
  call-checkpoints-IsKeyed _ db h = ground arith

  call-results-IsKeyed :
      (c : StoreCall) (db : StateDb)
      → IsConsistent db
      → IsKeyed result_key (call sha256 c db).quality_results
  unfolding call register_data_file transition_data_file validate_stream_file_with_checkpoint
      upsert_stream_checkpoint create_backfill_job transition_backfill_job register_schema_version
      register_quality_result
  call-results-IsKeyed (register_quality f c p d now) db h = ground (
    arith,
    insert_or_ignore-IsKeyed result_key (λ r. has_result_id r.result_id)
        (quality_row (sha256 (f ∷ c ∷ d ∷ [])) f c p d now) db.quality_results (λ s e. e),
  )
  call-results-IsKeyed _ db h = ground arith

  -- Whatever is called, no table of files, jobs, checkpoints or quality results comes to hold two
  -- rows of one primary key, so that a lookup by key has one answer.
  pub run-IsConsistent :
      (calls : List StoreCall) (db : StateDb) → IsConsistent db → IsConsistent (run sha256 calls db)
  unfolding run
  run-IsConsistent [] db h = h
  run-IsConsistent (c ∷ cs) db h = run-IsConsistent cs (call sha256 c db) (record {
    files = call-files-IsKeyed c db h;
    jobs = call-jobs-IsKeyed c db h;
    checkpoints = call-checkpoints-IsKeyed c db h;
    results = call-results-IsKeyed c db h;
  })
