-- ===== src/Recorder/Calls.antt =====
-- A flush of data/writer.py writes the state store only through its methods.
use binance_algo.Base.{
  arith, sym, Bool-cases, ap, ◌∙◌, ◌≡◌, Result, ◌++◌, refl, inl, inr, String, Bool, true, false,
  Option, none, some, List, [], ◌∷◌, ok, err,
}
use binance_algo.Transaction.{try_except, raise, ◌>>◌, ◌>>=◌}
use binance_algo.Recorder.Flush.{
  registered, flush_body, to_be_failed, validate, download, in_store, mark_failed, flush_partition,
  fail_file, write_parquet, lifted, Clock, Partition, FlushError, FlushAction,
}
use binance_algo.StateStore.Files.{
  validate_stream_file_with_checkpoint, transition_data_file, register_data_file, get_data_file,
}
use binance_algo.StateStore.Ops.{
  validate_file, register_file, transition_file, call, StoreCall, run,
}
use binance_algo.Manifest.{downloaded, downloading, file_status_eq, DataFileStatus, DataFileRecord}
use binance_algo.Transaction.Moves.{bind-Moves, try_except-Moves}
use binance_algo.StateStore.Schema.{StoreError, StateDb}

module _ (sha256 : List String → String) where
  run-append :
      (cs ds : List StoreCall) (db : StateDb)
      → run sha256 (cs ++ ds) db ≡ run sha256 ds (run sha256 cs db)
  unfolding run
  run-append [] ds db = refl
  run-append (c ∷ cs) ds db = run-append cs ds (call sha256 c db)

  -- Some sequence of calls of the store leads from one database to the other.
  abbrev pub Reaches : StateDb → StateDb → Type 0
  Reaches db after = (calls : List StoreCall) × (run sha256 calls db ≡ after)

  pub Reaches-refl : (db : StateDb) → Reaches db db
  unfolding run
  Reaches-refl db = ([], refl)

  pub Reaches-trans : (a b c : StateDb) → Reaches a b → Reaches b c → Reaches a c
  Reaches-trans a b c (cs, to_b) (ds, to_c) =
      (cs ++ ds, run-append cs ds a ∙ ap (run sha256 ds) to_b ∙ to_c)

  -- An action that changes the database by calls only.
  abbrev pub IsCalls : {A : Type 0} → FlushAction A → Type 0
  IsCalls m = (db : StateDb) → Reaches db (m db).1

  bind-IsCalls :
      {A B : Type 0} (m : FlushAction A) (f : A → FlushAction B)
      → IsCalls m
      → ((a : A) → IsCalls (f a))
      → IsCalls (m >>= f)
  bind-IsCalls = bind-Moves Reaches Reaches-refl Reaches-trans

  same-IsCalls : {A : Type 0} (m : FlushAction A) → ((db : StateDb) → (m db).1 ≡ db) → IsCalls m
  same-IsCalls m same db = rw (same db) (Reaches-refl db)

  pub lifted-db : {A : Type 0} (p : Result StoreError A × StateDb) → (lifted p).1 ≡ p.1
  lifted-db (ok a, db) = refl
  lifted-db (err e, db) = refl

  module _ (message : FlushError → String) (p : Partition) (clock : Clock) where
    pub download-IsCalls : (r : DataFileRecord) → IsCalls (download p clock r)
    unfolding download run call
    download-IsCalls r db = elim (Bool-cases (file_status_eq r.status downloading)) [
      | inl pending ↦ rw (pending) (
        transition_file p.file_id downloaded (some p.checksum) (some p.height) none
              clock.downloaded_at
            ∷ [],
        sym (
            lifted-db (
              transition_data_file p.file_id downloaded (some p.checksum) (some p.height) none
                clock.downloaded_at db)),
      )
      | inr moved ↦ rw (moved) (Reaches-refl db)
    ]

    pub validate-IsCalls : (r : DataFileRecord) → IsCalls (validate p clock r)
    unfolding validate run call
    validate-IsCalls r db = elim (Bool-cases (file_status_eq r.status downloaded)) [
      | inl pending ↦ rw (pending) (
        validate_file p.file_id p.checksum p.height p.stream_key p.checkpoint_json
              clock.validated_at clock.checkpoint_at
            ∷ [],
        sym (
            lifted-db (
              validate_stream_file_with_checkpoint p.file_id p.checksum p.height p.stream_key
                p.checkpoint_json clock.validated_at clock.checkpoint_at db)),
      )
      | inr moved ↦ rw (moved) (Reaches-refl db)
    ]

    register-IsCalls : IsCalls (in_store (register_data_file (registered p)))
    unfolding run call
    register-IsCalls db =
        (register_file (registered p) ∷ [], sym (lifted-db (register_data_file (registered p) db)))

    mark_failed-IsCalls : (e : FlushError) (b : Bool) → IsCalls (mark_failed message p clock e b)
    unfolding run call
    mark_failed-IsCalls e false db = Reaches-refl db
    mark_failed-IsCalls e true db = (
      transition_file p.file_id DataFileStatus.failed none none (some (message e)) clock.failed_at
          ∷ [],
      ground arith,
    )

    fail_file-IsCalls : (e : FlushError) → IsCalls (fail_file message p clock e)
    unfolding fail_file get_data_file
    fail_file-IsCalls e =
        bind-IsCalls (in_store (get_data_file p.file_id))
          (λ current. mark_failed message p clock e (to_be_failed current) >> raise e)
          (same-IsCalls (in_store (get_data_file p.file_id)) (λ db. refl))
          (λ current.
            bind-IsCalls (mark_failed message p clock e (to_be_failed current)) (λ _. raise e)
              (mark_failed-IsCalls e (to_be_failed current)) (λ _ db. Reaches-refl db))

    write-IsCalls : (write_fails : Option String) → IsCalls (write_parquet write_fails)
    write-IsCalls none db = Reaches-refl db
    write-IsCalls (some m) db = Reaches-refl db

    body-IsCalls :
        (write_fails : Option String) (r : DataFileRecord)
        → IsCalls (flush_body p clock write_fails r)
    body-IsCalls write_fails r =
        bind-IsCalls (write_parquet write_fails)
          (λ _. download p clock r >>= λ r'. validate p clock r') (write-IsCalls write_fails)
          (λ _.
            bind-IsCalls (download p clock r) (λ r'. validate p clock r') (download-IsCalls r)
              validate-IsCalls)

    -- Whether or not it returns, and whatever fails in it, a flush changes the database as some
    -- sequence of calls of the store does, so that all that holds along such sequences holds of it.
    pub flush_partition-Reaches :
        (write_fails : Option String) (db : StateDb)
        → Reaches db (flush_partition message p clock write_fails db).1
    unfolding flush_partition
    flush_partition-Reaches write_fails =
        bind-IsCalls (in_store (register_data_file (registered p)))
          (λ r. try_except (flush_body p clock write_fails r) (fail_file message p clock))
          register-IsCalls
          (λ r.
            try_except-Moves Reaches Reaches-refl Reaches-trans (flush_body p clock write_fails r)
              (fail_file message p clock) (body-IsCalls write_fails r) fail_file-IsCalls)
