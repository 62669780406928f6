-- ===== src/Registry/Completion.antt =====
-- `complete_run` of research/experiments/store.py.
use binance_algo.Base.{
  Option, none, some, map, ◌++◌, ok_injective, ◌∙◌, sym, ◌||◌, ap, eq_iff, Option-cases, str_eq,
  if◌then◌else◌, arith, ok, ◌≡◌, refl, inl, inr, ℕ, String, Bool, true, false, List, [], ◌∷◌,
  is_empty,
}
use binance_algo.Registry.Status.{RunStatus, run_is_running}
use binance_algo.Registry.AddedOutputs.{
  outputs_added-adds, outputs_added-rows, stored_artifact, outputs_added-Grows, outputs_added,
}
use binance_algo.Registry.Outputs.{run_completed, complete_run, ArtifactOutput}
use binance_algo.Registry.Runs.{run_key, find_run, has_run_id}
use binance_algo.Table.Laws.{select-update_key, select-update_self}
use binance_algo.Table.{update, select}
use binance_algo.Registry.Schema.{ExperimentRunRecord, RegistryDb, MetricRow}
use binance_algo.Registry.RunHistory.{complete_all}
use binance_algo.Transaction.{IsAtomic}
use binance_algo.Registry.RunGrowth.{Grows-RunsAreSound}
use binance_algo.Registry.RunInvariant.{RunsAreSound}
use mathlib.Core.Option

abbrev pub started_or : Option ℕ → ℕ → ℕ
started_or none now = now
started_or (some t) now = t

-- The run that a completion is to leave, from the run before it.
abbrev pub succeeded_run : String → ℕ → ExperimentRunRecord → ExperimentRunRecord
succeeded_run digest now r = record {
  run_id = r.run_id;
  experiment_id = r.experiment_id;
  attempt = r.attempt;
  status = RunStatus.succeeded;
  worker_id = r.worker_id;
  host_name = r.host_name;
  process_id = r.process_id;
  started_at_ms = r.started_at_ms;
  heartbeat_at_ms = r.heartbeat_at_ms;
  finished_at_ms = some now;
  runtime = some (started_or r.started_at_ms now, now);
  result_digest = some digest;
  error_type = none;
  error_message = none;
  traceback_path = none;
  created_at_ms = r.created_at_ms;
}

succeeded-run :
    (digest : String) (now : ℕ) (r : ExperimentRunRecord)
    → run_completed digest now r ≡ succeeded_run digest now r
succeeded-run digest now r = ground arith

module _ {Float : Type 0} (is_finite : Float → Bool) (float_eq : Float → Float → Bool)
    (sha256 : List String → String) where
  outputs_added-find :
      (k digest : String) (ms : List (MetricRow Float)) (outputs : List ArtifactOutput) (now : ℕ)
      (db : RegistryDb Float)
      → select (has_run_id k) (
          update
            (has_run_id k)
            (run_completed digest now)
            (outputs_added is_finite float_eq sha256 k ms outputs db).1.runs)
        ≡ Option.map (run_completed digest now) (find_run k db)
  outputs_added-find k digest ms outputs now db =
      rw ((outputs_added-Grows is_finite float_eq sha256 k ms outputs db).0)
        (select-update_self (has_run_id k) (run_completed digest now) db.runs (λ r mine. mine))

  -- A completion that raises, whatever check or constraint stops it, leaves no metric, no artifact
  -- and no change of the run behind.
  pub complete_run-IsAtomic :
      (k digest : String) (ms : List (MetricRow Float)) (outputs : List ArtifactOutput) (now : ℕ)
      (db : RegistryDb Float)
      → IsAtomic db (complete_run is_finite float_eq sha256 k digest ms outputs now db)
  unfolding complete_run
  complete_run-IsAtomic k digest ms outputs now db =
      ground (arith, outputs_added-find k digest ms outputs now db)

  pub complete_run-RunsAreSound :
      (k digest : String) (ms : List (MetricRow Float)) (outputs : List ArtifactOutput) (now : ℕ)
      (db : RegistryDb Float)
      → RunsAreSound db
      → RunsAreSound (complete_run is_finite float_eq sha256 k digest ms outputs now db).1
  unfolding complete_run
  complete_run-RunsAreSound k digest [] outputs now db h = ground (arith, h)
  complete_run-RunsAreSound k digest (m ∷ ms) [] now db h = ground (arith, h)
  complete_run-RunsAreSound k digest (m ∷ ms) (a ∷ rest) now db h =
      let after = (outputs_added is_finite float_eq sha256 k (m ∷ ms) (a ∷ rest) db).1 in
      let sound =
        Grows-RunsAreSound db after
          (outputs_added-Grows is_finite float_eq sha256 k (m ∷ ms) (a ∷ rest) db) h in
      ground (
        arith,
        h,
        sound,
        outputs_added-adds is_finite float_eq sha256 k m ms a rest db,
        complete_all k digest now after,
      )

  abbrev completed_db :
      String
      → String
      → List (MetricRow Float)
      → List ArtifactOutput
      → ℕ
      → RegistryDb Float
      → RegistryDb Float
  completed_db k digest ms outputs now db =
      let after = (outputs_added is_finite float_eq sha256 k ms outputs db).1 in
      record after { runs = update (has_run_id k) (run_completed digest now) after.runs }

  run_completes :
      (k digest : String) (ms : List (MetricRow Float)) (outputs : List ArtifactOutput) (now : ℕ)
      (db : RegistryDb Float) {before : ExperimentRunRecord}
      → find_run k db ≡ some before
      → (str_eq digest "" || is_empty ms || is_empty outputs) ≡ false
      → run_is_running before.status ≡ true
      → (outputs_added is_finite float_eq sha256 k ms outputs db).0 ≡ ok tt
      → complete_run is_finite float_eq sha256 k digest ms outputs now db
        ≡ (ok (run_completed digest now before), completed_db k digest ms outputs now db)
  unfolding complete_run
  run_completes k digest ms outputs now db {before} found given running added =
      ground (arith, outputs_added-find k digest ms outputs now db)

  checked :
      (k digest : String) (ms : List (MetricRow Float)) (outputs : List ArtifactOutput) (now : ℕ)
      (db : RegistryDb Float) {r before : ExperimentRunRecord}
      → (complete_run is_finite float_eq sha256 k digest ms outputs now db).0 ≡ ok r
      → find_run k db ≡ some before
      → ((str_eq digest "" || is_empty ms || is_empty outputs) ≡ false)
        × (run_is_running before.status ≡ true)
  unfolding complete_run
  checked k digest ms outputs now db done found = ground arith

  added_all :
      (k digest : String) (ms : List (MetricRow Float)) (outputs : List ArtifactOutput) (now : ℕ)
      (db : RegistryDb Float) {r before : ExperimentRunRecord}
      → (complete_run is_finite float_eq sha256 k digest ms outputs now db).0 ≡ ok r
      → find_run k db ≡ some before
      → (outputs_added is_finite float_eq sha256 k ms outputs db).0 ≡ ok tt
  unfolding complete_run
  added_all k digest ms outputs now db done found = ground arith

  known :
      (k digest : String) (ms : List (MetricRow Float)) (outputs : List ArtifactOutput) (now : ℕ)
      (db : RegistryDb Float) {r : ExperimentRunRecord}
      → (complete_run is_finite float_eq sha256 k digest ms outputs now db).0 ≡ ok r
      → (before : ExperimentRunRecord) × (find_run k db ≡ some before)
  unfolding complete_run
  known k digest ms outputs now db done = elim (Option-cases (find_run k db)) [
    | inl unknown ↦ ground arith
    | inr found ↦ found
  ]

  -- What a completion that returns has done: the run was running, it is now the record returned, the
  -- succeeded run with the digest and the end of this call and with no error; the other runs read as
  -- before; and the tables of metrics and artifacts are what they were, followed by the rows of the
  -- metrics and the artifacts of the call, in their order and under this run.
  pub complete_run-completes :
      (k digest : String) (ms : List (MetricRow Float)) (outputs : List ArtifactOutput) (now : ℕ)
      (db : RegistryDb Float) {r : ExperimentRunRecord}
      → (complete_run is_finite float_eq sha256 k digest ms outputs now db).0 ≡ ok r
      → let after = (complete_run is_finite float_eq sha256 k digest ms outputs now db).1 in
        (before : ExperimentRunRecord) × (find_run k db ≡ some before)
        × (run_is_running before.status ≡ true)
        × (r ≡ succeeded_run digest now before)
        × ((j : String) → find_run j after ≡ (if str_eq k j then some r else find_run j db))
        × (after.metrics ≡ db.metrics ++ map (λ (m : MetricRow Float). record m { run_id = k }) ms)
        × (after.artifacts
            ≡ db.artifacts ++ map (stored_artifact is_finite float_eq sha256 k) outputs)
  complete_run-completes k digest ms outputs now db {r} done =
      let (before, found) = known k digest ms outputs now db done in
      let (given, running) = checked k digest ms outputs now db done found in
      let added = added_all k digest ms outputs now db done found in
      let result = run_completes k digest ms outputs now db found given running added in
      let same = ok_injective (sym done ∙ ap (λ p. p.0) result) in
      let rows = outputs_added-rows is_finite float_eq sha256 k ms outputs db added in
      let runs = (outputs_added-Grows is_finite float_eq sha256 k ms outputs db).0 in
      (
        before,
        found,
        running,
        same ∙ succeeded-run digest now before,
        rw (ap (λ p. p.1) result) (λ j. found_after j before found same runs),
        rw (ap (λ p. p.1) result) rows.0,
        rw (ap (λ p. p.1) result) rows.1,
      )
    where
      found_after :
          (j : String) (before : ExperimentRunRecord)
          → find_run k db ≡ some before
          → r ≡ run_completed digest now before
          → (outputs_added is_finite float_eq sha256 k ms outputs db).1.runs ≡ db.runs
          → find_run j (completed_db k digest ms outputs now db)
            ≡ (if str_eq k j then some r else find_run j db)
      found_after j before found same runs = ground (
        arith,
        found,
        same,
        runs,
        eq_iff k j,
        select-update_key run_key k j (run_completed digest now) db.runs (λ s. refl),
      )
