-- ===== src/Registry/Runs.antt =====
-- The methods of research/experiments/store.py on experiment runs.
use binance_algo.Base.{
  contains, ◌+◌, map, sort_strings, is_some, ltb, ◌==◌, ◌&&◌, not, err, ◌||◌, coalesce, length,
  if◌then◌else◌, ok, str_eq, ℕ, String, Bool, true, Option, none, some, List, [], ◌∷◌, ◌++◌,
}
use binance_algo.Transaction.{
  pure, modify, raise_if, or_raise, ◌>>=◌, ◌>>◌, gets, Exec, transaction,
}
use binance_algo.Registry.Schema.{
  disappeared, sqlite_error, heartbeat_not_running, unknown_run, unknown_experiment,
  digest_not_allowed, no_metrics_or_artifacts, no_result_digest, invalid_run_transition,
  ArtifactRow, ExperimentRow, RegistryError, MetricRow, ExperimentRunRecord, RegistryDb,
}
use binance_algo.Table.{update, select_all, select}
use Prim.Native.Nat.{max}
use binance_algo.Registry.Status.{
  run_is_succeeded, run_transition, run_is_finished, run_is_running, RunStatus,
}

abbrev pub Action : Type 0 → Type 0 → Type 0
Action Float = Exec (RegistryDb Float) RegistryError

-- `WHERE run_id = ?`
abbrev pub has_run_id : String → ExperimentRunRecord → Bool
has_run_id k r = str_eq r.run_id k

abbrev pub has_experiment_id : String → ExperimentRow → Bool
has_experiment_id k e = str_eq e.experiment_id k

abbrev pub run_of_experiment : String → ExperimentRunRecord → Bool
run_of_experiment k r = str_eq r.experiment_id k

abbrev pub run_key : ExperimentRunRecord → String
run_key r = r.run_id

-- `COALESCE(MAX(attempt), 0)` over the runs of an experiment.
unfoldable pub last_attempt : String → List ExperimentRunRecord → ℕ
last_attempt k [] = 0
last_attempt k (r ∷ rs) =
    let rest = last_attempt k rs in if run_of_experiment k r then max r.attempt rest else rest

-- The primary key, and `UNIQUE(experiment_id, attempt)`.
abbrev pub same_run : ExperimentRunRecord → ExperimentRunRecord → Bool
same_run r s =
    str_eq s.run_id r.run_id || (str_eq s.experiment_id r.experiment_id && s.attempt == r.attempt)

abbrev pub new_run : String → String → ℕ → ℕ → ExperimentRunRecord
new_run run_id experiment_id attempt now = record {
  run_id = run_id;
  experiment_id = experiment_id;
  attempt = attempt;
  status = RunStatus.pending;
  worker_id = none;
  host_name = none;
  process_id = none;
  started_at_ms = none;
  heartbeat_at_ms = none;
  finished_at_ms = none;
  runtime = none;
  result_digest = none;
  error_type = none;
  error_message = none;
  traceback_path = none;
  created_at_ms = now;
}

-- The keyword arguments of `transition_run`.
pub record RunUpdate : Type 0 where
  pub result_digest_value : Option String
  pub worker_id : Option String
  pub host_name : Option String
  pub process_id : Option ℕ
  pub error_type : Option String
  pub error_message : Option String
  pub traceback_path : Option String

-- `not result_digest_value`
abbrev pub is_falsy : Option String → Bool
is_falsy none = true
is_falsy (some s) = str_eq s ""

abbrev pub started : RunStatus → ℕ → Option ℕ → Option ℕ
started status now none = if run_is_running status then some now else none
started status now (some t) = some t

abbrev runtime_of : Option ℕ → Option ℕ → Option (ℕ × ℕ)
runtime_of (some s) (some f) = some (s, f)
runtime_of _ _ = none

-- `UPDATE research_experiment_runs SET …` of `transition_run`
abbrev pub run_transitioned : RunStatus → RunUpdate → ℕ → ExperimentRunRecord → ExperimentRunRecord
run_transitioned status u now r =
    let start = started status now r.started_at_ms in
    let finish : Option ℕ = if run_is_finished status then some now else none in
    record r {
      status = status;
      worker_id = coalesce u.worker_id r.worker_id;
      host_name = coalesce u.host_name r.host_name;
      process_id = coalesce u.process_id r.process_id;
      started_at_ms = start;
      heartbeat_at_ms = if run_is_running status then some now else r.heartbeat_at_ms;
      finished_at_ms = finish;
      runtime = runtime_of start finish;
      result_digest = u.result_digest_value;
      error_type = u.error_type;
      error_message = u.error_message;
      traceback_path = u.traceback_path;
    }

abbrev pub artifact_of : String → ArtifactRow → Bool
artifact_of k a = str_eq a.run_id k

-- The checks of `transition_run` before its `UPDATE`.
unfoldable pub run_checks : RunStatus → RunStatus → Option String → ℕ → ℕ → Option RegistryError
run_checks current status digest metric_count artifact_count =
    if not (run_transition current status)
    then some (invalid_run_transition current status)
    else if run_is_succeeded status && is_falsy digest
    then some no_result_digest
    else if run_is_succeeded status && (metric_count == 0 || artifact_count == 0)
    then some no_metrics_or_artifacts
    else if not (run_is_succeeded status) && is_some digest
    then some digest_not_allowed
    else none

abbrev pub beaten : ℕ → ExperimentRunRecord → ExperimentRunRecord
beaten t r = record r { heartbeat_at_ms = some t }

abbrev pub timestamp_or : Option ℕ → ℕ → ℕ
timestamp_or none now = now
timestamp_or (some t) now = t

abbrev last_sign : ExperimentRunRecord → ℕ
last_sign r = timestamp_or (coalesce r.heartbeat_at_ms r.started_at_ms) r.created_at_ms

-- The clause of `mark_stale_runs`.
unfoldable pub is_stale_before : ℕ → ExperimentRunRecord → Bool
is_stale_before t r = run_is_running r.status && ltb (last_sign r) t

abbrev pub staled : ExperimentRunRecord → ExperimentRunRecord
staled r = record r { status = RunStatus.stale }

module _ {Float : Type 0} where
  abbrev pub find_run : String → RegistryDb Float → Option ExperimentRunRecord
  find_run k db = select (has_run_id k) db.runs

  abbrev pub metric_of : String → MetricRow Float → Bool
  metric_of k m = str_eq m.run_id k

  unfoldable pub get_run : String → Action Float (Option ExperimentRunRecord)
  get_run k = gets (find_run k)

  -- `run_id_digest` is `deterministic_run_id`: a hash of the experiment and the attempt.
  unfoldable pub create_run : (String → ℕ → String) → String → ℕ → Action Float ExperimentRunRecord
  create_run run_id_digest identifier now = do
    created ← transaction (do
      exists ← gets (λ db. select (has_experiment_id identifier) db.experiments)
      raise_if (not (is_some exists)) (unknown_experiment identifier)
      last ← gets (λ db. last_attempt identifier db.runs)
      let run = new_run (run_id_digest identifier (last + 1)) identifier (last + 1) now
      taken ← gets (λ db. select (same_run run) db.runs)
      raise_if (is_some taken) sqlite_error
      modify (λ db. record db { runs = db.runs ++ (run ∷ []) })
      gets (find_run run.run_id))
    or_raise created (disappeared identifier)

  abbrev pub raise_some : Option RegistryError → Action Float (Unit {0})
  raise_some none db = (ok tt, db)
  raise_some (some e) db = (err e, db)

  abbrev pub metric_count : String → RegistryDb Float → ℕ
  metric_count k db = length (select_all (metric_of k) db.metrics)

  abbrev pub artifact_count : String → RegistryDb Float → ℕ
  artifact_count k db = length (select_all (artifact_of k) db.artifacts)

  unfoldable pub transition_run :
      String → RunStatus → RunUpdate → ℕ → Action Float ExperimentRunRecord
  transition_run k status u now = do
    updated ← transaction (do
      row ← gets (find_run k)
      r ← or_raise row (unknown_run k)
      metrics ← gets (metric_count k)
      artifacts ← gets (artifact_count k)
      raise_some (run_checks r.status status u.result_digest_value metrics artifacts)
      modify
          (λ db. record db { runs = update (has_run_id k) (run_transitioned status u now) db.runs })
      gets (find_run k))
    or_raise updated (disappeared k)

  unfoldable pub heartbeat_run : String → Option ℕ → ℕ → Action Float (Unit {0})
  heartbeat_run k timestamp_ms now = transaction (do
    row ← gets (find_run k)
    r ← or_raise row (unknown_run k)
    raise_if (not (run_is_running r.status)) heartbeat_not_running
    modify (λ db. record db {
      runs = update (has_run_id k) (beaten (timestamp_or timestamp_ms now)) db.runs;
    }))

  -- `WHERE run_id IN (…)` names the runs just selected.
  unfoldable pub mark_stale_runs : ℕ → Action Float (List String)
  mark_stale_runs t = transaction (do
    rows ← gets (λ db. select_all (is_stale_before t) db.runs)
    let run_ids = sort_strings (map run_key rows)
    modify (λ db. record db { runs = update (λ r. contains r.run_id run_ids) staled db.runs })
    pure run_ids)
