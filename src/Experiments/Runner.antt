-- ===== src/Experiments/Runner.antt =====
-- `ExperimentRunner.run` of research/experiments/runner.py, and the errors of the workflows. What the computation and the files give
-- is an argument; while it runs, a thread beats and other processes call the registry.
use binance_algo.Base.{
  if◌then◌else◌, ℕ, String, Bool, true, false, Option, none, some, List, [], ◌∷◌, Result, ok, err,
  is_some, not,
}
use binance_algo.Registry.Status.{CampaignStatus, RunStatus, run_is_running}
use binance_algo.Transaction.{try_except, raise_if, raise, gets, ◌>>=◌, ◌>>◌, pure, Exec}
use binance_algo.Registry.Runs.{
  create_run, has_experiment_id, transition_run, get_run, heartbeat_run, Action, RunUpdate,
}
use binance_algo.Registry.Reads.{latest_successful_run}
use binance_algo.Table.{select}
use binance_algo.Registry.Outputs.{complete_run, option_str_eq, ArtifactOutput}
use binance_algo.Registry.Ops.{call, RegistryCall}
use binance_algo.Registry.Schema.{RegistryDb, ExperimentRunRecord, MetricRow, RegistryError}
use binance_algo.Registry.Promotions.{PromotionEventSpec}

-- An exception of the computation or of the files, by its type and its message.
pub record WorkError : Type 0 where
  pub type_name : String
  pub message : String

-- What `pipeline.persist` and the calls after it give.
pub record Bundle (Float : Type 0) : Type 0 where
  pub digest : String
  pub metric_records : List (MetricRow Float)
  pub artifacts : List ArtifactOutput
  pub is_verified : Bool

pub data RunnerError : Type 0 where
  store_error : RegistryError → RunnerError
  work_error : WorkError → RunnerError
  heartbeat_failed : RegistryError → RunnerError
  no_experiment : String → RunnerError
  determinism_violation verification_failed digest_missing : RunnerError
  campaign_cannot_run : CampaignStatus → RunnerError

-- An event while the run is under way: a beat of its thread, or a call of another process.
pub data Tick (Float : Type 0) : Type 0 where
  beat : ℕ → Tick Float
  other : RegistryCall Float → Tick Float

-- The readings of the clock by the calls of the registry, in their order.
pub record RunClock : Type 0 where
  pub created_at : ℕ
  pub queued_at : ℕ
  pub running_at : ℕ
  pub completed_at : ℕ
  pub failed_at : ℕ

-- What happens during a run: `saved` is the path of the traceback, or why the files of
-- the failed run cannot be moved to quarantine or the traceback cannot be written.
pub record Attempt (Float : Type 0) : Type 0 where
  pub clock : RunClock
  pub host_name : String
  pub process_id : ℕ
  pub ticks : List (Tick Float)
  pub work : Result WorkError (Bundle Float)
  pub saved : Result WorkError String

abbrev pub RunnerAction : Type 0 → Type 0 → Type 0
RunnerAction Float = Exec (RegistryDb Float) RunnerError

abbrev pub no_update : RunUpdate
no_update = record {
  result_digest_value = none;
  worker_id = none;
  host_name = none;
  process_id = none;
  error_type = none;
  error_message = none;
  traceback_path = none;
}

abbrev pub started_update : String → ℕ → RunUpdate
started_update host_name process_id = record no_update {
  worker_id = some "local";
  host_name = some host_name;
  process_id = some process_id;
}

abbrev pub failed_update : String → String → String → RunUpdate
failed_update error_type error_message traceback_path = record no_update {
  error_type = some error_type;
  error_message = some error_message;
  traceback_path = some traceback_path;
}

abbrev pub run_is_current : Option ExperimentRunRecord → Bool
run_is_current none = false
run_is_current (some r) = run_is_running r.status

-- The error of a beat, which ends `_beat`.
abbrev pub beat_error : Result RegistryError (Unit {0}) → Option RegistryError
beat_error (ok _) = none
beat_error (err e) = some e

module _ {Float : Type 0} where
  abbrev pub lifted :
      {A : Type 0}
      → Result RegistryError A × RegistryDb Float
      → Result RunnerError A × RegistryDb Float
  lifted (ok a, db) = (ok a, db)
  lifted (err e, db) = (err (store_error e), db)

  abbrev pub in_store : {A : Type 0} → Action Float A → RunnerAction Float A
  in_store m db = lifted (m db)

  abbrev pub or_work_error : {A : Type 0} → Result WorkError A → RunnerAction Float A
  or_work_error (ok a) db = (ok a, db)
  or_work_error (err e) db = (err (work_error e), db)

  -- The checks of `run` on a bundle, with the last success before it.
  unfoldable pub bundle_checked :
      Option ExperimentRunRecord
      → Result WorkError (Bundle Float)
      → Result RunnerError (Bundle Float)
  bundle_checked previous (err e) = err (work_error e)
  bundle_checked none (ok b) = if b.is_verified then ok b else err verification_failed
  bundle_checked (some p) (ok b) =
      if not (option_str_eq p.result_digest (some b.digest))
      then err determinism_violation
      else if b.is_verified
      then ok b
      else err verification_failed

  -- `_RunHeartbeat.__exit__`: an exception of the body comes before one of the thread.
  unfoldable pub heartbeat_exited :
      Option RegistryError → Result RunnerError (Bundle Float) → Result RunnerError (Bundle Float)
  heartbeat_exited (some e) (ok b) = err (heartbeat_failed e)
  heartbeat_exited _ result = result

-- `type_name` and `message` are `type(exc).__name__` and `str(exc)`.
module _ {Float : Type 0} (is_finite : Float → Bool) (float_eq : Float → Float → Bool)
    (sha256 : List String → String) (run_id_digest : String → ℕ → String)
    (canonical_sha256 : PromotionEventSpec → String)
    (type_name message : RunnerError → String) where
  -- `_RunHeartbeat._beat`: the thread ends at the first beat that raises.
  unfoldable pub beating :
      String
      → List (Tick Float)
      → Option RegistryError
      → RegistryDb Float
      → Option RegistryError × RegistryDb Float
  beating k [] error db = (error, db)
  beating k (other c ∷ ticks) error db =
      beating k ticks error (call is_finite float_eq sha256 run_id_digest canonical_sha256 c db)
  beating k (beat now ∷ ticks) (some e) db = beating k ticks (some e) db
  beating k (beat now ∷ ticks) none db =
      let (result, after) = heartbeat_run k none now db in beating k ticks (beat_error result) after

  -- `with _RunHeartbeat(…)`, with what its body gives.
  unfoldable pub with_heartbeat :
      String
      → List (Tick Float)
      → Result RunnerError (Bundle Float)
      → RunnerAction Float (Bundle Float)
  with_heartbeat k ticks result db =
      let (error, after) = beating k ticks none db in (heartbeat_exited error result, after)

  -- The body of the `try`.
  unfoldable pub run_body :
      Option ExperimentRunRecord → String → Attempt Float → RunnerAction Float ExperimentRunRecord
  run_body previous k a = do
    bundle ← with_heartbeat k a.ticks (bundle_checked previous a.work)
    in_store (
        complete_run is_finite float_eq sha256 k bundle.digest bundle.metric_records
          bundle.artifacts a.clock.completed_at)

  abbrev pub fail_current :
      Bool → String → Attempt Float → RunnerError → RunnerAction Float (Unit {0})
  fail_current false k a e = pure tt
  fail_current true k a e = do
    traceback_path ← or_work_error a.saved
    in_store (
        transition_run k RunStatus.failed (failed_update (type_name e) (message e) traceback_path)
          a.clock.failed_at)
    pure tt

  -- `except BaseException as exc`
  unfoldable pub fail_run :
      String → Attempt Float → RunnerError → RunnerAction Float ExperimentRunRecord
  fail_run k a e = do
    current ← in_store (get_run k)
    fail_current (run_is_current current) k a e
    raise e

  abbrev pub run_running :
      Option ExperimentRunRecord → String → Attempt Float → RunnerAction Float ExperimentRunRecord
  run_running previous k a = try_except (run_body previous k a) (fail_run k a)

  -- `run` from the run that it has created on.
  unfoldable pub run_created :
      Option ExperimentRunRecord → String → Attempt Float → RunnerAction Float ExperimentRunRecord
  run_created previous k a = do
    in_store (transition_run k RunStatus.queued no_update a.clock.queued_at)
    running ← in_store (
        transition_run k RunStatus.running (started_update a.host_name a.process_id)
          a.clock.running_at)
    run_running previous running.run_id a

  unfoldable pub run_experiment : String → Attempt Float → RunnerAction Float ExperimentRunRecord
  run_experiment identifier a = do
    spec ← gets (λ db. select (has_experiment_id identifier) db.experiments)
    raise_if (not (is_some spec)) (no_experiment identifier)
    previous ← in_store (latest_successful_run identifier)
    created ← in_store (create_run run_id_digest identifier a.clock.created_at)
    run_created previous created.run_id a
