-- ===== src/Experiments/CampaignRunner.antt =====
-- `CampaignRunner.run` of research/experiments/campaign_runner.py from the campaign that `register`
-- returns on, with one worker. Whether the files of a run verify is an argument.
use binance_algo.Base.{
  ℕ, String, Bool, true, false, Option, none, some, List, [], ◌∷◌, Result, ok, err, is_some, not,
  ◌+◌, ◌-◌, length, if◌then◌else◌, map, ◌==◌, is_empty, ◌&&◌,
}
use binance_algo.Experiments.Runner.{
  campaign_cannot_run, digest_missing, or_work_error, run_experiment, in_store, RunnerError,
  RunnerAction, WorkError, Attempt,
}
use binance_algo.Registry.Campaigns.{transition_campaign}
use binance_algo.Registry.Status.{campaign_is_running, CampaignStatus}
use binance_algo.Registry.Reads.{latest_success}
use binance_algo.Registry.Schema.{CampaignRecord, RegistryDb, ExperimentRunRecord}
use binance_algo.Registry.Promotions.{PromotionEventSpec}
use binance_algo.Transaction.{pure, raise_if, ◌>>=◌, ◌>>◌}
use binance_algo.Table.{select_all}

-- An experiment of a plan, and what happens when it is executed.
pub record Trial (Float : Type 0) : Type 0 where
  pub experiment_id : String
  pub attempt : Attempt Float

-- The readings of the clock by the calls of the registry, and what the comparison of the trials
-- comes to.
pub record CampaignEvents : Type 0 where
  pub queued_at : ℕ
  pub running_at : ℕ
  pub finished_at : ℕ
  pub comparison : Result WorkError (Unit {0})

pub record CampaignRunResult : Type 0 where
  pub campaign : CampaignRecord
  pub planned_count : ℕ
  pub cache_hit_count : ℕ
  pub executed_count : ℕ
  pub succeeded_count : ℕ
  pub failed_count : ℕ
  pub failed_experiments : List String

abbrev pub campaign_run_result : CampaignRecord → ℕ → ℕ → ℕ → ℕ → List String → CampaignRunResult
campaign_run_result c planned hits executed succeeded failures = record {
  campaign = c;
  planned_count = planned;
  cache_hit_count = hits;
  executed_count = executed;
  succeeded_count = succeeded;
  failed_count = length failures;
  failed_experiments = failures;
}

abbrev pub campaign_is_planned : CampaignStatus → Bool
campaign_is_planned CampaignStatus.planned = true
campaign_is_planned _ = false

abbrev pub campaign_is_completed : CampaignStatus → Bool
campaign_is_completed CampaignStatus.completed = true
campaign_is_completed _ = false

-- `campaign.status in {CampaignStatus.QUEUED, CampaignStatus.PARTIAL}`
abbrev pub campaign_may_start : CampaignStatus → Bool
campaign_may_start CampaignStatus.queued = true
campaign_may_start CampaignStatus.partial = true
campaign_may_start _ = false

unfoldable pub final_status : ℕ → ℕ → CampaignStatus
final_status succeeded planned =
    if succeeded == planned
    then CampaignStatus.completed
    else if succeeded == 0
    then CampaignStatus.failed
    else CampaignStatus.partial

-- `verified` is `experiment_runner.verify_run(…).valid`.
abbrev pub success_is_valid : (String → Bool) → Option ExperimentRunRecord → Bool
success_is_valid verified none = false
success_is_valid verified (some r) = verified r.run_id

module _ {Float : Type 0} where
  unfoldable pub is_cached : (String → Bool) → RegistryDb Float → Trial Float → Bool
  is_cached verified db t = success_is_valid verified (latest_success t.experiment_id db.runs)

  abbrev pub trial_id : Trial Float → String
  trial_id t = t.experiment_id

  -- `latest_successful_run` for every trial in turn, which only reads.
  abbrev pub cache_hits :
      (String → Bool) → List (Trial Float) → RegistryDb Float → List (Trial Float)
  cache_hits verified trials db = select_all (is_cached verified db) trials

  abbrev pub pending_trials :
      (String → Bool) → List (Trial Float) → RegistryDb Float → List (Trial Float)
  pending_trials verified trials db = select_all (λ t. not (is_cached verified db t)) trials

  -- `if campaign.status is PLANNED`
  abbrev pub queue_campaign : CampaignRecord → ℕ → RunnerAction Float CampaignRecord
  queue_campaign c now =
      if campaign_is_planned c.status
      then in_store (transition_campaign c.campaign_id CampaignStatus.queued none now)
      else pure c

  -- `if campaign.status in {QUEUED, PARTIAL}`
  abbrev pub start_campaign : CampaignRecord → ℕ → RunnerAction Float CampaignRecord
  start_campaign c now =
      if campaign_may_start c.status
      then in_store (transition_campaign c.campaign_id CampaignStatus.running none now)
      else pure c

-- `failure_text` is the text of the failures that the registry keeps.
module _ {Float : Type 0} (is_finite : Float → Bool) (float_eq : Float → Float → Bool)
    (sha256 : List String → String) (run_id_digest : String → ℕ → String)
    (canonical_sha256 : PromotionEventSpec → String) (type_name message : RunnerError → String)
    (failure_text : List String → String) where
  -- `_execute_trial_worker`
  unfoldable pub execute_trial : Trial Float → RunnerAction Float (Unit {0})
  execute_trial t = do
    r ←
        run_experiment is_finite float_eq sha256 run_id_digest canonical_sha256 type_name message
          t.experiment_id t.attempt
    raise_if (not (is_some r.result_digest)) digest_missing

  -- `_execute_pending` with `max_workers == 1`: the experiments that failed, or were not executed.
  unfoldable pub execute_pending :
      Bool → List (Trial Float) → RegistryDb Float → List String × RegistryDb Float
  execute_pending fail_fast [] db = ([], db)
  execute_pending fail_fast (t ∷ trials) db =
      let (result, after) = execute_trial t db in
      let (failures, last) = execute_pending fail_fast trials after in
      elim result [
        | ok _ ↦ (failures, last)
        | err _ ↦
            if fail_fast
            then (t.experiment_id ∷ map trial_id trials, after)
            else (t.experiment_id ∷ failures, last)
      ]

  abbrev pub last_error : List String → Option String
  last_error failures = if is_empty failures then none else some (failure_text failures)

  -- `run` from the execution of the pending trials on.
  unfoldable pub finish_campaign :
      CampaignRecord
      → Bool
      → ℕ
      → ℕ
      → List (Trial Float)
      → CampaignEvents
      → RunnerAction Float CampaignRunResult
  finish_campaign c fail_fast planned hits pending events db =
      let (failures, executed) = execute_pending fail_fast pending db in
      let succeeded = hits + length pending - length failures in
      let finished : RunnerAction Float CampaignRunResult = do
        final ← in_store (
            transition_campaign c.campaign_id (final_status succeeded planned) (last_error failures)
              events.finished_at)
        or_work_error events.comparison
        pure (campaign_run_result final planned hits (length pending) succeeded failures)
      in finished executed

  -- `run` when there is nothing to do.
  unfoldable pub completed_before :
      CampaignRecord → ℕ → ℕ → CampaignEvents → RunnerAction Float CampaignRunResult
  completed_before c planned hits events = do
    or_work_error events.comparison
    pure (campaign_run_result c planned hits 0 hits [])

  unfoldable pub run_campaign :
      (String → Bool)
      → CampaignRecord
      → Bool
      → List (Trial Float)
      → CampaignEvents
      → RunnerAction Float CampaignRunResult
  run_campaign verified c fail_fast trials events db =
      let hits = cache_hits verified trials db in
      let pending = pending_trials verified trials db in
      let executed : RunnerAction Float CampaignRunResult = do
        queued ← queue_campaign c events.queued_at
        running ← start_campaign queued events.running_at
        raise_if (not (campaign_is_running running.status)) (campaign_cannot_run running.status)
        finish_campaign running fail_fast (length trials) (length hits) pending events
      in if is_empty pending && campaign_is_completed c.status
        then completed_before c (length trials) (length hits) events db
        else executed db
