-- ===== src/Experiments/Samples.antt =====
-- Sample runs and campaigns for research/experiments/runner.py and campaign_runner.py, and the
-- theorems on them.
use binance_algo.Base.{
  ℕ, String, Bool, true, false, none, some, List, [], ◌∷◌, ok, refl, ◌==◌, if◌then◌else◌,
}
use binance_algo.Experiments.CampaignLeaves.{run_campaign-AllAccounted, AllAccounted}
use binance_algo.Experiments.CampaignRunner.{run_campaign, Trial, CampaignEvents}
use binance_algo.Registry.Samples.{first_experiment}
use binance_algo.Registry.Schema.{CampaignRecord, RegistryDb, MetricRow}
use binance_algo.Registry.Status.{MetricScope, CampaignStatus}
use binance_algo.Registry.Ops.{call_mark_stale_runs}
use binance_algo.Experiments.Runner.{other, run_experiment, beat, Attempt, RunnerError}
use binance_algo.Experiments.Leaves.{run_experiment-Leaves, Leaves}
use binance_algo.Registry.RunInvariant.{RunsAreSound}
use binance_algo.Registry.Runs.{last_attempt}
use binance_algo.Registry.Outputs.{ArtifactOutput}
use binance_algo.Registry.Promotions.{PromotionEventSpec}

-- Metric values in percent.
abbrev any_percent : ℕ → Bool
any_percent v = true

abbrev same_percent : ℕ → ℕ → Bool
same_percent a b = a == b

abbrev first_of : List String → String
first_of [] = ""
first_of (s ∷ ss) = s

abbrev run_id_of : String → ℕ → String
run_id_of e n = if n == 1 then "run1" else if n == 2 then "run2" else "run3"

abbrev promotion_id_of : PromotionEventSpec → String
promotion_id_of spec = spec.reason

abbrev error_name : RunnerError → String
error_name e = "ResearchError"

abbrev sharpe : MetricRow ℕ
sharpe = record {
  run_id = "";
  scope = MetricScope.test;
  fold = some 0;
  regime = none;
  metric_name = "sharpe";
  metric_value = 120;
  metadata_json = "{}";
}

abbrev equity : ArtifactOutput
equity = record {
  artifact_type = "equity";
  path = "equity.parquet";
  checksum_sha256 = "abc";
  row_count = some 24;
  size_bytes = 1024;
  schema_version = 1;
  inserted_at_ms = 30;
}

abbrev planned_campaign_row : CampaignRecord
planned_campaign_row = record {
  campaign_id = "c1";
  name = "first";
  description = "two trials";
  hypothesis_id = "h1";
  spec_json = "{}";
  spec_sha256 = "c1";
  status = CampaignStatus.planned;
  created_at_ms = 5;
  started_at_ms = none;
  finished_at_ms = none;
  trial_count = 2;
  last_error = none;
}

abbrev idle : RegistryDb ℕ
idle = record {
  hypotheses = [];
  campaigns = planned_campaign_row ∷ [];
  feature_sets = [];
  experiments = first_experiment ∷ [];
  campaign_experiments = [];
  runs = [];
  metrics = [];
  artifacts = [];
  promotions = [];
}

idle-RunsAreSound : RunsAreSound idle
idle-RunsAreSound = (tt, tt)

-- A computation with one beat of its thread, and a sweep of stale runs.
abbrev one_attempt : Attempt ℕ
one_attempt = record {
  clock = record {
    created_at = 10;
    queued_at = 11;
    running_at = 12;
    completed_at = 30;
    failed_at = 31;
  };
  host_name = "host";
  process_id = 7;
  ticks = beat 20 ∷ other (call_mark_stale_runs 15) ∷ [];
  work = ok (record {
    digest = "digest";
    metric_records = sharpe ∷ [];
    artifacts = equity ∷ [];
    is_verified = true;
  });
  saved = ok "traceback.txt";
}

run_experiment-Leaves_example :
    Leaves any_percent same_percent first_of run_id_of promotion_id_of error_name error_name "e1"
      "run1" idle
      (run_experiment any_percent same_percent first_of run_id_of promotion_id_of error_name
        error_name "e1" one_attempt idle)
unfolding last_attempt
run_experiment-Leaves_example =
    run_experiment-Leaves any_percent same_percent first_of run_id_of promotion_id_of error_name
      error_name "e1" one_attempt "traceback.txt" idle refl

abbrev two_trials : List (Trial ℕ)
two_trials =
    record { experiment_id = "e1"; attempt = one_attempt }
    ∷ record { experiment_id = "e2"; attempt = one_attempt }
    ∷ []

abbrev campaign_events : CampaignEvents
campaign_events = record { queued_at = 8; running_at = 9; finished_at = 40; comparison = ok tt }

abbrev always : String → Bool
always run_id = true

run_campaign-AllAccounted_example :
    AllAccounted any_percent same_percent first_of run_id_of promotion_id_of error_name error_name
      first_of two_trials
      (run_campaign any_percent same_percent first_of run_id_of promotion_id_of error_name
        error_name first_of always planned_campaign_row false two_trials campaign_events idle)
run_campaign-AllAccounted_example =
    run_campaign-AllAccounted any_percent same_percent first_of run_id_of promotion_id_of error_name
      error_name first_of always planned_campaign_row false two_trials campaign_events idle
      idle-RunsAreSound
