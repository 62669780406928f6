-- ===== src/Registry/Samples.antt =====
-- Sample registries for research/experiments/store.py, and the theorems on them.
use binance_algo.Base.{
  ◌↔◌, arith, ◌+◌, str_eq, map, sort_strings, ◌≡◌, if◌then◌else◌, ◌==◌, refl, ℕ, String, Bool, true,
  none, some, List, [], ◌∷◌, ok,
}
use binance_algo.Registry.RunTrace.{EachSteps, run_calls-EachSteps}
use binance_algo.Registry.RunHistory.{IsSilent, mark_stale_runs-exactly}
use binance_algo.Registry.Completion.{succeeded_run, complete_run-completes}
use binance_algo.Registry.AddedOutputs.{stored_artifact}
use binance_algo.Registry.Attempts.{HasPrevious, pending_run, create_run-next, IsNextAttempt}
use binance_algo.Registry.Schema.{
  ExperimentRow, PromotionRecord, RegistryDb, ExperimentRunRecord, MetricRow,
}
use binance_algo.Registry.Atomic.{writes-IsAtomic}
use binance_algo.Registry.Status.{
  HypothesisStatus, run_is_running, RunStatus, PromotionDecision, MetricScope, ResearchStage,
}
use binance_algo.Registry.Campaigns.{
  HypothesisSpec, register_hypothesis, register_campaign, CampaignDefinition,
}
use binance_algo.Registry.History.{run_calls-OutputsKept}
use binance_algo.Registry.Permanent.{OutputsKept}
use binance_algo.Registry.Runs.{
  run_key, find_run, last_attempt, create_run, mark_stale_runs, new_run,
}
use binance_algo.Registry.Stages.{
  record_promotion_event-StageMove, StageMove, replayed-agrees, stage_of,
}
use binance_algo.Registry.Outputs.{
  insert_artifact, insert_artifacts, insert_metric, insert_metrics, complete_run, ArtifactOutput,
}
use binance_algo.Registry.Promotions.{
  record_promotion_event, research_stage_from, current_research_stage, insert_by_time,
  order_by_time, PromotionEventSpec, replayed,
}
use binance_algo.Table.{update, select_all, select}
use binance_algo.Registry.Ops.{
  call_mark_stale_runs, call_complete_run, run_calls, call_create_run, RegistryCall,
}
use binance_algo.Registry.Soundness.{run_calls-RunsAreSound}
use binance_algo.Transaction.{IsAtomic}
use binance_algo.Registry.RunInvariant.{RunsAreSound}

-- Metric values in percent.
abbrev any_percent : ℕ → Bool
any_percent v = true

abbrev same_percent : ℕ → ℕ → Bool
same_percent a b = a == b

abbrev first_of : List String → String
first_of [] = ""
first_of (s ∷ ss) = s

abbrev run_id_of : String → ℕ → String
run_id_of e n = if n == 1 then "run1" else if n == 2 then "run2" else "run3"

abbrev promotion_id_of : PromotionEventSpec → String
promotion_id_of spec = spec.reason

abbrev first_run : ExperimentRunRecord
first_run = record (new_run "run1" "e1" 1 10) {
  status = RunStatus.running;
  started_at_ms = some 12;
  heartbeat_at_ms = some 15;
}

abbrev sharpe : MetricRow ℕ
sharpe = record {
  run_id = "run1";
  scope = MetricScope.test;
  fold = some 0;
  regime = none;
  metric_name = "sharpe";
  metric_value = 120;
  metadata_json = "{}";
}

abbrev equity : ArtifactOutput
equity = record {
  artifact_type = "equity";
  path = "equity.parquet";
  checksum_sha256 = "abc";
  row_count = some 24;
  size_bytes = 1024;
  schema_version = 1;
  inserted_at_ms = 30;
}

abbrev promoted : PromotionRecord
promoted = record {
  promotion_id = "p1";
  experiment_id = "e1";
  from_stage = ResearchStage.discovery;
  to_stage = ResearchStage.candidate;
  decision = PromotionDecision.approved;
  criteria_snapshot_json = "{}";
  reason = "p1";
  created_at_ms = 20;
  code_fingerprint_json = "{}";
}

abbrev rejection : PromotionEventSpec
rejection = record {
  experiment_id = "e1";
  from_stage = ResearchStage.candidate;
  to_stage = ResearchStage.rejected;
  decision = PromotionDecision.rejected;
  criteria_snapshot = "{}";
  reason = "p2";
  code_fingerprint = "{}";
}

abbrev pub first_experiment : ExperimentRow
first_experiment = record {
  experiment_id = "e1";
  experiment_sha256 = "e1";
  hypothesis_id = "h1";
  spec_json = "{}";
  dataset_id = "d1";
  universe_version = "u1";
  feature_set_id = "fs1";
  label_id = "l1";
  strategy_id = "s1";
  strategy_version = "1";
  portfolio_policy_id = "p1";
  execution_model_id = "x1";
  cost_model_id = "c1";
  split_plan_id = "sp1";
  random_seed = 7;
  code_fingerprint_json = "{}";
  created_at_ms = 1;
}

abbrev one_run : RegistryDb ℕ
one_run = record {
  hypotheses = [];
  campaigns = [];
  feature_sets = [];
  experiments = first_experiment ∷ [];
  campaign_experiments = [];
  runs = first_run ∷ [];
  metrics = [];
  artifacts = [];
  promotions = promoted ∷ [];
}

one_run-RunsAreSound : RunsAreSound one_run
unfolding select select_all
one_run-RunsAreSound = ((refl, tt), ((refl, refl, refl), tt))

abbrev some_calls : List (RegistryCall ℕ)
some_calls =
    call_create_run "e1" 25
    ∷ call_complete_run "run1" "digest" (sharpe ∷ []) (equity ∷ []) 30
    ∷ call_mark_stale_runs 40
    ∷ []

run_calls-RunsAreSound_example :
    RunsAreSound
      (run_calls any_percent same_percent first_of run_id_of promotion_id_of some_calls one_run)
run_calls-RunsAreSound_example =
    run_calls-RunsAreSound any_percent same_percent first_of run_id_of promotion_id_of some_calls
      one_run one_run-RunsAreSound

run_calls-EachSteps_example :
    EachSteps any_percent same_percent first_of run_id_of promotion_id_of some_calls one_run
run_calls-EachSteps_example =
    run_calls-EachSteps any_percent same_percent first_of run_id_of promotion_id_of some_calls
      one_run one_run-RunsAreSound

mark_stale_runs-exactly_example :
    (silent : ExperimentRunRecord → Bool) × ((r : ExperimentRunRecord)
      → (silent r ≡ true) ↔ IsSilent 20 r)
    × (mark_stale_runs 20 one_run ≡ (
      ok (sort_strings (map run_key (select_all silent one_run.runs))),
      record one_run {
        runs =
            map
              (λ (r : ExperimentRunRecord).
                if silent r then record r { status = RunStatus.stale } else r)
              one_run.runs;
      },
    ))
unfolding select
mark_stale_runs-exactly_example = mark_stale_runs-exactly 20 one_run (refl, tt)

create_run-next_example :
    (last : ℕ) × HasPrevious "e1" last one_run.runs
    × IsNextAttempt "e1" (last + 1) one_run.runs
    × (create_run run_id_of "e1" 25 one_run ≡ (
      ok (pending_run (run_id_of "e1" (last + 1)) "e1" (last + 1) 25),
      record one_run {
        runs = first_run ∷ pending_run (run_id_of "e1" (last + 1)) "e1" (last + 1) 25 ∷ [];
      },
    ))
unfolding select last_attempt
create_run-next_example = create_run-next run_id_of "e1" 25 one_run refl refl

complete_run-completes_example :
    let after =
      (complete_run any_percent same_percent first_of "run1" "digest"
        (sharpe ∷ [])
        (equity ∷ [])
        30
        one_run).1 in
    (before : ExperimentRunRecord) × (find_run "run1" one_run ≡ some before)
    × (run_is_running before.status ≡ true)
    × (succeeded_run "digest" 30 first_run ≡ succeeded_run "digest" 30 before)
    × ((j : String)
        → find_run j after ≡ (
            if str_eq "run1" j
            then some (succeeded_run "digest" 30 first_run)
            else find_run j one_run))
    × (after.metrics ≡ sharpe ∷ [])
    × (after.artifacts ≡ stored_artifact any_percent same_percent first_of "run1" equity ∷ [])
unfolding complete_run insert_metrics insert_metric insert_artifacts insert_artifact select update
complete_run-completes_example =
    complete_run-completes any_percent same_percent first_of "run1" "digest" (sharpe ∷ [])
      (equity ∷ []) 30 one_run refl

replayed-agrees_example :
    replayed ResearchStage.discovery (promoted ∷ []) ≡ current_research_stage (promoted ∷ [])
replayed-agrees_example = replayed-agrees (promoted ∷ [])

record_promotion_event-StageMove_example :
    (t : ResearchStage) × (stage_of "e1"
        (record_promotion_event promotion_id_of rejection 30 one_run).1.promotions
      ≡ some t)
    × StageMove ResearchStage.candidate t
unfolding select_all order_by_time insert_by_time current_research_stage research_stage_from
record_promotion_event-StageMove_example =
    record_promotion_event-StageMove promotion_id_of rejection 30 one_run "e1" (ground arith, tt)
      refl

run_calls-OutputsKept_example :
    OutputsKept one_run
      (run_calls any_percent same_percent first_of run_id_of promotion_id_of some_calls one_run)
run_calls-OutputsKept_example =
    run_calls-OutputsKept any_percent same_percent first_of run_id_of promotion_id_of some_calls
      one_run

abbrev a_campaign : CampaignDefinition
a_campaign = record {
  identifier = "c1";
  name = "momentum";
  description = "text";
  hypothesis_id = "h1";
  spec_json = "{}";
  trial_count = 3;
}

abbrev a_hypothesis : HypothesisSpec
a_hypothesis = record {
  hypothesis_id = "h1";
  title = "momentum";
  mechanism = "text";
  expected_direction = none;
  expected_horizon = none;
  target_universe = none;
  preregistered_success_criteria = "{}";
  status = HypothesisStatus.draft;
  notes = none;
}

writes-IsAtomic_example :
    IsAtomic one_run (
      complete_run any_percent same_percent first_of "run1" "digest"
        (sharpe ∷ sharpe ∷ [])
        (equity ∷ [])
        30
        one_run)
    × IsAtomic one_run (create_run run_id_of "e2" 30 one_run)
    × IsAtomic one_run (register_campaign a_campaign 30 one_run)
    × IsAtomic one_run (register_hypothesis a_hypothesis 30 one_run)
writes-IsAtomic_example =
    writes-IsAtomic any_percent same_percent first_of run_id_of "run1" "digest"
      (sharpe ∷ sharpe ∷ []) (equity ∷ []) "e2" a_campaign a_hypothesis 30 one_run
