-- ===== src/Experiments/PlanSamples.antt =====
-- A sample plan for `register` of research/experiments/campaign_runner.py, and the theorem on it.
use binance_algo.Base.{refl, All, true, ◌==◌, ◌+◌, ◌≡◌, [], if◌then◌else◌, ◌∷◌, none, String, ℕ}
use binance_algo.Experiments.Registration.{
  register, PlannedTrial, CampaignPlan, register_trials, register_trial,
}
use binance_algo.Experiments.Planned.{Stands}
use binance_algo.Registry.Campaigns.{
  planned_campaign, campaign_agrees, insert_or_ignore_campaign, register_campaign,
}
use binance_algo.Registry.Schema.{FeatureSetRow, RegistryDb, HypothesisRow}
use binance_algo.Registry.Experiments.{
  ExperimentSpec, register_experiment, associate_campaign_experiment,
}
use binance_algo.Experiments.Plans.{register-Stands}
use binance_algo.Registry.Status.{HypothesisStatus}
use binance_algo.Table.{select, insert_or_ignore}

abbrev momentum : HypothesisRow
momentum = record {
  hypothesis_id = "h1";
  title = "Momentum";
  mechanism = "Trends persist.";
  expected_direction = none;
  expected_horizon = none;
  target_universe = none;
  preregistered_success_criteria_json = "{}";
  status = HypothesisStatus.ready;
  created_at_ms = 1;
  updated_at_ms = 1;
  notes = none;
}

abbrev returns_v1 : FeatureSetRow
returns_v1 = record {
  feature_set_id = "f1";
  name = "returns";
  version = "1";
  description = "Returns of one bar.";
  spec_json = "{}";
  spec_sha256 = "f1";
  created_at_ms = 2;
}

abbrev ready_db : RegistryDb ℕ
ready_db = record {
  hypotheses = momentum ∷ [];
  campaigns = [];
  feature_sets = returns_v1 ∷ [];
  experiments = [];
  campaign_experiments = [];
  runs = [];
  metrics = [];
  artifacts = [];
  promotions = [];
}

abbrev seeded : ℕ → ExperimentSpec
seeded seed = record {
  hypothesis_id = "h1";
  dataset_id = "d1";
  universe_version = "u1";
  feature_set_id = "f1";
  label_id = "l1";
  strategy_id = "s1";
  strategy_version = "1";
  portfolio_policy_id = "p1";
  execution_model_id = "x1";
  cost_model_id = "c1";
  split_plan_id = "sp1";
  random_seed = seed;
  unwritten = "{}";
  code_fingerprint = "{}";
}

-- The digest and the text of a specification, by its seed.
abbrev seed_text : ExperimentSpec → String
seed_text spec = if spec.random_seed == 7 then "e7" else "e8"

abbrev planned_trial : ℕ → ℕ → PlannedTrial
planned_trial seed ordinal = record {
  spec = seeded seed;
  experiment_id = seed_text (seeded seed);
  ordinal = ordinal;
  tags_json = "{}";
  registered_at = 5 + ordinal;
}

abbrev two_seeds : CampaignPlan
two_seeds = record {
  definition = record {
    identifier = "c1";
    name = "seeds";
    description = "Two seeds.";
    hypothesis_id = "h1";
    spec_json = "{}";
    trial_count = 2;
  };
  trials = planned_trial 7 0 ∷ planned_trial 8 1 ∷ [];
  registered_at = 4;
}

register-Stands_example :
    (campaign_agrees two_seeds.definition (planned_campaign two_seeds.definition 4) ≡ true)
    × All
        (λ t. Stands seed_text "c1" t (register seed_text seed_text two_seeds ready_db).1)
        two_seeds.trials
unfolding register register_trials register_trial register_experiment associate_campaign_experiment
    register_campaign insert_or_ignore campaign_agrees select insert_or_ignore_campaign
register-Stands_example =
    register-Stands seed_text seed_text two_seeds ready_db
      {c = planned_campaign two_seeds.definition 4} refl
