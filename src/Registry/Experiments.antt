-- ===== src/Registry/Experiments.antt =====
-- `register_experiment` and `associate_campaign_experiment` of research/experiments/store.py.
use binance_algo.Base.{ℕ, String, Bool, ◌&&◌, ◌||◌, not, ◌==◌, str_eq, is_some}
use binance_algo.Table.{select, insert_or_ignore}
use binance_algo.Transaction.{pure, or_raise, modify, transaction, raise_if, gets, ◌>>=◌, ◌>>◌}
use binance_algo.Registry.Schema.{
  RegistryDb, ExperimentRow, FeatureSetRow, CampaignExperimentRow, sqlite_error,
  experiment_conflict, association_conflict,
}
use binance_algo.Registry.Runs.{Action, has_experiment_id}
use binance_algo.Registry.Campaigns.{has_hypothesis_id, has_campaign_id}

-- ExperimentSpec. `unwritten` has the fields that no column of the table has, by their JSON.
pub record ExperimentSpec : Type 0 where
  pub hypothesis_id : String
  pub dataset_id : String
  pub universe_version : String
  pub feature_set_id : String
  pub label_id : String
  pub strategy_id : String
  pub strategy_version : String
  pub portfolio_policy_id : String
  pub execution_model_id : String
  pub cost_model_id : String
  pub split_plan_id : String
  pub random_seed : ℕ
  pub unwritten : String
  pub code_fingerprint : String

-- `WHERE feature_set_id = ?`
abbrev pub has_feature_set_id : String → FeatureSetRow → Bool
has_feature_set_id k f = str_eq f.feature_set_id k

-- The primary key and `UNIQUE` on the digest.
abbrev pub same_experiment : ExperimentRow → ExperimentRow → Bool
same_experiment e f =
    str_eq f.experiment_id e.experiment_id || str_eq f.experiment_sha256 e.experiment_sha256

abbrev pub experiment_row : String → String → ExperimentSpec → ℕ → ExperimentRow
experiment_row identifier json spec now = record {
  experiment_id = identifier;
  experiment_sha256 = identifier;
  hypothesis_id = spec.hypothesis_id;
  spec_json = json;
  dataset_id = spec.dataset_id;
  universe_version = spec.universe_version;
  feature_set_id = spec.feature_set_id;
  label_id = spec.label_id;
  strategy_id = spec.strategy_id;
  strategy_version = spec.strategy_version;
  portfolio_policy_id = spec.portfolio_policy_id;
  execution_model_id = spec.execution_model_id;
  cost_model_id = spec.cost_model_id;
  split_plan_id = spec.split_plan_id;
  random_seed = spec.random_seed;
  code_fingerprint_json = spec.code_fingerprint;
  created_at_ms = now;
}

-- `WHERE campaign_id = ? AND experiment_id = ?`
abbrev pub is_association : String → String → CampaignExperimentRow → Bool
is_association c e a = str_eq a.campaign_id c && str_eq a.experiment_id e

-- The primary key and `UNIQUE(campaign_id, ordinal)`.
abbrev pub same_association : CampaignExperimentRow → CampaignExperimentRow → Bool
same_association a b =
    is_association a.campaign_id a.experiment_id b
    || (str_eq b.campaign_id a.campaign_id && b.ordinal == a.ordinal)

-- `(experiment_sha256, spec_json) != (identifier, spec_json)`
abbrev pub experiment_differs : String → String → ExperimentRow → Bool
experiment_differs identifier json e =
    not (str_eq e.experiment_sha256 identifier && str_eq e.spec_json json)

abbrev pub association_differs : CampaignExperimentRow → CampaignExperimentRow → Bool
association_differs a b = not (b.ordinal == a.ordinal && str_eq b.tags_json a.tags_json)

module _ {Float : Type 0} where
  -- `FOREIGN KEY(hypothesis_id)` and `FOREIGN KEY(feature_set_id)`, of a row that is inserted.
  abbrev pub experiment_unreferenced : ExperimentRow → RegistryDb Float → Bool
  experiment_unreferenced e db =
      not (is_some (select (same_experiment e) db.experiments))
      && not (
          is_some (select (has_hypothesis_id e.hypothesis_id) db.hypotheses)
          && is_some (select (has_feature_set_id e.feature_set_id) db.feature_sets))

  -- `experiment_id` is the digest of a specification, `canonical_json` its canonical text.
  module _ (experiment_id : ExperimentSpec → String)
      (canonical_json : ExperimentSpec → String) where
    unfoldable pub register_experiment : ExperimentSpec → ℕ → Action Float String
    register_experiment spec now = do
      let identifier = experiment_id spec
      let e = experiment_row identifier (canonical_json spec) spec now
      row ← transaction (do
        broken ← gets (experiment_unreferenced e)
        raise_if broken sqlite_error
        modify (λ db. record db { experiments = insert_or_ignore same_experiment e db.experiments })
        gets (λ db. select (has_experiment_id identifier) db.experiments))
      found ← or_raise row (experiment_conflict identifier)
      raise_if (experiment_differs identifier (canonical_json spec) found)
          (experiment_conflict identifier)
      pure identifier

  -- `FOREIGN KEY(campaign_id)` and `FOREIGN KEY(experiment_id)`, of a row that is inserted.
  abbrev pub association_unreferenced : CampaignExperimentRow → RegistryDb Float → Bool
  association_unreferenced a db =
      not (is_some (select (same_association a) db.campaign_experiments))
      && not (
          is_some (select (has_campaign_id a.campaign_id) db.campaigns)
          && is_some (select (has_experiment_id a.experiment_id) db.experiments))

  unfoldable pub associate_campaign_experiment : CampaignExperimentRow → Action Float (Unit {0})
  associate_campaign_experiment a = do
    row ← transaction (do
      broken ← gets (association_unreferenced a)
      raise_if broken sqlite_error
      modify (λ db. record db {
        campaign_experiments = insert_or_ignore same_association a db.campaign_experiments;
      })
      gets (λ db. select (is_association a.campaign_id a.experiment_id) db.campaign_experiments))
    found ← or_raise row (association_conflict a.experiment_id)
    raise_if (association_differs a found) (association_conflict a.experiment_id)
