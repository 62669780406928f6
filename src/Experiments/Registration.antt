-- ===== src/Experiments/Registration.antt =====
-- `CampaignRunner.register` of research/experiments/campaign_runner.py.
use binance_algo.Base.{str_eq, is_some, not, [], ◌∷◌, err, ok, Option, ℕ, List, Result, String}
use binance_algo.Registry.Experiments.{
  associate_campaign_experiment, register_experiment, ExperimentSpec,
}
use binance_algo.Registry.Campaigns.{register_campaign, has_hypothesis_id, CampaignDefinition}
use binance_algo.Registry.Runs.{Action}
use binance_algo.Transaction.{Exec, raise_if, pure, ◌>>=◌, ◌>>◌, gets}
use binance_algo.Table.{select}
use binance_algo.Registry.Schema.{
  HypothesisRow, CampaignRecord, RegistryDb, CampaignExperimentRow, RegistryError,
}

-- An experiment of a plan that is to be registered, its tags by their canonical JSON.
pub record PlannedTrial : Type 0 where
  pub spec : ExperimentSpec
  pub experiment_id : String
  pub ordinal : ℕ
  pub tags_json : String
  pub registered_at : ℕ

-- CampaignPlan, with the readings of the clock.
pub record CampaignPlan : Type 0 where
  pub definition : CampaignDefinition
  pub trials : List PlannedTrial
  pub registered_at : ℕ

-- What `register` raises.
pub data RegistrationError : Type 0 where
  registry_error : RegistryError → RegistrationError
  hypothesis_not_registered : String → RegistrationError
  identity_changed : RegistrationError

abbrev pub association : String → PlannedTrial → CampaignExperimentRow
association c t = record {
  campaign_id = c;
  experiment_id = t.experiment_id;
  ordinal = t.ordinal;
  tags_json = t.tags_json;
}

module _ {Float : Type 0} where
  abbrev pub passed :
      {A : Type 0}
      → Result RegistryError A × RegistryDb Float
      → Result RegistrationError A × RegistryDb Float
  passed (ok a, db) = (ok a, db)
  passed (err e, db) = (err (registry_error e), db)

  -- A call of the store, whose error goes through.
  abbrev pub from_store :
      {A : Type 0} → Action Float A → Exec (RegistryDb Float) RegistrationError A
  from_store m db = passed (m db)

  abbrev pub get_hypothesis : String → Action Float (Option HypothesisRow)
  get_hypothesis k = gets (λ db. select (has_hypothesis_id k) db.hypotheses)

  module _ (experiment_id : ExperimentSpec → String)
      (canonical_json : ExperimentSpec → String) where
    unfoldable pub register_trial :
        String → PlannedTrial → Exec (RegistryDb Float) RegistrationError (Unit {0})
    register_trial c t = do
      registered ←
          from_store (register_experiment experiment_id canonical_json t.spec t.registered_at)
      raise_if (not (str_eq registered t.experiment_id)) identity_changed
      from_store (associate_campaign_experiment (association c t))

    unfoldable pub register_trials :
        String → List PlannedTrial → Exec (RegistryDb Float) RegistrationError (Unit {0})
    register_trials c [] = pure tt
    register_trials c (t ∷ ts) = register_trial c t >> register_trials c ts

    unfoldable pub register :
        CampaignPlan → Exec (RegistryDb Float) RegistrationError CampaignRecord
    register plan = do
      hypothesis ← from_store (get_hypothesis plan.definition.hypothesis_id)
      raise_if (not (is_some hypothesis)) (hypothesis_not_registered plan.definition.hypothesis_id)
      campaign ← from_store (register_campaign plan.definition plan.registered_at)
      register_trials campaign.campaign_id plan.trials
      pure campaign
