-- ===== src/Experiments/Plans.antt =====
-- `CampaignRunner.register` of research/experiments/campaign_runner.py as a whole.
use binance_algo.Base.{
  is_some, not, false, All, subst, true, ok, ◌≡◌, Bool, String, Result, arith, ok_injective,
}
use binance_algo.Experiments.Registration.{
  hypothesis_not_registered, CampaignPlan, register, from_store, register_trials, RegistrationError,
}
use binance_algo.Registry.Campaigns.{has_hypothesis_id, register_campaign, campaign_agrees}
use binance_algo.Registry.Schema.{CampaignRecord, RegistryDb}
use binance_algo.Registry.Experiments.{ExperimentSpec}
use binance_algo.Transaction.{raise_if, ◌>>◌, ◌>>=◌, pure}
use binance_algo.Table.{select}
use binance_algo.Transaction.Moves.{bind-cases}
use binance_algo.Experiments.Planned.{Stands, passed-ok, register_campaign-agrees}
use binance_algo.Experiments.PlannedTrials.{register_trials-left}

module _ {Float : Type 0} (experiment_id : ExperimentSpec → String)
    (canonical_json : ExperimentSpec → String) where
  -- What a registration leaves of the trials of its plan.
  abbrev PlanLeft :
      CampaignPlan → Result RegistrationError CampaignRecord × RegistryDb Float → Type 0
  PlanLeft plan p =
      (c : CampaignRecord)
      → p.0 ≡ ok c
      → (campaign_agrees plan.definition c ≡ true)
        × All (λ t. Stands canonical_json c.campaign_id t p.1) plan.trials

  trials_registered :
      (plan : CampaignPlan) (c : CampaignRecord) (db : RegistryDb Float)
      → campaign_agrees plan.definition c ≡ true
      → PlanLeft plan
          ((register_trials experiment_id canonical_json c.campaign_id plan.trials >> pure c) db)
  trials_registered plan c db agrees =
      bind-cases (PlanLeft plan)
        (register_trials experiment_id canonical_json c.campaign_id plan.trials) (λ _. pure c) db
        (λ _ returned d same.
          subst
            (λ x.
              (campaign_agrees plan.definition x ≡ true)
              × All
                  (λ t.
                    Stands canonical_json x.campaign_id t
                      (register_trials experiment_id canonical_json c.campaign_id plan.trials db).1)
                  plan.trials)
            (ok_injective same)
            (
              agrees,
              register_trials-left experiment_id canonical_json c.campaign_id plan.trials db
                  returned,
            ))
        (λ e raised d same. ground (arith, same))

  campaign_registered :
      (plan : CampaignPlan) (b : Bool) (e : RegistrationError) (db : RegistryDb Float)
      → PlanLeft plan (
          (raise_if b e
              >> (from_store (register_campaign plan.definition plan.registered_at) >>= λ c.
                  register_trials experiment_id canonical_json c.campaign_id plan.trials >> pure c))
            db)
  campaign_registered plan true e db c same = ground (arith, same)
  campaign_registered plan false e db c same =
      bind-cases (PlanLeft plan) (from_store (register_campaign plan.definition plan.registered_at))
        (λ d. register_trials experiment_id canonical_json d.campaign_id plan.trials >> pure d) db
        (λ d returned.
          trials_registered plan d
            (from_store (register_campaign plan.definition plan.registered_at) db).1
            (register_campaign-agrees plan.definition plan.registered_at db
              (passed-ok (register_campaign plan.definition plan.registered_at db) returned)))
        (λ e raised d same. ground (arith, same)) c same

  -- When `register` returns, the campaign is the one of the plan, and every trial of the plan
  -- has the row of its experiment, with the text of its specification, and the row that
  -- associates it with the campaign, with its ordinal and its tags, also if the database had
  -- some of them before.
  pub register-Stands :
      (plan : CampaignPlan) (db : RegistryDb Float) {c : CampaignRecord}
      → (register experiment_id canonical_json plan db).0 ≡ ok c
      → (campaign_agrees plan.definition c ≡ true)
        × All
            (λ t.
              Stands canonical_json c.campaign_id t
                (register experiment_id canonical_json plan db).1)
            plan.trials
  unfolding register
  register-Stands plan db {c = c} same =
      campaign_registered plan
        (not (is_some (select (has_hypothesis_id plan.definition.hypothesis_id) db.hypotheses)))
        (hypothesis_not_registered plan.definition.hypothesis_id) db c same
