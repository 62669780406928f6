-- ===== src/Registry/Registered.antt =====
-- What `register_experiment` and `associate_campaign_experiment` of research/experiments/store.py
-- leave.
use binance_algo.Base.{
  ℕ, String, Bool, true, false, Option, none, some, ◌&&◌, ◌==◌, str_eq, ◌≡◌, arith, ok,
}
use binance_algo.Registry.Experiments.{
  ExperimentSpec, register_experiment, associate_campaign_experiment, experiment_row,
  same_experiment, same_association, is_association,
}
use binance_algo.Table.{select}
use binance_algo.Table.Laws.{select-insert_or_ignore}
use binance_algo.Registry.Schema.{RegistryDb, ExperimentRow, CampaignExperimentRow}
use binance_algo.Registry.Runs.{has_experiment_id}

-- A row of experiments with this text.
abbrev pub has_text : String → Option ExperimentRow → Bool
has_text json none = false
has_text json (some e) = str_eq e.spec_json json

-- A row of campaign_experiments with this ordinal and these tags.
abbrev pub has_place : ℕ → String → Option CampaignExperimentRow → Bool
has_place n tags none = false
has_place n tags (some a) = a.ordinal == n && str_eq a.tags_json tags

-- Experiments and associations that are there stay there, unchanged.
pub record KeepsRows {Float : Type 0} (db after : RegistryDb Float) : Type 0 where
  pub experiments :
      (k : String) {e : ExperimentRow}
      → select (has_experiment_id k) db.experiments ≡ some e
      → select (has_experiment_id k) after.experiments ≡ some e
  pub associations :
      (c k : String) {a : CampaignExperimentRow}
      → select (is_association c k) db.campaign_experiments ≡ some a
      → select (is_association c k) after.campaign_experiments ≡ some a

module _ {Float : Type 0} where
  pub KeepsRows-refl : (db : RegistryDb Float) → KeepsRows db db
  KeepsRows-refl db = record { experiments = λ k h. h; associations = λ c k h. h }

  pub KeepsRows-trans : (a b c : RegistryDb Float) → KeepsRows a b → KeepsRows b c → KeepsRows a c
  KeepsRows-trans a b c x y = record {
    experiments = λ k h. y.experiments k (x.experiments k h);
    associations = λ c k h. y.associations c k (x.associations c k h);
  }

  module _ (experiment_id : ExperimentSpec → String)
      (canonical_json : ExperimentSpec → String) where
    pub register_experiment-KeepsRows :
        (spec : ExperimentSpec) (now : ℕ) (db : RegistryDb Float)
        → KeepsRows db (register_experiment experiment_id canonical_json spec now db).1
    unfolding register_experiment
    register_experiment-KeepsRows spec now db =
        let e = experiment_row (experiment_id spec) (canonical_json spec) spec now in
        record {
          experiments = λ k h. ground (
            arith,
            h,
            select-insert_or_ignore (has_experiment_id k) same_experiment e db.experiments,
          );
          associations = λ c k h. ground (arith, h);
        }

    -- A registration that returns gives the digest, under which the experiment stands with its text.
    pub register_experiment-stores :
        (spec : ExperimentSpec) (now : ℕ) (db : RegistryDb Float) {identifier : String}
        → (register_experiment experiment_id canonical_json spec now db).0 ≡ ok identifier
        → (identifier ≡ experiment_id spec)
          × (has_text (canonical_json spec) (
                select
                  (has_experiment_id (experiment_id spec))
                  (register_experiment experiment_id canonical_json spec now db).1.experiments)
              ≡ true)
    unfolding register_experiment
    register_experiment-stores spec now db h = ground (arith, h)

  pub associate-KeepsRows :
      (a : CampaignExperimentRow) (db : RegistryDb Float)
      → KeepsRows db (associate_campaign_experiment a db).1
  unfolding associate_campaign_experiment
  associate-KeepsRows a db = record {
    experiments = λ k h. ground (arith, h);
    associations = λ c k h. ground (
      arith,
      h,
      select-insert_or_ignore (is_association c k) same_association a db.campaign_experiments,
    );
  }

  -- An association that returns stands with its ordinal and its tags.
  pub associate-stores :
      (a : CampaignExperimentRow) (db : RegistryDb Float)
      → (associate_campaign_experiment a db).0 ≡ ok tt
      → has_place a.ordinal a.tags_json (
          select
            (is_association a.campaign_id a.experiment_id)
            (associate_campaign_experiment a db).1.campaign_experiments)
        ≡ true
  unfolding associate_campaign_experiment
  associate-stores a db h = ground (arith, h)
