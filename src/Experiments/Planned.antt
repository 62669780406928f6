-- ===== src/Experiments/Planned.antt =====
-- What `CampaignRunner.register` of research/experiments/campaign_runner.py leaves of a plan.
use binance_algo.Base.{
  none, false, sym, subst, err, true, ok, some, ◌≡◌, ℕ, Bool, Option, String, Result, arith, refl,
}
use binance_algo.Experiments.Registration.{from_store, passed, PlannedTrial, RegistrationError}
use binance_algo.Registry.Campaigns.{CampaignDefinition, register_campaign, campaign_agrees}
use binance_algo.Registry.Schema.{
  CampaignRecord, RegistryDb, CampaignExperimentRow, RegistryError, ExperimentRow,
}
use binance_algo.Registry.Registered.{
  KeepsRows-trans, KeepsRows-refl, has_place, has_text, KeepsRows,
}
use binance_algo.Registry.Experiments.{is_association, ExperimentSpec}
use binance_algo.Transaction.{Exec, raise_if}
use binance_algo.Registry.Runs.{Action, has_experiment_id}
use binance_algo.Table.{select}
use binance_algo.Transaction.Moves.{Moves}

-- The row of the experiment with the text of the specification, and its association with the
-- campaign, with ordinal and tags.
pub record Stands {Float : Type 0} (canonical_json : ExperimentSpec → String) (c : String)
    (t : PlannedTrial) (db : RegistryDb Float) : Type 0 where
  pub identity :
      has_text (canonical_json t.spec) (select (has_experiment_id t.experiment_id) db.experiments)
      ≡ true
  pub place :
      has_place t.ordinal t.tags_json
        (select (is_association c t.experiment_id) db.campaign_experiments)
      ≡ true

has_text-kept :
    (json : String) (o after : Option ExperimentRow)
    → ((e : ExperimentRow) → o ≡ some e → after ≡ some e)
    → has_text json o ≡ true
    → has_text json after ≡ true
has_text-kept json (some e) after kept h = ground (arith, h, kept e refl)
has_text-kept json none after kept h = ground (arith, h)

has_place-kept :
    (n : ℕ) (tags : String) (o after : Option CampaignExperimentRow)
    → ((a : CampaignExperimentRow) → o ≡ some a → after ≡ some a)
    → has_place n tags o ≡ true
    → has_place n tags after ≡ true
has_place-kept n tags (some a) after kept h = ground (arith, h, kept a refl)
has_place-kept n tags none after kept h = ground (arith, h)

module _ {Float : Type 0} where
  pub passed-ok :
      {A : Type 0} (p : Result RegistryError A × RegistryDb Float) {a : A}
      → (passed p).0 ≡ ok a
      → p.0 ≡ ok a
  passed-ok (ok b, db) h = ground (arith, h)
  passed-ok (err e, db) h = ground (arith, h)

  pub passed-db : {A : Type 0} (p : Result RegistryError A × RegistryDb Float) → (passed p).1 ≡ p.1
  passed-db (ok b, db) = refl
  passed-db (err e, db) = refl

  pub register_campaign-agrees :
      (d : CampaignDefinition) (now : ℕ) (db : RegistryDb Float) {c : CampaignRecord}
      → (register_campaign d now db).0 ≡ ok c
      → campaign_agrees d c ≡ true
  unfolding register_campaign
  register_campaign-agrees d now db h = ground (arith, h)

  abbrev pub Keeps : {A : Type 0} → Exec (RegistryDb Float) RegistrationError A → Type 0
  Keeps m = Moves KeepsRows KeepsRows-refl KeepsRows-trans m

  pub from_store-Moves :
      {A : Type 0} (m : Action Float A)
      → ((db : RegistryDb Float) → KeepsRows db (m db).1)
      → Keeps (from_store m)
  from_store-Moves m kept db = subst (λ x. KeepsRows db x) (sym (passed-db (m db))) (kept db)

  pub raise_if-Moves : (b : Bool) (e : RegistrationError) → Keeps (raise_if b e)
  raise_if-Moves true e db = KeepsRows-refl db
  raise_if-Moves false e db = KeepsRows-refl db

  module _ (canonical_json : ExperimentSpec → String) where
    pub identity-kept :
        (t : PlannedTrial) (db after : RegistryDb Float)
        → KeepsRows db after
        → has_text
            (canonical_json t.spec)
            (select (has_experiment_id t.experiment_id) db.experiments)
          ≡ true
        → has_text
            (canonical_json t.spec)
            (select (has_experiment_id t.experiment_id) after.experiments)
          ≡ true
    identity-kept t db after kept h =
        has_text-kept (canonical_json t.spec)
          (select (has_experiment_id t.experiment_id) db.experiments)
          (select (has_experiment_id t.experiment_id) after.experiments)
          (λ e x. kept.experiments t.experiment_id x) h

    pub Stands-kept :
        (c : String) (t : PlannedTrial) (db after : RegistryDb Float)
        → KeepsRows db after
        → Stands canonical_json c t db
        → Stands canonical_json c t after
    Stands-kept c t db after kept s = record {
      identity = identity-kept t db after kept s.identity;
      place =
          has_place-kept t.ordinal t.tags_json
            (select (is_association c t.experiment_id) db.campaign_experiments)
            (select (is_association c t.experiment_id) after.campaign_experiments)
            (λ a x. kept.associations c t.experiment_id x) s.place;
    }
