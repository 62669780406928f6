-- ===== src/Experiments/PlannedTrials.antt =====
-- The loop of `CampaignRunner.register` of research/experiments/campaign_runner.py.
use binance_algo.Base.{
  ◌∙◌, [], str_eq, not, false, All, sym, ◌∷◌, subst, true, ok, ◌≡◌, List, Bool, String, Result,
  arith, eq_iff, refl,
}
use binance_algo.Experiments.Registration.{
  identity_changed, from_store, register_trials, register_trial, PlannedTrial, RegistrationError,
  association,
}
use binance_algo.Registry.Schema.{RegistryDb}
use binance_algo.Registry.Registered.{
  register_experiment-stores, associate-stores, associate-KeepsRows, register_experiment-KeepsRows,
  KeepsRows-trans, KeepsRows-refl, has_place, has_text, KeepsRows,
}
use binance_algo.Registry.Experiments.{
  associate_campaign_experiment, register_experiment, is_association, ExperimentSpec,
}
use binance_algo.Transaction.{Exec, raise_if, ◌>>◌}
use binance_algo.Registry.Runs.{has_experiment_id}
use binance_algo.Table.{select}
use binance_algo.Transaction.Moves.{bind-Moves, bind-cases}
use binance_algo.Experiments.Planned.{
  Stands, Keeps, passed-ok, passed-db, from_store-Moves, raise_if-Moves, identity-kept, Stands-kept,
}

module _ {Float : Type 0} (experiment_id : ExperimentSpec → String)
    (canonical_json : ExperimentSpec → String) where
  -- `register_trial` from the identity that the store gives on.
  abbrev associated :
      String → PlannedTrial → String → Exec (RegistryDb Float) RegistrationError (Unit {0})
  associated c t registered = do
    raise_if (not (str_eq registered t.experiment_id)) identity_changed
    from_store (associate_campaign_experiment (association c t))

  abbrev registered_in : PlannedTrial → Exec (RegistryDb Float) RegistrationError String
  registered_in t =
      from_store (register_experiment experiment_id canonical_json t.spec t.registered_at)

  associated-Moves :
      (c : String) (t : PlannedTrial) (registered : String) → Keeps (associated c t registered)
  associated-Moves c t registered =
      bind-Moves KeepsRows KeepsRows-refl KeepsRows-trans
        (raise_if (not (str_eq registered t.experiment_id)) identity_changed)
        (λ _. from_store (associate_campaign_experiment (association c t)))
        (raise_if-Moves (not (str_eq registered t.experiment_id)) identity_changed)
        (λ _.
          from_store-Moves (associate_campaign_experiment (association c t))
            (associate-KeepsRows (association c t)))

  register_trial-Moves :
      (c : String) (t : PlannedTrial)
      → Keeps {Float = Float} (register_trial experiment_id canonical_json c t)
  unfolding register_trial
  register_trial-Moves c t =
      bind-Moves KeepsRows KeepsRows-refl KeepsRows-trans (registered_in t) (associated c t)
        (from_store-Moves (register_experiment experiment_id canonical_json t.spec t.registered_at)
          (register_experiment-KeepsRows experiment_id canonical_json t.spec t.registered_at))
        (associated-Moves c t)

  register_trials-Moves :
      (c : String) (ts : List PlannedTrial)
      → Keeps {Float = Float} (register_trials experiment_id canonical_json c ts)
  unfolding register_trials
  register_trials-Moves c [] db = KeepsRows-refl db
  register_trials-Moves c (t ∷ ts) db =
      bind-Moves KeepsRows KeepsRows-refl KeepsRows-trans
        (register_trial experiment_id canonical_json c t)
        (λ _. register_trials experiment_id canonical_json c ts) (register_trial-Moves c t)
        (λ _. register_trials-Moves c ts) db

  abbrev TrialLeft :
      String → PlannedTrial → Result RegistrationError (Unit {0}) × RegistryDb Float → Type 0
  TrialLeft c t p = p.0 ≡ ok tt → Stands canonical_json c t p.1

  abbrev TrialsLeft :
      String → List PlannedTrial → Result RegistrationError (Unit {0}) × RegistryDb Float → Type 0
  TrialsLeft c ts p = p.0 ≡ ok tt → All (λ t. Stands canonical_json c t p.1) ts

  associated-left :
      (c : String) (t : PlannedTrial) (b : Bool) (db : RegistryDb Float)
      → (b ≡ true
          → has_text
              (canonical_json t.spec)
              (select (has_experiment_id t.experiment_id) db.experiments)
            ≡ true)
      → TrialLeft c t (
          (raise_if (not b) identity_changed
              >> from_store (associate_campaign_experiment (association c t)))
            db)
  associated-left c t false db h returned = ground (arith, returned)
  associated-left c t true db h returned =
      let m = associate_campaign_experiment (association c t) in
      record {
        identity =
            identity-kept canonical_json t db (from_store m db).1
              (from_store-Moves m (associate-KeepsRows (association c t)) db) (h refl);
        place =
            subst
              (λ x.
                has_place t.ordinal t.tags_json
                  (select (is_association c t.experiment_id) x.campaign_experiments)
                ≡ true)
              (sym (passed-db (m db)))
              (associate-stores (association c t) db (passed-ok (m db) returned));
      }

  -- The identity of a trial that is not changed has the text of its specification.
  registered-has_text :
      (t : PlannedTrial) (db : RegistryDb Float) {registered : String}
      → (registered_in t db).0 ≡ ok registered
      → str_eq registered t.experiment_id ≡ true
      → has_text
          (canonical_json t.spec)
          (select (has_experiment_id t.experiment_id) (registered_in t db).1.experiments)
        ≡ true
  registered-has_text t db {registered = registered} returned same =
      let m = register_experiment experiment_id canonical_json t.spec t.registered_at in
      let stored =
        register_experiment-stores experiment_id canonical_json t.spec t.registered_at db
          (passed-ok (m db) returned) in
      subst
        (λ x.
          has_text (canonical_json t.spec)
            (select (has_experiment_id t.experiment_id) x.experiments)
          ≡ true)
        (sym (passed-db (m db)))
        (subst
          (λ k.
            has_text (canonical_json t.spec) (select (has_experiment_id k) (m db).1.experiments)
            ≡ true)
          (sym stored.0 ∙ (eq_iff registered t.experiment_id).0 same) stored.1)

  register_trial-left :
      (c : String) (t : PlannedTrial) (db : RegistryDb Float)
      → TrialLeft c t (register_trial experiment_id canonical_json c t db)
  unfolding register_trial
  register_trial-left c t db =
      bind-cases (TrialLeft c t) (registered_in t) (associated c t) db
        (λ registered returned.
          associated-left c t (str_eq registered t.experiment_id) (registered_in t db).1
            (registered-has_text t db returned))
        (λ e raised h. ground (arith, h))

  -- When all are registered, each of them stands.
  pub register_trials-left :
      (c : String) (ts : List PlannedTrial) (db : RegistryDb Float)
      → TrialsLeft c ts (register_trials experiment_id canonical_json c ts db)
  unfolding register_trials
  register_trials-left c [] db h = tt
  register_trials-left c (t ∷ ts) db h =
      bind-cases (TrialsLeft c (t ∷ ts)) (register_trial experiment_id canonical_json c t)
        (λ _. register_trials experiment_id canonical_json c ts) db
        (λ _ returned h. (
          Stands-kept canonical_json c t _ _
              (register_trials-Moves c ts (register_trial experiment_id canonical_json c t db).1)
              (register_trial-left c t db returned),
          register_trials-left c ts (register_trial experiment_id canonical_json c t db).1 h,
        ))
        (λ e raised h. ground (arith, h)) h
