-- ===== src/Experiments/Accounted.antt =====
-- What `CampaignRunner.run` of research/experiments/campaign_runner.py leaves in the registry for
-- the trials that it does not list as failed.
use binance_algo.Base.{
  eq_refl, subst, ℕ, String, Bool, true, false, List, [], ◌∷◌, Result, ok, err, is_some, not, ◌≡◌,
  refl, inl, inr, ◌⊎◌, arith, Bool-cases, sym, contains, All, map,
}
use binance_algo.Experiments.Successes.{
  HasSuccess-Reaches, RunsAreSound-Reaches, run_experiment-HasSuccess, HasSuccess,
}
use binance_algo.Experiments.CampaignRunner.{trial_id, execute_pending, Trial, execute_trial}
use binance_algo.Experiments.Calls.{run_experiment-Reaches, Reaches-trans, Reaches-refl, Reaches}
use binance_algo.Transaction.{Result-cases, ◌>>=◌, raise_if}
use binance_algo.Experiments.Runner.{digest_missing, run_experiment, RunnerAction, RunnerError}
use binance_algo.Registry.RunInvariant.{RunsAreSound}
use binance_algo.Registry.Schema.{RegistryDb, ExperimentRunRecord}
use binance_algo.Registry.Promotions.{PromotionEventSpec}
use binance_algo.Transaction.Moves.{bind-Moves}

module _ {Float : Type 0} (is_finite : Float → Bool) (float_eq : Float → Float → Bool)
    (sha256 : List String → String) (run_id_digest : String → ℕ → String)
    (canonical_sha256 : PromotionEventSpec → String) (type_name message : RunnerError → String)
    (failure_text : List String → String) where
  abbrev pub Goes : RegistryDb Float → RegistryDb Float → Type 0
  Goes = Reaches is_finite float_eq sha256 run_id_digest canonical_sha256 type_name message

  pub stays : (db : RegistryDb Float) → Goes db db
  stays = Reaches-refl is_finite float_eq sha256 run_id_digest canonical_sha256 type_name message

  pub follows : (a b c : RegistryDb Float) → Goes a b → Goes b c → Goes a c
  follows = Reaches-trans is_finite float_eq sha256 run_id_digest canonical_sha256 type_name message

  abbrev one_trial : Trial Float → RunnerAction Float (Unit {0})
  one_trial =
      execute_trial is_finite float_eq sha256 run_id_digest canonical_sha256 type_name message
        failure_text

  guard-Goes : (b : Bool) (e : RunnerError) (db : RegistryDb Float) → Goes db (raise_if b e db).1
  guard-Goes true e db = stays db
  guard-Goes false e db = stays db

  execute_trial-Goes : (t : Trial Float) (db : RegistryDb Float) → Goes db (one_trial t db).1
  unfolding execute_trial
  execute_trial-Goes t =
      bind-Moves Goes stays follows
        (run_experiment is_finite float_eq sha256 run_id_digest canonical_sha256 type_name message
          t.experiment_id t.attempt)
        (λ r. raise_if (not (is_some r.result_digest)) digest_missing)
        (run_experiment-Reaches is_finite float_eq sha256 run_id_digest canonical_sha256 type_name
          message t.experiment_id t.attempt)
        (λ r db. guard-Goes (not (is_some r.result_digest)) digest_missing db)

  split_trial :
      (p : Result RunnerError ExperimentRunRecord × RegistryDb Float)
      (f : ExperimentRunRecord → RunnerAction Float (Unit {0}))
      → ((r : ExperimentRunRecord) (db : RegistryDb Float) → (f r db).1 ≡ db)
      → (((λ (_ : RegistryDb Float). p) >>= f) p.1).0 ≡ ok tt
      → (r : ExperimentRunRecord) × (p.0 ≡ ok r)
        × ((((λ (_ : RegistryDb Float). p) >>= f) p.1).1 ≡ p.1)
  split_trial (ok r, db) f same done = (r, refl, same r db)
  split_trial (err e, db) f same done = ground arith

  guard_same : (b : Bool) (e : RunnerError) (db : RegistryDb Float) → (raise_if b e db).1 ≡ db
  guard_same true e db = refl
  guard_same false e db = refl

  execute_trial-HasSuccess :
      (t : Trial Float) (db : RegistryDb Float)
      → RunsAreSound db
      → (one_trial t db).0 ≡ ok tt
      → HasSuccess t.experiment_id (one_trial t db).1
  unfolding execute_trial
  execute_trial-HasSuccess t db sound done =
      let (r, ran, same) =
        split_trial
          (run_experiment is_finite float_eq sha256 run_id_digest canonical_sha256 type_name message
            t.experiment_id t.attempt db)
          (λ r. raise_if (not (is_some r.result_digest)) digest_missing)
          (λ r db. guard_same (not (is_some r.result_digest)) digest_missing db) done in
      subst (HasSuccess t.experiment_id) (sym same) (
        run_experiment-HasSuccess is_finite float_eq sha256 run_id_digest canonical_sha256 type_name
          message t.experiment_id t.attempt db r sound ran)

  abbrev pub executed_by :
      Bool → List (Trial Float) → RegistryDb Float → List String × RegistryDb Float
  executed_by =
      execute_pending is_finite float_eq sha256 run_id_digest canonical_sha256 type_name message
        failure_text

  -- What the first trial makes of the failures and of the registry.
  execute_pending-cases :
      (fail_fast : Bool) (t : Trial Float) (trials : List (Trial Float)) (db : RegistryDb Float)
      → let after = (one_trial t db).1 in
        let rest = executed_by fail_fast trials after in
        let whole = executed_by fail_fast (t ∷ trials) db in
        (((one_trial t db).0 ≡ ok tt) × (whole ≡ rest))
        ⊎ ((whole ≡ (t.experiment_id ∷ map trial_id trials, after))
            ⊎ (whole ≡ (t.experiment_id ∷ rest.0, rest.1)))
  unfolding execute_pending
  execute_pending-cases fail_fast t trials db = elim (Result-cases (one_trial t db).0) [
    | inl (u, done) ↦ inl (done, ground (arith, done))
    | inr (e, raised) ↦ elim (Bool-cases fail_fast) [
      | inl fast ↦ inr (inl (ground (arith, raised, fast)))
      | inr slow ↦ inr (inr (ground (arith, raised, slow)))
    ]
  ]

  pub execute_pending-Goes :
      (fail_fast : Bool) (trials : List (Trial Float)) (db : RegistryDb Float)
      → Goes db (executed_by fail_fast trials db).1
  unfolding execute_pending
  execute_pending-Goes fail_fast [] db = stays db
  execute_pending-Goes fail_fast (t ∷ trials) db =
      let after = (one_trial t db).1 in
      let step = execute_trial-Goes t db in
      let rest = follows db after _ step (execute_pending-Goes fail_fast trials after) in
      elim (execute_pending-cases fail_fast t trials db) [
        | inl (_, same) ↦ subst (λ q. Goes db q.1) (sym same) rest
        | inr (inl same) ↦ subst (λ q. Goes db q.1) (sym same) step
        | inr (inr same) ↦ subst (λ q. Goes db q.1) (sym same) rest
      ]

  -- A trial is among the failures, or its experiment has a success.
  abbrev pub IsAccounted : List String → RegistryDb Float → Trial Float → Type 0
  IsAccounted failures db t =
      (contains t.experiment_id failures ≡ true) ⊎ HasSuccess t.experiment_id db

  among_failures :
      (t : Trial Float) (trials : List (Trial Float)) (failures : List String)
      (db : RegistryDb Float)
      → ((s : String) → contains s (map trial_id trials) ≡ true → contains s failures ≡ true)
      → All (IsAccounted failures db) trials
  among_failures t [] failures db among = tt
  among_failures t (s ∷ trials) failures db among = (
    inl (among s.experiment_id (ground (arith, eq_refl s.experiment_id))),
    among_failures t trials failures db (λ k inside. among k (ground (arith, inside))),
  )

  one_more :
      (k : String) (failures : List String) (db : RegistryDb Float) (trials : List (Trial Float))
      → All (IsAccounted failures db) trials
      → All (IsAccounted (k ∷ failures) db) trials
  one_more k failures db [] h = tt
  one_more k failures db (t ∷ trials) (inl failed, h) =
      (inl (ground (arith, failed)), one_more k failures db trials h)
  one_more k failures db (t ∷ trials) (inr succeeded, h) =
      (inr succeeded, one_more k failures db trials h)

  -- Every pending trial is among the failures, or has a success when all are executed.
  pub execute_pending-IsAccounted :
      (fail_fast : Bool) (trials : List (Trial Float)) (db : RegistryDb Float)
      → RunsAreSound db
      → let run = executed_by fail_fast trials db in All (IsAccounted run.0 run.1) trials
  unfolding execute_pending
  execute_pending-IsAccounted fail_fast [] db sound = tt
  execute_pending-IsAccounted fail_fast (t ∷ trials) db sound =
      let after = (one_trial t db).1 in
      let sound' =
        RunsAreSound-Reaches is_finite float_eq sha256 run_id_digest canonical_sha256 type_name
          message db after sound (execute_trial-Goes t db) in
      let rest = execute_pending-IsAccounted fail_fast trials after sound' in
      let last = executed_by fail_fast trials after in
      let first : contains t.experiment_id (t.experiment_id ∷ []) ≡ true =
        ground (arith, eq_refl t.experiment_id) in
      elim (execute_pending-cases fail_fast t trials db) [
        | inl (done, same) ↦
            let kept =
              HasSuccess-Reaches is_finite float_eq sha256 run_id_digest canonical_sha256 type_name
                message t.experiment_id after last.1 sound'
                (execute_pending-Goes fail_fast trials after)
                (execute_trial-HasSuccess t db sound done) in
            subst (λ run. All (IsAccounted run.0 run.1) (t ∷ trials)) (sym same) (inr kept, rest)
        | inr (inl same) ↦
            subst (λ run. All (IsAccounted run.0 run.1) (t ∷ trials)) (sym same)
              (among_failures t (t ∷ trials) (t.experiment_id ∷ map trial_id trials) after
                (λ k h. h))
        | inr (inr same) ↦
            subst (λ run. All (IsAccounted run.0 run.1) (t ∷ trials)) (sym same)
              (
                inl (ground (arith, eq_refl t.experiment_id)),
                one_more t.experiment_id last.0 last.1 trials rest,
              )
      ]
