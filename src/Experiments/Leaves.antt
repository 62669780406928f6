-- ===== src/Experiments/Leaves.antt =====
-- What `ExperimentRunner.run` of research/experiments/runner.py leaves of the run that it creates, and
-- of the registry before it.
use binance_algo.Experiments.Returned.{created-Settles}
use binance_algo.Base.{
  ◌+◌, ℕ, String, Bool, List, Result, ok, err, is_some, ◌≡◌, refl, inl, inr, ◌⊎◌, Bool-cases,
}
use binance_algo.Experiments.Settled.{Settles}
use binance_algo.Registry.Attempts.{create_run-IsAtomic}
use binance_algo.Experiments.Moves.{
  create_run-created, found-id, in_store-bind, found-NotRunning, NotRunning,
}
use binance_algo.Registry.Runs.{create_run, Action, has_experiment_id, last_attempt}
use binance_algo.Transaction.{unchanged}
use binance_algo.Experiments.Runner.{
  run_created, run_experiment, RunnerAction, Attempt, RunnerError,
}
use binance_algo.Table.{select}
use binance_algo.Registry.Reads.{latest_successful_run, latest_success}
use binance_algo.Registry.Schema.{RegistryDb, ExperimentRunRecord}
use binance_algo.Registry.Promotions.{PromotionEventSpec}

module _ {Float : Type 0} (is_finite : Float → Bool) (float_eq : Float → Float → Bool)
    (sha256 : List String → String) (run_id_digest : String → ℕ → String)
    (canonical_sha256 : PromotionEventSpec → String)
    (type_name message : RunnerError → String) where
  -- What `run` leaves of the run that it creates, from the registry before it.
  abbrev pub Leaves :
      String
      → String
      → RegistryDb Float
      → Result RunnerError ExperimentRunRecord × RegistryDb Float
      → Type 0
  Leaves identifier k before (ok r, after) =
      Settles is_finite float_eq sha256 run_id_digest canonical_sha256 type_name message k
        (latest_success identifier before.runs) (ok r, after)
  Leaves identifier k before (err e, after) = (after ≡ before) ⊎ NotRunning k after

  settled-Leaves :
      (identifier k : String) (before : RegistryDb Float)
      (p : Result RunnerError ExperimentRunRecord × RegistryDb Float)
      → Settles is_finite float_eq sha256 run_id_digest canonical_sha256 type_name message k
          (latest_success identifier before.runs)
          p
      → Leaves identifier k before p
  settled-Leaves identifier k before (ok r, after) settled = settled
  settled-Leaves identifier k before (err e, after) settled = inr settled

  -- If the traceback of a failure can be written, a run that returns is the succeeded run in the
  -- registry, with the digest of the last success before it if there was one; one that raises has
  -- left the registry as it was, or its run is not RUNNING. This holds whatever the computation, the
  -- beats of its thread and the calls of other processes in the meantime do.
  pub run_experiment-Leaves :
      (identifier : String) (a : Attempt Float) (path : String) (db : RegistryDb Float)
      → a.saved ≡ ok path
      → Leaves identifier (run_id_digest identifier (last_attempt identifier db.runs + 1)) db (
          run_experiment is_finite float_eq sha256 run_id_digest canonical_sha256 type_name message
            identifier a db)
  unfolding run_experiment latest_successful_run
  run_experiment-Leaves identifier a path db saved =
      let k = run_id_digest identifier (last_attempt identifier db.runs + 1) in
      let previous = latest_success identifier db.runs in
      let create : Action Float ExperimentRunRecord =
        create_run run_id_digest identifier a.clock.created_at in
      let continue : ExperimentRunRecord → RunnerAction Float ExperimentRunRecord = λ created.
        run_created is_finite float_eq sha256 run_id_digest canonical_sha256 type_name message
          previous created.run_id a in
      elim (Bool-cases (is_some (select (has_experiment_id identifier) db.experiments))) [
        | inr unknown ↦ rw unknown (inl refl)
        | inl known ↦ rw known (
            in_store-bind (Leaves identifier k db) create continue db
              (λ c made.
                let (found, same) =
                  create_run-created run_id_digest identifier a.clock.created_at db c made in
                settled-Leaves identifier k db _ (
                  rw (found-id k _ c found) (
                    created-Settles is_finite float_eq sha256 run_id_digest canonical_sha256
                      type_name message k previous a path (create db).1 saved
                      (found-NotRunning k (create db).1 c found (rw same refl)))))
              (λ e raised. inl (
                unchanged db (create db)
                  (create_run-IsAtomic run_id_digest identifier a.clock.created_at db) raised)))
      ]
