-- ===== src/Experiments/Returned.antt =====
-- Runs of research/experiments/runner.py from their creation on, whether they return or raise.
use binance_algo.Base.{ℕ, String, Bool, Option, List, Result, ok, err, ◌≡◌, refl}
use binance_algo.Experiments.Settled.{
  fail_run-Settles, caught-Settles, run_body-Returned, Returned, Settles,
}
use binance_algo.Experiments.Runner.{
  run_is_current, fail_current, run_created, run_running, started_update, no_update, in_store,
  RunnerAction, run_body, Attempt, fail_run, RunnerError,
}
use binance_algo.Transaction.{raise, unchanged, ◌>>◌, ◌>>=◌, caught}
use binance_algo.Experiments.Moves.{
  found-id, transition_run-moved, transition_run-IsAtomic, in_store-bind, found-NotRunning,
  NotRunning,
}
use binance_algo.Registry.Runs.{Action, RunUpdate, transition_run, find_run, get_run}
use binance_algo.Registry.Schema.{RegistryError, RegistryDb, ExperimentRunRecord}
use binance_algo.Registry.Status.{RunStatus}
use binance_algo.Registry.Promotions.{PromotionEventSpec}

module _ {Float : Type 0} (is_finite : Float → Bool) (float_eq : Float → Float → Bool)
    (sha256 : List String → String) (run_id_digest : String → ℕ → String)
    (canonical_sha256 : PromotionEventSpec → String)
    (type_name message : RunnerError → String) where
  running-Settles :
      (k : String) (previous : Option ExperimentRunRecord) (a : Attempt Float) (path : String)
      (db : RegistryDb Float)
      → a.saved ≡ ok path
      → Settles is_finite float_eq sha256 run_id_digest canonical_sha256 type_name message k
          previous
          (run_running is_finite float_eq sha256 run_id_digest canonical_sha256 type_name message
            previous k a db)
  running-Settles k previous a path db saved =
      caught-Settles is_finite float_eq sha256 run_id_digest canonical_sha256 type_name message k
        previous
        (fail_run is_finite float_eq sha256 run_id_digest canonical_sha256 type_name message k a)
        (run_body is_finite float_eq sha256 run_id_digest canonical_sha256 type_name message
          previous k a db)
        (run_body-Returned is_finite float_eq sha256 run_id_digest canonical_sha256 type_name
          message k previous a db)
        (λ e.
          (fail_run-Settles is_finite float_eq sha256 run_id_digest canonical_sha256 type_name
              message)
            k previous a e path _ saved)

  moved-NotRunning :
      (k : String) (status : RunStatus) (u : RunUpdate) (now : ℕ) (db : RegistryDb Float)
      (e : RegistryError)
      → (transition_run k status u now db).0 ≡ err e
      → NotRunning k db
      → NotRunning k (transition_run k status u now db).1
  moved-NotRunning k status u now db e raised settled =
      rw
        (unchanged db (transition_run k status u now db) (transition_run-IsAtomic k status u now db)
          raised)
        settled

  pub created-Settles :
      (k : String) (previous : Option ExperimentRunRecord) (a : Attempt Float) (path : String)
      (db : RegistryDb Float)
      → a.saved ≡ ok path
      → NotRunning k db
      → Settles is_finite float_eq sha256 run_id_digest canonical_sha256 type_name message k
          previous
          (run_created is_finite float_eq sha256 run_id_digest canonical_sha256 type_name message
            previous k a db)
  unfolding run_created
  created-Settles k previous a path db saved settled =
      let queue : Action Float ExperimentRunRecord =
        transition_run k RunStatus.queued no_update a.clock.queued_at in
      let start_update = started_update a.host_name a.process_id in
      let start : Action Float ExperimentRunRecord =
        transition_run k RunStatus.running start_update a.clock.running_at in
      let then_run : ExperimentRunRecord → RunnerAction Float ExperimentRunRecord = λ running.
        run_running is_finite float_eq sha256 run_id_digest canonical_sha256 type_name message
          previous running.run_id a in
      in_store-bind
        (Settles is_finite float_eq sha256 run_id_digest canonical_sha256 type_name message k
          previous)
        queue (λ _. in_store start >>= then_run) db
        (λ q queued.
          let (found, status) =
            transition_run-moved k RunStatus.queued no_update a.clock.queued_at db q queued in
          in_store-bind
            (Settles is_finite float_eq sha256 run_id_digest canonical_sha256 type_name message k
              previous)
            start then_run (queue db).1
            (λ r started.
              let (found', _) =
                transition_run-moved k RunStatus.running start_update a.clock.running_at
                  (queue db).1 r started in
              rw (found-id k _ r found') (running-Settles k previous a path _ saved))
            (λ e raised.
              moved-NotRunning k RunStatus.running start_update a.clock.running_at (queue db).1 e
                raised (found-NotRunning k (queue db).1 q found (rw status refl))))
        (λ e raised.
          moved-NotRunning k RunStatus.queued no_update a.clock.queued_at db e raised settled)

  caught-Returned :
      (k : String) (previous : Option ExperimentRunRecord)
      (handler : RunnerError → RunnerAction Float ExperimentRunRecord)
      (p : Result RunnerError ExperimentRunRecord × RegistryDb Float)
      → Returned is_finite float_eq sha256 run_id_digest canonical_sha256 type_name message k
          previous p
      → ((e : RunnerError)
          → Returned is_finite float_eq sha256 run_id_digest canonical_sha256 type_name message k
              previous
              (handler e p.1))
      → Returned is_finite float_eq sha256 run_id_digest canonical_sha256 type_name message k
          previous
          (caught handler p)
  caught-Returned k previous handler (ok r, after) returned raised = returned
  caught-Returned k previous handler (err e, after) returned raised = raised e

  raised-Returned :
      {A : Type 0} (k : String) (previous : Option ExperimentRunRecord)
      (p : Result RunnerError A × RegistryDb Float) (e : RunnerError)
      → Returned is_finite float_eq sha256 run_id_digest canonical_sha256 type_name message k
          previous
          (((λ (_ : RegistryDb Float). p) >> raise e) p.1)
  raised-Returned k previous (ok a, after) e = tt
  raised-Returned k previous (err f, after) e = tt

  fail_run-Returned :
      (k : String) (previous : Option ExperimentRunRecord) (a : Attempt Float) (e : RunnerError)
      (db : RegistryDb Float)
      → Returned is_finite float_eq sha256 run_id_digest canonical_sha256 type_name message k
          previous
          (fail_run is_finite float_eq sha256 run_id_digest canonical_sha256 type_name message k a e
            db)
  unfolding fail_run get_run
  fail_run-Returned k previous a e db =
      raised-Returned k previous
        (fail_current is_finite float_eq sha256 run_id_digest canonical_sha256 type_name message
          (run_is_current (find_run k db)) k a e db)
        e

  -- A run that returns is settled, whatever may not be written for one that raises.
  pub created-Returned :
      (k : String) (previous : Option ExperimentRunRecord) (a : Attempt Float)
      (db : RegistryDb Float)
      → Returned is_finite float_eq sha256 run_id_digest canonical_sha256 type_name message k
          previous
          (run_created is_finite float_eq sha256 run_id_digest canonical_sha256 type_name message
            previous k a db)
  unfolding run_created
  created-Returned k previous a db =
      let queue : Action Float ExperimentRunRecord =
        transition_run k RunStatus.queued no_update a.clock.queued_at in
      let start_update = started_update a.host_name a.process_id in
      let start : Action Float ExperimentRunRecord =
        transition_run k RunStatus.running start_update a.clock.running_at in
      let then_run : ExperimentRunRecord → RunnerAction Float ExperimentRunRecord = λ running.
        run_running is_finite float_eq sha256 run_id_digest canonical_sha256 type_name message
          previous running.run_id a in
      in_store-bind
        (Returned is_finite float_eq sha256 run_id_digest canonical_sha256 type_name message k
          previous)
        queue (λ _. in_store start >>= then_run) db
        (λ q queued.
          in_store-bind
            (Returned is_finite float_eq sha256 run_id_digest canonical_sha256 type_name message k
              previous)
            start then_run (queue db).1
            (λ r started.
              let (found, _) =
                transition_run-moved k RunStatus.running start_update a.clock.running_at
                  (queue db).1 r started in
              rw (found-id k _ r found) (
                caught-Returned k previous
                  (fail_run is_finite float_eq sha256 run_id_digest canonical_sha256 type_name
                    message k a)
                  (run_body is_finite float_eq sha256 run_id_digest canonical_sha256 type_name
                    message previous k a (start (queue db).1).1)
                  (run_body-Returned is_finite float_eq sha256 run_id_digest canonical_sha256
                    type_name message k previous a (start (queue db).1).1)
                  (λ e. fail_run-Returned k previous a e _)))
            (λ e raised. tt))
        (λ e raised. tt)
