-- ===== src/Experiments/Calls.antt =====
-- `ExperimentRunner.run` of research/experiments/runner.py as a sequence of calls of the registry.
use binance_algo.Base.{
  ℕ, String, Bool, true, false, Option, none, some, List, [], ◌∷◌, Result, ok, err, is_some, not,
  ◌≡◌, refl, sym, ◌∙◌, ◌++◌, ap,
}
use binance_algo.Registry.Ops.{
  call_create_run, call_complete_run, call_heartbeat_run, call_transition_run, RegistryCall, call,
  run_calls,
}
use binance_algo.Experiments.Runner.{
  no_experiment, no_update, run_running, started_update, run_created, run_experiment, beat_error,
  failed_update, bundle_checked, run_is_current, beat, other, in_store, Tick, fail_current,
  with_heartbeat, or_work_error, lifted, RunnerAction, beating, Attempt, WorkError, fail_run,
  run_body, RunnerError,
}
use binance_algo.Registry.Runs.{
  has_experiment_id, create_run, heartbeat_run, transition_run, RunUpdate, get_run, Action,
}
use binance_algo.Table.{select}
use binance_algo.Registry.Reads.{latest_successful_run}
use binance_algo.Transaction.{pure, raise, ◌>>◌, ◌>>=◌, gets, raise_if}
use binance_algo.Registry.Outputs.{complete_run}
use binance_algo.Registry.Schema.{ExperimentRunRecord, RegistryError, RegistryDb}
use binance_algo.Registry.Status.{RunStatus}
use binance_algo.Registry.Promotions.{PromotionEventSpec}
use binance_algo.Transaction.Moves.{bind-Moves, try_except-Moves}

module _ {Float : Type 0} (is_finite : Float → Bool) (float_eq : Float → Float → Bool)
    (sha256 : List String → String) (run_id_digest : String → ℕ → String)
    (canonical_sha256 : PromotionEventSpec → String)
    (type_name message : RunnerError → String) where
  abbrev pub history : List (RegistryCall Float) → RegistryDb Float → RegistryDb Float
  history = run_calls is_finite float_eq sha256 run_id_digest canonical_sha256

  history-append :
      (cs ds : List (RegistryCall Float)) (db : RegistryDb Float)
      → history (cs ++ ds) db ≡ history ds (history cs db)
  unfolding run_calls
  history-append [] ds db = refl
  history-append (c ∷ cs) ds db =
      history-append cs ds (call is_finite float_eq sha256 run_id_digest canonical_sha256 c db)

  -- Some sequence of calls of the registry leads from one database to the other.
  abbrev pub Reaches : RegistryDb Float → RegistryDb Float → Type 0
  Reaches db after = (calls : List (RegistryCall Float)) × (history calls db ≡ after)

  pub Reaches-refl : (db : RegistryDb Float) → Reaches db db
  unfolding run_calls
  Reaches-refl db = ([], refl)

  pub Reaches-trans : (a b c : RegistryDb Float) → Reaches a b → Reaches b c → Reaches a c
  Reaches-trans a b c (cs, to_b) (ds, to_c) =
      (cs ++ ds, history-append cs ds a ∙ ap (history ds) to_b ∙ to_c)

  -- An action that changes the registry by calls only.
  abbrev pub IsCalls : {A : Type 0} → RunnerAction Float A → Type 0
  IsCalls m = (db : RegistryDb Float) → Reaches db (m db).1

  lifted-db : {A : Type 0} (p : Result RegistryError A × RegistryDb Float) → (lifted p).1 ≡ p.1
  lifted-db (ok a, db) = refl
  lifted-db (err e, db) = refl

  pub in_store-IsCalls :
      {A : Type 0} (m : Action Float A) (c : RegistryCall Float)
      → ((db : RegistryDb Float)
          → call is_finite float_eq sha256 run_id_digest canonical_sha256 c db ≡ (m db).1)
      → IsCalls (in_store m)
  unfolding run_calls
  in_store-IsCalls m c same db = (c ∷ [], same db ∙ sym (lifted-db (m db)))

  reads-IsCalls :
      {A : Type 0} (m : Action Float A)
      → ((db : RegistryDb Float) → (m db).1 ≡ db)
      → IsCalls (in_store m)
  unfolding run_calls
  reads-IsCalls m same db = ([], sym (lifted-db (m db) ∙ same db))

  beating-Reaches :
      (k : String) (ticks : List (Tick Float)) (error : Option RegistryError)
      (db : RegistryDb Float)
      → Reaches db
          (beating is_finite float_eq sha256 run_id_digest canonical_sha256 type_name message k
            ticks error db).1
  unfolding beating run_calls call
  beating-Reaches k [] error db = Reaches-refl db
  beating-Reaches k (other c ∷ ticks) error db =
      let after = call is_finite float_eq sha256 run_id_digest canonical_sha256 c db in
      Reaches-trans db after _ (c ∷ [], refl) (beating-Reaches k ticks error after)
  beating-Reaches k (beat now ∷ ticks) (some e) db = beating-Reaches k ticks (some e) db
  beating-Reaches k (beat now ∷ ticks) none db =
      let p = heartbeat_run {Float = Float} k none now db in
      Reaches-trans db p.1 _ (call_heartbeat_run k none now ∷ [], refl)
        (beating-Reaches k ticks (beat_error p.0) p.1)

  transition-IsCalls :
      (k : String) (status : RunStatus) (u : RunUpdate) (now : ℕ)
      → IsCalls (in_store (transition_run k status u now))
  unfolding call
  transition-IsCalls k status u now =
      in_store-IsCalls (transition_run k status u now) (call_transition_run k status u now)
        (λ db. refl)

  body-IsCalls :
      (previous : Option ExperimentRunRecord) (k : String) (a : Attempt Float)
      → IsCalls (
          run_body is_finite float_eq sha256 run_id_digest canonical_sha256 type_name message
            previous k a)
  unfolding run_body with_heartbeat call
  body-IsCalls previous k a =
      bind-Moves Reaches Reaches-refl Reaches-trans
        (with_heartbeat is_finite float_eq sha256 run_id_digest canonical_sha256 type_name message k
          a.ticks (bundle_checked previous a.work))
        (λ b. in_store (
          complete_run is_finite float_eq sha256 k b.digest b.metric_records b.artifacts
            a.clock.completed_at))
        (λ db. beating-Reaches k a.ticks none db)
        (λ b.
          in_store-IsCalls
            (complete_run is_finite float_eq sha256 k b.digest b.metric_records b.artifacts
              a.clock.completed_at)
            (call_complete_run k b.digest b.metric_records b.artifacts a.clock.completed_at)
            (λ db. refl))

  or_work_error-IsCalls : {A : Type 0} (r : Result WorkError A) → IsCalls (or_work_error r)
  or_work_error-IsCalls (ok a) db = Reaches-refl db
  or_work_error-IsCalls (err e) db = Reaches-refl db

  fail_current-IsCalls :
      (current : Bool) (k : String) (a : Attempt Float) (e : RunnerError)
      → IsCalls (
          fail_current is_finite float_eq sha256 run_id_digest canonical_sha256 type_name message
            current k a e)
  fail_current-IsCalls false k a e = Reaches-refl
  fail_current-IsCalls true k a e =
      bind-Moves Reaches Reaches-refl Reaches-trans (or_work_error a.saved)
        (λ path.
          in_store (
            transition_run k RunStatus.failed (failed_update (type_name e) (message e) path)
              a.clock.failed_at)
          >> pure tt)
        (or_work_error-IsCalls a.saved)
        (λ path.
          bind-Moves Reaches Reaches-refl Reaches-trans
            (in_store (
              transition_run k RunStatus.failed (failed_update (type_name e) (message e) path)
                a.clock.failed_at))
            (λ _. pure tt)
            (transition-IsCalls k RunStatus.failed (failed_update (type_name e) (message e) path)
              a.clock.failed_at)
            (λ _ db. Reaches-refl db))

  fail_run-IsCalls :
      (k : String) (a : Attempt Float) (e : RunnerError)
      → IsCalls (
          fail_run is_finite float_eq sha256 run_id_digest canonical_sha256 type_name message k a e)
  unfolding fail_run get_run
  fail_run-IsCalls k a e =
      bind-Moves Reaches Reaches-refl Reaches-trans (in_store (get_run k))
        (λ current.
          fail_current is_finite float_eq sha256 run_id_digest canonical_sha256 type_name message
            (run_is_current current) k a e
          >> raise e)
        (reads-IsCalls (get_run k) (λ db. refl))
        (λ current.
          bind-Moves Reaches Reaches-refl Reaches-trans
            (fail_current is_finite float_eq sha256 run_id_digest canonical_sha256 type_name message
              (run_is_current current) k a e)
            (λ _. raise e) (fail_current-IsCalls (run_is_current current) k a e)
            (λ _ db. Reaches-refl db))

  pub created-IsCalls :
      (previous : Option ExperimentRunRecord) (k : String) (a : Attempt Float)
      → IsCalls (
          run_created is_finite float_eq sha256 run_id_digest canonical_sha256 type_name message
            previous k a)
  unfolding run_created
  created-IsCalls previous k a =
      let start = started_update a.host_name a.process_id in
      let running = λ (r : ExperimentRunRecord).
        run_running is_finite float_eq sha256 run_id_digest canonical_sha256 type_name message
          previous r.run_id a in
      bind-Moves Reaches Reaches-refl Reaches-trans
        (in_store (transition_run k RunStatus.queued no_update a.clock.queued_at))
        (λ _. in_store (transition_run k RunStatus.running start a.clock.running_at) >>= running)
        (transition-IsCalls k RunStatus.queued no_update a.clock.queued_at)
        (λ _.
          bind-Moves Reaches Reaches-refl Reaches-trans
            (in_store (transition_run k RunStatus.running start a.clock.running_at)) running
            (transition-IsCalls k RunStatus.running start a.clock.running_at)
            (λ r.
              try_except-Moves Reaches Reaches-refl Reaches-trans
                (run_body is_finite float_eq sha256 run_id_digest canonical_sha256 type_name message
                  previous r.run_id a)
                (fail_run is_finite float_eq sha256 run_id_digest canonical_sha256 type_name message
                  r.run_id a)
                (body-IsCalls previous r.run_id a) (fail_run-IsCalls r.run_id a)))

  known-IsCalls : (b : Bool) (e : RunnerError) → IsCalls (raise_if b e)
  known-IsCalls true e = Reaches-refl
  known-IsCalls false e = Reaches-refl

  -- Whether or not it returns, and whatever fails in it, `run` changes the registry as some sequence
  -- of calls of its methods does, so that all that holds along such sequences holds of it.
  pub run_experiment-Reaches :
      (identifier : String) (a : Attempt Float) (db : RegistryDb Float)
      → Reaches db
          (run_experiment is_finite float_eq sha256 run_id_digest canonical_sha256 type_name message
            identifier a db).1
  unfolding run_experiment latest_successful_run call
  run_experiment-Reaches identifier a =
      let create : RunnerAction Float ExperimentRunRecord =
        in_store (create_run run_id_digest identifier a.clock.created_at) in
      let rest = λ (previous : Option ExperimentRunRecord) (created : ExperimentRunRecord).
        run_created is_finite float_eq sha256 run_id_digest canonical_sha256 type_name message
          previous created.run_id a in
      let read : RunnerAction Float (Option ExperimentRunRecord) =
        in_store (latest_successful_run identifier) in
      bind-Moves Reaches Reaches-refl Reaches-trans
        (gets (λ db. select (has_experiment_id identifier) db.experiments))
        (λ spec.
          raise_if (not (is_some spec)) (no_experiment identifier)
          >> (read >>= λ previous. create >>= rest previous))
        Reaches-refl
        (λ spec.
          bind-Moves Reaches Reaches-refl Reaches-trans
            (raise_if (not (is_some spec)) (no_experiment identifier))
            (λ _. read >>= λ previous. create >>= rest previous)
            (known-IsCalls (not (is_some spec)) (no_experiment identifier))
            (λ _.
              bind-Moves Reaches Reaches-refl Reaches-trans read
                (λ previous. create >>= rest previous)
                (reads-IsCalls (latest_successful_run identifier) (λ db. refl))
                (λ previous.
                  bind-Moves Reaches Reaches-refl Reaches-trans create (rest previous)
                    (in_store-IsCalls (create_run run_id_digest identifier a.clock.created_at)
                      (call_create_run identifier a.clock.created_at) (λ db. refl))
                    (λ created. created-IsCalls previous created.run_id a))))
