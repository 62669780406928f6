-- ===== src/Experiments/Successes.antt =====
-- The successful runs of an experiment, along the calls of the registry of
-- research/experiments/store.py.
use binance_algo.Experiments.Returned.{created-Returned}
use binance_algo.Base.{
  ◌+◌, subst, eq_refl, str_eq, ℕ, String, Bool, true, Option, none, some, List, [], ◌∷◌, Result, ok,
  err, is_some, ◌≡◌, refl, inl, inr, ◌⊎◌, arith, Option-cases, Bool-cases, sym, ◌∙◌, ap, eq_iff,
}
use binance_algo.Experiments.Moves.{found-id, create_run-created}
use binance_algo.Experiments.Settled.{Returned}
use binance_algo.Registry.Ops.{call_create_run, call, run_calls}
use binance_algo.Experiments.Calls.{created-IsCalls, Reaches}
use binance_algo.Registry.Runs.{
  last_attempt, has_experiment_id, create_run, Action, run_of_experiment, has_run_id, run_key,
  find_run,
}
use binance_algo.Experiments.Runner.{
  run_created, Attempt, lifted, RunnerAction, run_experiment, RunnerError,
}
use binance_algo.Transaction.{◌>>=◌}
use binance_algo.Registry.Soundness.{run_calls-RunsAreSound}
use binance_algo.Registry.RunMachine.{run_calls-RunPath, RunMove, RunPath}
use binance_algo.Registry.Reads.{latest_successful_run, latest_success}
use binance_algo.Registry.RunInvariant.{RunsAreSound}
use binance_algo.Registry.Schema.{RegistryError, ExperimentRunRecord, RegistryDb}
use binance_algo.Registry.Promotions.{PromotionEventSpec}
use binance_algo.Registry.Status.{run_is_succeeded, run_transition, RunStatus}
use binance_algo.Table.Laws.{IsKeyed}
use binance_algo.Table.{select}

-- A succeeded status is never left.
succeeded-RunMove :
    (s t : RunStatus) → RunMove s t → s ≡ RunStatus.succeeded → t ≡ RunStatus.succeeded
unfolding run_transition
succeeded-RunMove s t (inl same) start = same ∙ start
succeeded-RunMove s t (inr moved) start = ground arith

succeeded-RunPath :
    {s t : RunStatus} → RunPath s t → s ≡ RunStatus.succeeded → t ≡ RunStatus.succeeded
succeeded-RunPath RunPath.here start = start
succeeded-RunPath (RunPath.next {s} {t} {u} move path) start =
    succeeded-RunPath path (succeeded-RunMove s t move start)

module _ {Float : Type 0} where
  -- The registry has a succeeded run of an experiment.
  abbrev pub HasSuccess : String → RegistryDb Float → Type 0
  HasSuccess e db =
      (k : String) × (r : ExperimentRunRecord) × (find_run k db ≡ some r)
      × (r.experiment_id ≡ e)
      × (r.status ≡ RunStatus.succeeded)

succeeded_status : (s : RunStatus) → run_is_succeeded s ≡ true → s ≡ RunStatus.succeeded
succeeded_status s succeeded = ground arith

latest_success-cases :
    (e : String) (s : ExperimentRunRecord) (rs : List ExperimentRunRecord) (r : ExperimentRunRecord)
    → latest_success e (s ∷ rs) ≡ some r
    → ((r ≡ s) × (run_of_experiment e s ≡ true) × (run_is_succeeded s.status ≡ true))
      ⊎ (latest_success e rs ≡ some r)
unfolding latest_success
latest_success-cases e s rs r latest = elim (Option-cases (latest_success e rs)) [
  | inl nothing ↦ ground arith
  | inr (t, found) ↦ ground arith
]

found_below :
    (s : ExperimentRunRecord) (rs : List ExperimentRunRecord) (r : ExperimentRunRecord)
    → select (has_run_id s.run_id) rs ≡ none
    → select (has_run_id r.run_id) rs ≡ some r
    → select (has_run_id r.run_id) (s ∷ rs) ≡ some r
unfolding select
found_below s rs r free found = elim (Bool-cases (str_eq s.run_id r.run_id)) [
  | inl same ↦
      let equal = (eq_iff s.run_id r.run_id).0 same in
      let nothing = rw equal at free in ground (arith, nothing)
  | inr apart ↦ rw apart found
]

-- The latest success is a succeeded run of the experiment, which its id finds.
pub latest_success-found :
    (e : String) (rs : List ExperimentRunRecord) (r : ExperimentRunRecord)
    → IsKeyed run_key rs
    → latest_success e rs ≡ some r
    → (select (has_run_id r.run_id) rs ≡ some r)
      × (r.experiment_id ≡ e)
      × (r.status ≡ RunStatus.succeeded)
unfolding select latest_success
latest_success-found e [] r keyed latest = ground arith
latest_success-found e (s ∷ rs) r keyed latest = elim (latest_success-cases e s rs r latest) [
  | inl (same, mine, succeeded) ↦ rw same (
    rw (eq_refl s.run_id) refl,
    (eq_iff s.experiment_id e).0 mine,
    succeeded_status s.status succeeded,
  )
  | inr below ↦
      let (found, mine, succeeded) = latest_success-found e rs r keyed.1 below in
      (found_below s rs r keyed.0 found, mine, succeeded)
]

module _ {Float : Type 0} (is_finite : Float → Bool) (float_eq : Float → Float → Bool)
    (sha256 : List String → String) (run_id_digest : String → ℕ → String)
    (canonical_sha256 : PromotionEventSpec → String)
    (type_name message : RunnerError → String) where
  -- A success stays along every sequence of calls of the registry.
  pub HasSuccess-Reaches :
      (e : String) (db after : RegistryDb Float)
      → RunsAreSound db
      → Reaches is_finite float_eq sha256 run_id_digest canonical_sha256 type_name message db after
      → HasSuccess e db
      → HasSuccess e after
  HasSuccess-Reaches e db after sound (calls, reached) (k, r, found, mine, succeeded) =
      let (s, found', same, _, path) =
        run_calls-RunPath is_finite float_eq sha256 run_id_digest canonical_sha256 calls db k sound
          found in
      subst (HasSuccess e) reached (k, s, found', same ∙ mine, succeeded-RunPath path succeeded)

  pub RunsAreSound-Reaches :
      (db after : RegistryDb Float)
      → RunsAreSound db
      → Reaches is_finite float_eq sha256 run_id_digest canonical_sha256 type_name message db after
      → RunsAreSound after
  RunsAreSound-Reaches db after sound (calls, reached) = subst RunsAreSound reached (
      run_calls-RunsAreSound is_finite float_eq sha256 run_id_digest canonical_sha256 calls db
        sound)

  in_store-returns :
      {A B : Type 0} (p : Result RegistryError A × RegistryDb Float) (f : A → RunnerAction Float B)
      (b : B)
      → (((λ (_ : RegistryDb Float). lifted p) >>= f) p.1).0 ≡ ok b
      → (a : A) × (p.0 ≡ ok a) × (((λ (_ : RegistryDb Float). lifted p) >>= f) p.1 ≡ f a p.1)
  in_store-returns (ok a, db) f b done = (a, refl, refl)
  in_store-returns (err e, db) f b done = ground arith

  -- A run that returns has created its run before.
  run_experiment-returns :
      (identifier : String) (a : Attempt Float) (db : RegistryDb Float) (r : ExperimentRunRecord)
      → let p =
          run_experiment is_finite float_eq sha256 run_id_digest canonical_sha256 type_name message
            identifier a db in
        let create : Action Float ExperimentRunRecord =
          create_run run_id_digest identifier a.clock.created_at in
        p.0 ≡ ok r
        → (c : ExperimentRunRecord) × ((create db).0 ≡ ok c)
          × (p
              ≡ run_created is_finite float_eq sha256 run_id_digest canonical_sha256 type_name
                  message
                  (latest_success identifier db.runs)
                  c.run_id
                  a
                  (create db).1)
  unfolding run_experiment latest_successful_run
  run_experiment-returns identifier a db r done =
      elim (Bool-cases (is_some (select (has_experiment_id identifier) db.experiments))) [
        | inr unknown ↦ ground arith
        | inl known ↦ rw known (
            in_store-returns (create_run run_id_digest identifier a.clock.created_at db)
              (λ c.
                run_created is_finite float_eq sha256 run_id_digest canonical_sha256 type_name
                  message (latest_success identifier db.runs) c.run_id a)
              r (rw known at done))
      ]

  Returned-ok :
      (k : String) (previous : Option ExperimentRunRecord)
      (p : Result RunnerError ExperimentRunRecord × RegistryDb Float) (r : ExperimentRunRecord)
      → p.0 ≡ ok r
      → Returned is_finite float_eq sha256 run_id_digest canonical_sha256 type_name message k
          previous p
      → (find_run k p.1 ≡ some r) × (r.status ≡ RunStatus.succeeded)
  Returned-ok k previous (ok x, after) r done (found, (succeeded, _)) = (ground arith, ground arith)
  Returned-ok k previous (err e, after) r done returned = ground arith

  create-Reaches :
      (identifier : String) (now : ℕ) (db : RegistryDb Float)
      → Reaches is_finite float_eq sha256 run_id_digest canonical_sha256 type_name message db
          (create_run run_id_digest identifier now db).1
  unfolding run_calls call
  create-Reaches identifier now db = (call_create_run identifier now ∷ [], refl)

  pub run_experiment-HasSuccess :
      (identifier : String) (a : Attempt Float) (db : RegistryDb Float) (r : ExperimentRunRecord)
      → RunsAreSound db
      → let p =
          run_experiment is_finite float_eq sha256 run_id_digest canonical_sha256 type_name message
            identifier a db in
        p.0 ≡ ok r → HasSuccess identifier p.1
  run_experiment-HasSuccess identifier a db r sound done =
      let k = run_id_digest identifier (last_attempt identifier db.runs + 1) in
      let create : Action Float ExperimentRunRecord =
        create_run run_id_digest identifier a.clock.created_at in
      let (c, made, rest) = run_experiment-returns identifier a db r done in
      let (found, same) =
        create_run-created run_id_digest identifier a.clock.created_at db c made in
      let (calls, reached) =
        created-IsCalls is_finite float_eq sha256 run_id_digest canonical_sha256 type_name message
          (latest_success identifier db.runs) c.run_id a (create db).1 in
      let sound' =
        RunsAreSound-Reaches db (create db).1 sound
          (create-Reaches identifier a.clock.created_at db) in
      let (s, found', mine, _, _) =
        run_calls-RunPath is_finite float_eq sha256 run_id_digest canonical_sha256 calls
          (create db).1 k sound' found in
      let settled =
        created-Returned is_finite float_eq sha256 run_id_digest canonical_sha256 type_name message
          k (latest_success identifier db.runs) a (create db).1 in
      let key = found-id k _ c found in
      let rest' = rw key at rest in
      let (left, succeeded) = Returned-ok k (latest_success identifier db.runs) _ r done (
        subst
          (Returned is_finite float_eq sha256 run_id_digest canonical_sha256 type_name message k
            (latest_success identifier db.runs))
          (sym rest') settled) in
      let after = reached ∙ ap (λ p. p.1) (sym rest) in
      let found'' = rw after at found' in
      (k, r, left, ground (arith, found'', left, mine, same), succeeded)
