-- ===== src/Experiments/Moves.antt =====
-- What the methods of research/experiments/store.py on runs do when they return, and when they raise,
-- for the workflows that call them.
use binance_algo.Base.{
  eq_refl, ◌+◌, ℕ, String, false, none, some, List, [], ◌∷◌, Result, ok, err, ◌≡◌, refl, inl, inr,
  arith, eq_iff, Option-cases,
}
use binance_algo.Transaction.{◌>>=◌, IsAtomic}
use binance_algo.Experiments.Runner.{lifted, in_store, store_error, RunnerAction, RunnerError}
use binance_algo.Registry.Schema.{RegistryError, ExperimentRunRecord, RegistryDb}
use binance_algo.Registry.Runs.{
  Action, artifact_count, metric_count, run_transitioned, new_run, run_checks, has_run_id, same_run,
  RunUpdate, last_attempt, find_run, transition_run, create_run,
}
use binance_algo.Registry.Status.{run_is_running, RunStatus}
use binance_algo.Table.{select}
use binance_algo.Table.Laws.{select-update_self, select-append}

free-unknown :
    (run : ExperimentRunRecord) (rs : List ExperimentRunRecord)
    → select (same_run run) rs ≡ none
    → select (has_run_id run.run_id) rs ≡ none
unfolding select
free-unknown run [] free = refl
free-unknown run (r ∷ rs) free = ground (arith, free-unknown run rs)

pub found-id :
    (k : String) (rs : List ExperimentRunRecord) (r : ExperimentRunRecord)
    → select (has_run_id k) rs ≡ some r
    → r.run_id ≡ k
unfolding select
found-id k [] r found = ground arith
found-id k (s ∷ rs) r found = ground (arith, eq_iff s.run_id k, found-id k rs r)

module _ {Float : Type 0} where
  -- A run is not there, or its status is another than RUNNING.
  abbrev pub NotRunning : String → RegistryDb Float → Type 0
  NotRunning k db =
      (r : ExperimentRunRecord) → find_run k db ≡ some r → run_is_running r.status ≡ false

  pub found-NotRunning :
      (k : String) (db : RegistryDb Float) (r : ExperimentRunRecord)
      → find_run k db ≡ some r
      → run_is_running r.status ≡ false
      → NotRunning k db
  found-NotRunning k db r found settled s found' = ground arith

  pub transition_run-moves :
      (k : String) (status : RunStatus) (u : RunUpdate) (now : ℕ) (db : RegistryDb Float)
      (r : ExperimentRunRecord)
      → find_run k db ≡ some r
      → run_checks r.status status u.result_digest_value (metric_count k db) (artifact_count k db)
        ≡ none
      → let p = transition_run k status u now db in
        let moved = run_transitioned status u now r in
        (p.0 ≡ ok moved) × (find_run k p.1 ≡ some moved)
  unfolding transition_run
  transition_run-moves k status u now db r found passed = ground (
    arith,
    select-update_self (has_run_id k) (run_transitioned status u now) db.runs (λ r mine. mine),
  )

  -- What a move that returns has read and written.
  pub transition_run-moved :
      (k : String) (status : RunStatus) (u : RunUpdate) (now : ℕ) (db : RegistryDb Float)
      (s : ExperimentRunRecord)
      → let p = transition_run k status u now db in
        p.0 ≡ ok s → (find_run k p.1 ≡ some s) × (s.status ≡ status)
  unfolding transition_run
  transition_run-moved k status u now db s done = elim (Option-cases (find_run k db)) [
    | inl unknown ↦ ground arith
    | inr (r, found) ↦ ground (
      arith,
      select-update_self (has_run_id k) (run_transitioned status u now) db.runs (λ r mine. mine),
    )
  ]

  pub create_run-created :
      (run_id_digest : String → ℕ → String) (identifier : String) (now : ℕ) (db : RegistryDb Float)
      (c : ExperimentRunRecord)
      → let p = create_run run_id_digest identifier now db in
        let n = last_attempt identifier db.runs + 1 in
        p.0 ≡ ok c
        → (find_run (run_id_digest identifier n) p.1 ≡ some c)
          × (c ≡ new_run (run_id_digest identifier n) identifier n now)
  unfolding create_run
  create_run-created run_id_digest identifier now db c done =
      let n = last_attempt identifier db.runs + 1 in
      let run = new_run (run_id_digest identifier n) identifier n now in
      ground (
        arith,
        free-unknown run db.runs,
        select-append (has_run_id run.run_id) db.runs run,
        eq_refl run.run_id,
      )

  pub transition_run-IsAtomic :
      (k : String) (status : RunStatus) (u : RunUpdate) (now : ℕ) (db : RegistryDb Float)
      → IsAtomic db (transition_run k status u now db)
  unfolding transition_run
  transition_run-IsAtomic k status u now db = elim (Option-cases (find_run k db)) [
    | inl unknown ↦ ground arith
    | inr (r, found) ↦ ground (
      arith,
      select-update_self (has_run_id k) (run_transitioned status u now) db.runs (λ r mine. mine),
    )
  ]

  lifted-bind :
      {A B : Type 0} (P : Result RunnerError B × RegistryDb Float → Type 0)
      (f : A → RunnerAction Float B) (p : Result RegistryError A × RegistryDb Float)
      → ((a : A) → p.0 ≡ ok a → P (f a p.1))
      → ((e : RegistryError) → p.0 ≡ err e → P (err (store_error e), p.1))
      → P (((λ db. lifted p) >>= f) p.1)
  lifted-bind P f (ok a, db) returned raised = returned a refl
  lifted-bind P f (err e, db) returned raised = raised e refl

  -- What a workflow does after a method of the registry returns, or raises.
  pub in_store-bind :
      {A B : Type 0} (P : Result RunnerError B × RegistryDb Float → Type 0) (m : Action Float A)
      (f : A → RunnerAction Float B) (db : RegistryDb Float)
      → ((a : A) → (m db).0 ≡ ok a → P (f a (m db).1))
      → ((e : RegistryError) → (m db).0 ≡ err e → P (err (store_error e), (m db).1))
      → P ((in_store m >>= f) db)
  in_store-bind P m f db = lifted-bind P f (m db)
