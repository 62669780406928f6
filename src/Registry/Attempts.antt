-- ===== src/Registry/Attempts.antt =====
-- `create_run` of research/experiments/store.py: the attempts of an experiment.
use binance_algo.Base.{
  ◌⊎◌, ◌++◌, ok, eq_refl, ◌+◌, is_some, ◌<◌, arith, ◌≡◌, All, refl, ℕ, String, true, none, List, [],
  ◌∷◌,
}
use binance_algo.Table.Laws.{select-append}
use binance_algo.Registry.Runs.{
  find_run, new_run, has_experiment_id, same_run, has_run_id, create_run, last_attempt,
  run_of_experiment,
}
use binance_algo.Transaction.{IsAtomic}
use binance_algo.Registry.Status.{RunStatus}
use binance_algo.Registry.Schema.{RegistryDb, ExperimentRunRecord}
use binance_algo.Table.{select}

-- No run of the experiment has this attempt or a later one.
abbrev pub IsNextAttempt : String → ℕ → List ExperimentRunRecord → Type 0
IsNextAttempt e n rs =
    All (λ (r : ExperimentRunRecord). run_of_experiment e r ≡ true → r.attempt < n) rs

bound-IsNextAttempt :
    (e : String) (n : ℕ) (rs : List ExperimentRunRecord)
    → last_attempt e rs < n
    → IsNextAttempt e n rs
unfolding last_attempt
bound-IsNextAttempt e n [] h = tt
bound-IsNextAttempt e n (r ∷ rs) h = ground (arith, bound-IsNextAttempt e n rs)

-- The attempt before this one is of a run of the experiment, or there is none.
abbrev pub HasPrevious : String → ℕ → List ExperimentRunRecord → Type 0
HasPrevious e n [] = n ≡ 0
HasPrevious e n (r ∷ rs) = ((run_of_experiment e r ≡ true) × (r.attempt ≡ n)) ⊎ HasPrevious e n rs

last_attempt-HasPrevious :
    (e : String) (rs : List ExperimentRunRecord) → HasPrevious e (last_attempt e rs) rs
unfolding last_attempt
last_attempt-HasPrevious e [] = refl
last_attempt-HasPrevious e (r ∷ rs) = ground (arith, last_attempt-HasPrevious e rs)

next-is_free :
    (e k : String) (n now : ℕ) (rs : List ExperimentRunRecord)
    → IsNextAttempt e n rs
    → select (has_run_id k) rs ≡ none
    → select (same_run (new_run k e n now)) rs ≡ none
unfolding select
next-is_free e k n now [] next free = refl
next-is_free e k n now (r ∷ rs) next free = ground (arith, next-is_free e k n now rs)

-- The run that a call is to insert, field by field.
abbrev pub pending_run : String → String → ℕ → ℕ → ExperimentRunRecord
pending_run k e n now = record {
  run_id = k;
  experiment_id = e;
  attempt = n;
  status = RunStatus.pending;
  worker_id = none;
  host_name = none;
  process_id = none;
  started_at_ms = none;
  heartbeat_at_ms = none;
  finished_at_ms = none;
  runtime = none;
  result_digest = none;
  error_type = none;
  error_message = none;
  traceback_path = none;
  created_at_ms = now;
}

-- For a known experiment, and if no run has the id of its next attempt, `create_run` returns a pending
-- run, which has not started, with that id, its attempt and the time of the call, and only appends
-- it; its attempt is one more than that of some run of the experiment, or 1 if there is none, and
-- higher than those of all its runs.
pub create_run-next :
    {Float : Type 0} (digest : String → ℕ → String) (e : String) (now : ℕ) (db : RegistryDb Float)
    → is_some (select (has_experiment_id e) db.experiments) ≡ true
    → find_run (digest e (last_attempt e db.runs + 1)) db ≡ none
    → (last : ℕ) × HasPrevious e last db.runs
      × IsNextAttempt e (last + 1) db.runs
      × (create_run digest e now db ≡ (
        ok (pending_run (digest e (last + 1)) e (last + 1) now),
        record db { runs = db.runs ++ (pending_run (digest e (last + 1)) e (last + 1) now ∷ []) },
      ))
unfolding create_run
create_run-next digest e now db known free =
    let n = last_attempt e db.runs + 1 in
    let next = bound-IsNextAttempt e n db.runs (ground arith) in
    (
      last_attempt e db.runs,
      last_attempt-HasPrevious e db.runs,
      next,
      ground (
        arith,
        eq_refl (digest e n),
        next-is_free e (digest e n) n now db.runs next free,
        select-append (has_run_id (digest e n)) db.runs (new_run (digest e n) e n now),
      ),
    )

-- An unknown experiment, or an id that is taken, makes `create_run` raise and add no run.
pub create_run-IsAtomic :
    {Float : Type 0} (digest : String → ℕ → String) (e : String) (now : ℕ) (db : RegistryDb Float)
    → IsAtomic db (create_run digest e now db)
unfolding create_run
create_run-IsAtomic digest e now db =
    let n = last_attempt e db.runs + 1 in
    ground (
      arith,
      eq_refl (digest e n),
      select-append (has_run_id (digest e n)) db.runs (new_run (digest e n) e n now),
    )
