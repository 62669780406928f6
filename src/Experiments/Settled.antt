-- ===== src/Experiments/Settled.antt =====
-- What `ExperimentRunner.run` of research/experiments/runner.py leaves in the registry.
use binance_algo.Base.{
  eq_refl, ap, ℕ, String, Bool, true, Option, none, some, List, Result, ok, err, ◌≡◌, refl, inl,
  inr, arith, eq_iff, Option-cases, Bool-cases, sym,
}
use binance_algo.Experiments.Runner.{
  in_store, lifted, beating, with_heartbeat, RunnerAction, heartbeat_exited, run_body,
  failed_update, Attempt, Bundle, WorkError, fail_run, RunnerError, bundle_checked,
}
use binance_algo.Transaction.{◌>>=◌, caught}
use binance_algo.Experiments.Moves.{found-NotRunning, transition_run-moves, NotRunning}
use binance_algo.Registry.Runs.{artifact_count, metric_count, run_checks, find_run, get_run}
use binance_algo.Registry.Completion.{complete_run-completes}
use binance_algo.Registry.Schema.{RegistryError, RegistryDb, ExperimentRunRecord}
use binance_algo.Registry.Outputs.{complete_run, option_str_eq}
use binance_algo.Registry.Status.{run_transition, RunStatus, run_is_running}
use binance_algo.Registry.Promotions.{PromotionEventSpec}

option_str_eq_iff : (a b : Option String) → option_str_eq a b ≡ true → a ≡ b
option_str_eq_iff none none same = refl
option_str_eq_iff none (some b) same = ground arith
option_str_eq_iff (some a) none same = ground arith
option_str_eq_iff (some a) (some b) same = ap some ((eq_iff a b).0 same)

running_may_fail :
    (status : RunStatus) (metrics artifacts : ℕ)
    → run_is_running status ≡ true
    → run_checks status RunStatus.failed none metrics artifacts ≡ none
unfolding run_checks run_transition
running_may_fail status metrics artifacts running = ground arith

bundle_checked-same :
    {Float : Type 0} (s : ExperimentRunRecord) (work : Result WorkError (Bundle Float))
    (b : Bundle Float)
    → bundle_checked (some s) work ≡ ok b
    → s.result_digest ≡ some b.digest
unfolding bundle_checked
bundle_checked-same s (ok w) b done =
    ground (arith, option_str_eq_iff s.result_digest (some w.digest))
bundle_checked-same s (err e) b done = ground arith

module _ {Float : Type 0} (is_finite : Float → Bool) (float_eq : Float → Float → Bool)
    (sha256 : List String → String) (run_id_digest : String → ℕ → String)
    (canonical_sha256 : PromotionEventSpec → String)
    (type_name message : RunnerError → String) where
  -- A run that returns is the succeeded run in the registry, with the digest of the last success
  -- before it; one that raises is not left running.
  abbrev pub Settles :
      String
      → Option ExperimentRunRecord
      → Result RunnerError ExperimentRunRecord × RegistryDb Float
      → Type 0
  Settles k previous (ok r, after) =
      (find_run k after ≡ some r)
      × ((r.status ≡ RunStatus.succeeded)
          × ((s : ExperimentRunRecord) → previous ≡ some s → r.result_digest ≡ s.result_digest))
  Settles k previous (err e, after) = NotRunning k after

  pub fail_run-Settles :
      (k : String) (previous : Option ExperimentRunRecord) (a : Attempt Float) (e : RunnerError)
      (path : String) (db : RegistryDb Float)
      → a.saved ≡ ok path
      → Settles k previous (
          fail_run is_finite float_eq sha256 run_id_digest canonical_sha256 type_name message k a e
            db)
  unfolding fail_run get_run
  fail_run-Settles k previous a e path db saved = elim (Option-cases (find_run k db)) [
    | inl unknown ↦ ground arith
    | inr (r, found) ↦ elim (Bool-cases (run_is_running r.status)) [
      | inl running ↦
          let (moved, after) =
            transition_run-moves k RunStatus.failed (failed_update (type_name e) (message e) path)
              a.clock.failed_at db r found
              (running_may_fail r.status (metric_count k db) (artifact_count k db) running) in
          ground (arith, moved, found-NotRunning k _ _ after refl)
      | inr settled ↦ ground (arith, found-NotRunning k db r found settled)
    ]
  ]

  -- What a body returns is settled; what it raises is left to the handler.
  abbrev pub Returned :
      String
      → Option ExperimentRunRecord
      → Result RunnerError ExperimentRunRecord × RegistryDb Float
      → Type 0
  Returned k previous (ok r, after) = Settles k previous (ok r, after)
  Returned k previous (err e, after) = Unit

  pub caught-Settles :
      (k : String) (previous : Option ExperimentRunRecord)
      (handler : RunnerError → RunnerAction Float ExperimentRunRecord)
      (p : Result RunnerError ExperimentRunRecord × RegistryDb Float)
      → Returned k previous p
      → ((e : RunnerError) → Settles k previous (handler e p.1))
      → Settles k previous (caught handler p)
  caught-Settles k previous handler (ok r, after) returned raised = returned
  caught-Settles k previous handler (err e, after) returned raised = raised e

  lifted-Returned :
      (k : String) (previous : Option ExperimentRunRecord)
      (p : Result RegistryError ExperimentRunRecord × RegistryDb Float)
      → ((r : ExperimentRunRecord) → p.0 ≡ ok r → Settles k previous (ok r, p.1))
      → Returned k previous (lifted p)
  lifted-Returned k previous (ok r, after) returned = returned r refl
  lifted-Returned k previous (err e, after) returned = tt

  bind-Returned :
      (k : String) (previous : Option ExperimentRunRecord)
      (result : Result RunnerError (Bundle Float)) (db : RegistryDb Float)
      (f : Bundle Float → RunnerAction Float ExperimentRunRecord)
      → ((b : Bundle Float) → result ≡ ok b → Returned k previous (f b db))
      → Returned k previous (((λ before. (result, db)) >>= f) db)
  bind-Returned k previous (ok b) db f returned = returned b refl
  bind-Returned k previous (err e) db f returned = tt

  heartbeat_exited-ok :
      (error : Option RegistryError) (result : Result RunnerError (Bundle Float)) (b : Bundle Float)
      → heartbeat_exited error result ≡ ok b
      → result ≡ ok b
  unfolding heartbeat_exited
  heartbeat_exited-ok none result b done = done
  heartbeat_exited-ok (some e) (ok w) b done = ground arith
  heartbeat_exited-ok (some e) (err f) b done = done

  completed-Settles :
      (k : String) (previous : Option ExperimentRunRecord) (work : Result WorkError (Bundle Float))
      (b : Bundle Float) (now : ℕ) (db : RegistryDb Float)
      → bundle_checked previous work ≡ ok b
      → let p =
          complete_run is_finite float_eq sha256 k b.digest b.metric_records b.artifacts now db in
        (r : ExperimentRunRecord) → p.0 ≡ ok r → Settles k previous (ok r, p.1)
  completed-Settles k previous work b now db given r done =
      let (before, found, running, same, reads, _, _) =
        complete_run-completes is_finite float_eq sha256 k b.digest b.metric_records b.artifacts now
          db done in
      (
        rw (reads k, eq_refl k) refl,
        (
          rw same refl,
          λ s latest. rw same (sym (bundle_checked-same s work b (rw latest at given))),
        ),
      )

  pub run_body-Returned :
      (k : String) (previous : Option ExperimentRunRecord) (a : Attempt Float)
      (db : RegistryDb Float)
      → Returned k previous (
          run_body is_finite float_eq sha256 run_id_digest canonical_sha256 type_name message
            previous k a db)
  unfolding run_body with_heartbeat
  run_body-Returned k previous a db =
      let beaten =
        beating is_finite float_eq sha256 run_id_digest canonical_sha256 type_name message k a.ticks
          none db in
      let result = bundle_checked previous a.work in
      let completed = λ (b : Bundle Float) (kept : heartbeat_exited beaten.0 result ≡ ok b).
        lifted-Returned k previous
          (complete_run is_finite float_eq sha256 k b.digest b.metric_records b.artifacts
            a.clock.completed_at beaten.1)
          (completed-Settles k previous a.work b a.clock.completed_at beaten.1
            (heartbeat_exited-ok beaten.0 result b kept)) in
      bind-Returned k previous (heartbeat_exited beaten.0 result) beaten.1
        (λ b. in_store (
          complete_run is_finite float_eq sha256 k b.digest b.metric_records b.artifacts
            a.clock.completed_at))
        completed
