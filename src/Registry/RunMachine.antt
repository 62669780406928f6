-- ===== src/Registry/RunMachine.antt =====
-- The statuses of runs of research/experiments/store.py move along RUN_TRANSITIONS.
use binance_algo.Base.{
  ◌∙◌, eq_iff, sym, str_eq, Bool-cases, ◌+◌, Option-cases, if◌then◌else◌, arith, ◌⊎◌, ◌≡◌, refl,
  inl, inr, ℕ, String, Bool, true, Option, none, some, List, [], ◌∷◌,
}
use binance_algo.Registry.Soundness.{
  promotion-SameRuns, experiment-SameRuns, association-SameRuns, campaign_move-SameRuns,
  campaign-SameRuns, hypothesis_move-SameRuns, hypothesis-SameRuns, record_artifact-Grows,
  record_metric-Grows, call-RunsAreSound,
}
use binance_algo.Registry.Promotions.{record_promotion_event, PromotionEventSpec}
use binance_algo.Registry.Experiments.{register_experiment, associate_campaign_experiment}
use binance_algo.Registry.Ops.{
  call_record_promotion_event, call_transition_campaign, call_register_campaign,
  call_transition_hypothesis, call_register_hypothesis, call_complete_run, call_record_artifact,
  call_record_metric, call_mark_stale_runs, call_heartbeat_run, call_transition_run,
  call_register_experiment, call_associate_experiment, call_create_run, RegistryCall, run_calls,
  call,
}
use binance_algo.Registry.Campaigns.{
  transition_campaign, register_campaign, transition_hypothesis, register_hypothesis,
}
use binance_algo.Registry.Outputs.{
  record_artifact, record_metric, run_completed, complete_run, ArtifactOutput,
}
use binance_algo.Registry.RunInvariant.{RunsAreSound}
use binance_algo.Transaction.{unchanged, Result-cases}
use binance_algo.Registry.Completion.{complete_run-IsAtomic, complete_run-completes}
use binance_algo.Registry.Schema.{MetricRow, ExperimentRunRecord, RegistryDb}
use binance_algo.Registry.Status.{run_is_running, run_transition, RunStatus}
use binance_algo.Table.Laws.{select-update_key, select-append, IsKeyed}
use binance_algo.Registry.Runs.{
  new_run, run_transitioned, timestamp_or, artifact_count, beaten, staled, has_run_id, metric_count,
  last_attempt, mark_stale_runs, find_run, run_key, RunUpdate, is_stale_before, run_checks,
  create_run, transition_run, heartbeat_run,
}
use binance_algo.Table.{update, select}
use binance_algo.Table.Marked.{select-update_first}
use binance_algo.Registry.RunHistory.{mark_stale_runs-eq}
use mathlib.Core.Option

-- The same status, or one that the table of transitions allows.
abbrev pub RunMove : RunStatus → RunStatus → Type 0
RunMove s t = (t ≡ s) ⊎ (run_transition s t ≡ true)

-- A run is there still, of the same experiment and attempt, and its status has stayed or moved once.
abbrev pub RunFollows : Option ExperimentRunRecord → Option ExperimentRunRecord → Type 0
RunFollows none after = Unit
RunFollows (some r) none = ⊥
RunFollows (some r) (some s) =
    (s.experiment_id ≡ r.experiment_id) × (s.attempt ≡ r.attempt) × RunMove r.status s.status

RunFollows-refl : (o : Option ExperimentRunRecord) → RunFollows o o
RunFollows-refl none = tt
RunFollows-refl (some r) = (refl, refl, inl refl)

RunFollows-map :
    (f : ExperimentRunRecord → ExperimentRunRecord) (o : Option ExperimentRunRecord)
    → ((r : ExperimentRunRecord) → o ≡ some r → RunFollows (some r) (some (f r)))
    → RunFollows o (Option.map f o)
RunFollows-map f none h = tt
RunFollows-map f (some r) h = h r refl

same_runs :
    {Float : Type 0} (j : String) (db after : RegistryDb Float)
    → after.runs ≡ db.runs
    → RunFollows (find_run j db) (find_run j after)
same_runs j db after same = rw (same) (RunFollows-refl (find_run j db))

allowed_by_checks :
    (current status : RunStatus) (digest : Option String) (m a : ℕ)
    → run_checks current status digest m a ≡ none
    → run_transition current status ≡ true
unfolding run_checks
allowed_by_checks current status digest m a passed = ground arith

stale-RunFollows :
    (t : ℕ) (r : ExperimentRunRecord)
    → RunFollows (some r) (some (if is_stale_before t r then staled r else r))
unfolding is_stale_before run_transition
stale-RunFollows t r = ground arith

module _ {Float : Type 0} where
  keyed-RunFollows :
      (k j : String) (f : ExperimentRunRecord → ExperimentRunRecord) (db : RegistryDb Float)
      (r : ExperimentRunRecord)
      → ((s : ExperimentRunRecord) → run_key (f s) ≡ run_key s)
      → find_run k db ≡ some r
      → RunFollows (some r) (some (f r))
      → RunFollows (find_run j db) (select (has_run_id j) (update (has_run_id k) f db.runs))
  keyed-RunFollows k j f db r same found move =
      rw (select-update_key run_key k j f db.runs same) (elim (Bool-cases (str_eq k j)) [
        | inl here ↦ rw (here, sym ((eq_iff k j).0 here), found) move
        | inr other ↦ rw (other) (RunFollows-refl (find_run j db))
      ])

  create-RunFollows :
      (digest : String → ℕ → String) (e : String) (now : ℕ) (j : String) (db : RegistryDb Float)
      → RunFollows (find_run j db) (find_run j (create_run digest e now db).1)
  unfolding create_run
  create-RunFollows digest e now j db =
      let n = last_attempt e db.runs + 1 in
      ground (
        arith,
        RunFollows-refl (find_run j db),
        select-append (has_run_id j) db.runs (new_run (digest e n) e n now),
      )

  transition-RunFollows :
      (k : String) (s : RunStatus) (u : RunUpdate) (now : ℕ) (j : String) (db : RegistryDb Float)
      → RunFollows (find_run j db) (find_run j (transition_run k s u now db).1)
  unfolding transition_run
  transition-RunFollows k s u now j db = elim (Option-cases (find_run k db)) [
    | inl unknown ↦ ground (arith, RunFollows-refl (find_run j db))
    | inr (r, found) ↦
        elim (Option-cases
          (run_checks r.status s u.result_digest_value (metric_count k db) (artifact_count k db))) [
            | inr (e, refused) ↦ ground (arith, RunFollows-refl (find_run j db))
            | inl passed ↦ ground (
              arith,
              keyed-RunFollows k j (run_transitioned s u now) db r (λ x. refl) found
                  (
                    refl,
                    refl,
                    inr (
                        allowed_by_checks r.status s u.result_digest_value (metric_count k db)
                          (artifact_count k db) passed),
                  ),
            )
          ]
  ]

  heartbeat-RunFollows :
      (k : String) (t : Option ℕ) (now : ℕ) (j : String) (db : RegistryDb Float)
      → RunFollows (find_run j db) (find_run j (heartbeat_run k t now db).1)
  unfolding heartbeat_run
  heartbeat-RunFollows k t now j db = elim (Option-cases (find_run k db)) [
    | inl unknown ↦ ground (arith, RunFollows-refl (find_run j db))
    | inr (r, found) ↦ ground (
      arith,
      RunFollows-refl (find_run j db),
      keyed-RunFollows k j (beaten (timestamp_or t now)) db r (λ x. refl) found
          (refl, refl, inl refl),
    )
  ]

  mark_stale-RunFollows :
      (t : ℕ) (j : String) (db : RegistryDb Float)
      → IsKeyed run_key db.runs
      → RunFollows (find_run j db) (find_run j (mark_stale_runs t db).1)
  mark_stale-RunFollows t j db keyed =
      rw
        (
          mark_stale_runs-eq t db keyed,
          select-update_first run_key j (is_stale_before t) staled db.runs (λ r. refl),
        )
        (RunFollows-map (λ r. if is_stale_before t r then staled r else r) (find_run j db)
          (λ r _. stale-RunFollows t r))

completed-RunFollows :
    (digest : String) (now : ℕ) (r : ExperimentRunRecord)
    → run_is_running r.status ≡ true
    → RunFollows (some r) (some (run_completed digest now r))
unfolding run_transition
completed-RunFollows digest now r running = ground arith

module _ {Float : Type 0} (is_finite : Float → Bool) (float_eq : Float → Float → Bool)
    (sha256 : List String → String) where
  complete-RunFollows :
      (k digest : String) (ms : List (MetricRow Float)) (outputs : List ArtifactOutput) (now : ℕ)
      (j : String) (db : RegistryDb Float)
      → RunFollows
          (find_run j db)
          (find_run j (complete_run is_finite float_eq sha256 k digest ms outputs now db).1)
  complete-RunFollows k digest ms outputs now j db =
      let p = complete_run is_finite float_eq sha256 k digest ms outputs now db in
      elim (Result-cases p.0) [
        | inl (r, done) ↦
            let (before, found, running, same, reads, _, _) =
              complete_run-completes is_finite float_eq sha256 k digest ms outputs now db done in
            let move = completed-RunFollows digest now before running in
            rw (reads j, same)
              (elim (Bool-cases (str_eq k j)) [
                | inl here ↦ rw (here, sym ((eq_iff k j).0 here), found) move
                | inr other ↦ rw (other) (RunFollows-refl (find_run j db))
              ])
        | inr (e, raised) ↦
            rw
              (unchanged db p
                (complete_run-IsAtomic is_finite float_eq sha256 k digest ms outputs now db) raised)
              (RunFollows-refl (find_run j db))
      ]

-- Zero or more moves of the table of transitions.
pub data RunPath : RunStatus → RunStatus → Type 0 where
  here : {s : RunStatus} → RunPath s s
  next : {s t u : RunStatus} → RunMove s t → RunPath t u → RunPath s u

followed :
    (r : ExperimentRunRecord) (o : Option ExperimentRunRecord)
    → RunFollows (some r) o
    → (s : ExperimentRunRecord) × (o ≡ some s) × RunFollows (some r) (some s)
followed r none h = elim h [ ]
followed r (some s) h = (s, refl, h)

module _ {Float : Type 0} (is_finite : Float → Bool) (float_eq : Float → Float → Bool)
    (sha256 : List String → String) (run_id_digest : String → ℕ → String)
    (canonical_sha256 : PromotionEventSpec → String) where
  pub call-RunFollows :
      (c : RegistryCall Float) (j : String) (db : RegistryDb Float)
      → IsKeyed run_key db.runs
      → RunFollows
          (find_run j db)
          (find_run j (call is_finite float_eq sha256 run_id_digest canonical_sha256 c db))
  unfolding call
  call-RunFollows (call_create_run e now) j db keyed = create-RunFollows run_id_digest e now j db
  call-RunFollows (call_transition_run k s u now) j db keyed = transition-RunFollows k s u now j db
  call-RunFollows (call_heartbeat_run k t now) j db keyed = heartbeat-RunFollows k t now j db
  call-RunFollows (call_mark_stale_runs t) j db keyed = mark_stale-RunFollows t j db keyed
  call-RunFollows (call_record_metric m) j db keyed =
      same_runs j db (record_metric is_finite float_eq sha256 m db).1
        (record_metric-Grows is_finite float_eq sha256 m db).0
  call-RunFollows (call_record_artifact k a) j db keyed =
      same_runs j db (record_artifact is_finite float_eq sha256 k a db).1
        (record_artifact-Grows is_finite float_eq sha256 k a db).0
  call-RunFollows (call_complete_run k digest ms outputs now) j db keyed =
      complete-RunFollows is_finite float_eq sha256 k digest ms outputs now j db
  call-RunFollows (call_register_experiment k json spec now) j db keyed =
      same_runs j db (register_experiment (λ _. k) (λ _. json) spec now db).1
        (experiment-SameRuns (λ _. k) (λ _. json) spec now db).0
  call-RunFollows (call_associate_experiment a) j db keyed =
      same_runs j db (associate_campaign_experiment a db).1 (association-SameRuns a db).0
  call-RunFollows (call_register_hypothesis spec now) j db keyed =
      same_runs j db (register_hypothesis spec now db).1 (hypothesis-SameRuns spec now db).0
  call-RunFollows (call_transition_hypothesis k s now) j db keyed =
      same_runs j db (transition_hypothesis k s now db).1 (hypothesis_move-SameRuns k s now db).0
  call-RunFollows (call_register_campaign d now) j db keyed =
      same_runs j db (register_campaign d now db).1 (campaign-SameRuns d now db).0
  call-RunFollows (call_transition_campaign k s e now) j db keyed =
      same_runs j db (transition_campaign k s e now db).1 (campaign_move-SameRuns k s e now db).0
  call-RunFollows (call_record_promotion_event spec now) j db keyed =
      same_runs j db (record_promotion_event canonical_sha256 spec now db).1
        (promotion-SameRuns canonical_sha256 spec now db).0

  -- Along every sequence of calls from a registry whose runs are sound, and whichever calls raise: a
  -- run stays, its experiment and its attempt do not change, and its status goes only along the
  -- table of transitions.
  pub run_calls-RunPath :
      (calls : List (RegistryCall Float)) (db : RegistryDb Float) (k : String)
      {r : ExperimentRunRecord}
      → RunsAreSound db
      → find_run k db ≡ some r
      → (s : ExperimentRunRecord) × (find_run k
            (run_calls is_finite float_eq sha256 run_id_digest canonical_sha256 calls db)
          ≡ some s)
        × (s.experiment_id ≡ r.experiment_id)
        × (s.attempt ≡ r.attempt)
        × RunPath r.status s.status
  unfolding run_calls
  run_calls-RunPath [] db k {r} sound found = (r, found, refl, refl, here)
  run_calls-RunPath (c ∷ cs) db k {r} sound found =
      let after = call is_finite float_eq sha256 run_id_digest canonical_sha256 c db in
      let (s, e, (experiment, attempt, move)) =
        followed r _ (rw found at (call-RunFollows c k db sound.0)) in
      let kept =
        call-RunsAreSound is_finite float_eq sha256 run_id_digest canonical_sha256 c db sound in
      let (t, e', experiment', attempt', path) = run_calls-RunPath cs after k kept e in
      (t, e', experiment' ∙ experiment, attempt' ∙ attempt, next move path)
