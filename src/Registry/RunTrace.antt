-- ===== src/Registry/RunTrace.antt =====
-- The status of a run of research/experiments/store.py at every call of a history.
use binance_algo.Base.{Bool, ◌≡◌, ◌⊎◌, arith, String, ℕ, List, [], ◌∷◌, Option, none, some}
use binance_algo.Registry.Soundness.{call-RunsAreSound}
use binance_algo.Registry.Runs.{find_run}
use binance_algo.Registry.Schema.{RegistryDb, ExperimentRunRecord}
use binance_algo.Registry.Promotions.{PromotionEventSpec}
use binance_algo.Registry.Status.{RunStatus, run_transition}
use binance_algo.Registry.RunMachine.{RunFollows, RunMove, call-RunFollows}
use binance_algo.Registry.RunInvariant.{RunsAreSound}
use binance_algo.Registry.Ops.{RegistryCall, call}

-- What may follow a status in one call: the status itself, or one step of its life.
abbrev pub RunStep : RunStatus → RunStatus → Type 0
RunStep RunStatus.pending t = (t ≡ RunStatus.pending) ⊎ (t ≡ RunStatus.queued)
RunStep RunStatus.queued t =
    (t ≡ RunStatus.queued) ⊎ (t ≡ RunStatus.running) ⊎ (t ≡ RunStatus.cancelled)
RunStep RunStatus.running t =
    (t ≡ RunStatus.running)
    ⊎ (t ≡ RunStatus.succeeded)
    ⊎ (t ≡ RunStatus.failed)
    ⊎ (t ≡ RunStatus.stale)
RunStep RunStatus.stale t = (t ≡ RunStatus.stale) ⊎ (t ≡ RunStatus.queued)
RunStep RunStatus.succeeded t = t ≡ RunStatus.succeeded
RunStep RunStatus.failed t = t ≡ RunStatus.failed
RunStep RunStatus.cancelled t = t ≡ RunStatus.cancelled

RunMove-RunStep : (s t : RunStatus) → RunMove s t → RunStep s t
unfolding run_transition
RunMove-RunStep RunStatus.pending t h = ground (arith, h)
RunMove-RunStep RunStatus.queued t h = ground (arith, h)
RunMove-RunStep RunStatus.running t h = ground (arith, h)
RunMove-RunStep RunStatus.stale t h = ground (arith, h)
RunMove-RunStep RunStatus.succeeded t h = ground (arith, h)
RunMove-RunStep RunStatus.failed t h = ground (arith, h)
RunMove-RunStep RunStatus.cancelled t h = ground (arith, h)

-- A run is there still, of the same experiment and attempt, and its status has made one step at most.
abbrev pub RunSteps : Option ExperimentRunRecord → Option ExperimentRunRecord → Type 0
RunSteps none after = Unit
RunSteps (some r) none = ⊥
RunSteps (some r) (some s) =
    (s.experiment_id ≡ r.experiment_id) × (s.attempt ≡ r.attempt) × RunStep r.status s.status

RunFollows-RunSteps : (o after : Option ExperimentRunRecord) → RunFollows o after → RunSteps o after
RunFollows-RunSteps none after h = tt
RunFollows-RunSteps (some r) none h = h
RunFollows-RunSteps (some r) (some s) (experiment, attempt, move) =
    (experiment, attempt, RunMove-RunStep r.status s.status move)

module _ {Float : Type 0} (is_finite : Float → Bool) (float_eq : Float → Float → Bool)
    (sha256 : List String → String) (run_id_digest : String → ℕ → String)
    (canonical_sha256 : PromotionEventSpec → String) where
  -- Every call of the history leaves every run with at most one step.
  abbrev pub EachSteps : List (RegistryCall Float) → RegistryDb Float → Type 0
  EachSteps [] db = Unit
  EachSteps (c ∷ cs) db =
      let after = call is_finite float_eq sha256 run_id_digest canonical_sha256 c db in
      ((k : String) → RunSteps (find_run k db) (find_run k after)) × EachSteps cs after

  -- Along every sequence of calls of the methods that write hypotheses, campaigns, experiments and
  -- their campaigns, runs, metrics, artifacts and promotions, from a registry whose runs are sound and
  -- whichever calls raise: each single call leaves every run in place, with its experiment and its
  -- attempt, and its status stays or makes one of the steps PENDING to QUEUED, QUEUED to RUNNING or
  -- CANCELLED, RUNNING to SUCCEEDED, FAILED or STALE, and STALE to QUEUED.
  pub run_calls-EachSteps :
      (calls : List (RegistryCall Float)) (db : RegistryDb Float)
      → RunsAreSound db
      → EachSteps calls db
  run_calls-EachSteps [] db sound = tt
  run_calls-EachSteps (c ∷ cs) db sound =
      let after = call is_finite float_eq sha256 run_id_digest canonical_sha256 c db in
      (
        λ k. RunFollows-RunSteps (find_run k db) (find_run k after) (
            call-RunFollows is_finite float_eq sha256 run_id_digest canonical_sha256 c k db
              sound.0),
        run_calls-EachSteps cs after
            (call-RunsAreSound is_finite float_eq sha256 run_id_digest canonical_sha256 c db sound),
      )
