-- ===== src/Registry/History.antt =====
-- No call of research/experiments/store.py changes or removes a metric or an artifact.
use binance_algo.Base.{arith, ℕ, String, Bool, Option, List, [], ◌∷◌}
use binance_algo.Registry.AddedOutputs.{outputs_added}
use binance_algo.Registry.Soundness.{
  promotion-SameRuns, experiment-SameRuns, association-SameRuns, campaign_move-SameRuns,
  campaign-SameRuns, hypothesis_move-SameRuns, hypothesis-SameRuns, SameRuns,
}
use binance_algo.Registry.Promotions.{record_promotion_event, PromotionEventSpec}
use binance_algo.Registry.Experiments.{register_experiment, associate_campaign_experiment}
use binance_algo.Registry.Ops.{
  call_record_promotion_event, call_transition_campaign, call_register_campaign,
  call_transition_hypothesis, call_register_hypothesis, call_complete_run, call_record_artifact,
  call_record_metric, call_mark_stale_runs, call_heartbeat_run, call_transition_run,
  call_register_experiment, call_associate_experiment, call_create_run, RegistryCall, call,
  run_calls,
}
use binance_algo.Registry.Campaigns.{
  transition_campaign, register_campaign, transition_hypothesis, register_hypothesis,
}
use binance_algo.Registry.Permanent.{
  OutputsKept-trans, OutputsKept, artifact-OutputsKept, same-OutputsKept, insert_metric-OutputsKept,
  insert_artifact-OutputsKept, metric-OutputsKept, OutputsKept-refl,
}
use binance_algo.Registry.Runs.{
  RunUpdate, transition_run, mark_stale_runs, create_run, heartbeat_run,
}
use binance_algo.Registry.Status.{RunStatus}
use binance_algo.Registry.Outputs.{
  insert_or_ignore_artifact, record_artifact, complete_run, insert_metric, invalid, artifact_row,
  insert_artifact, ArtifactOutput, insert_or_ignore_metric, insert_metrics, insert_artifacts,
  record_metric,
}
use binance_algo.Registry.Schema.{RegistryDb, invalid_metric, MetricRow}
use binance_algo.Registry.OutputsKept.{raise_if-Keeps, bind-Keeps, Keeps}
use binance_algo.Transaction.{◌>>◌, raise_if}

module _ {Float : Type 0} (is_finite : Float → Bool) (float_eq : Float → Float → Bool)
    (sha256 : List String → String) where
  insert_metrics-Keeps :
      (k : String) (ms : List (MetricRow Float))
      → Keeps (insert_metrics is_finite float_eq sha256 k ms)
  unfolding insert_metrics
  insert_metrics-Keeps k [] = λ db. OutputsKept-refl db
  insert_metrics-Keeps k (m ∷ ms) =
      bind-Keeps (raise_if (invalid is_finite float_eq sha256 m) invalid_metric)
        (λ _.
          insert_metric is_finite float_eq sha256 (record m { run_id = k })
          >> insert_metrics is_finite float_eq sha256 k ms)
        (raise_if-Keeps (invalid is_finite float_eq sha256 m) invalid_metric)
        (λ _.
          bind-Keeps (insert_metric is_finite float_eq sha256 (record m { run_id = k }))
            (λ _. insert_metrics is_finite float_eq sha256 k ms)
            (insert_metric-OutputsKept is_finite float_eq sha256 (record m { run_id = k }))
            (λ _. insert_metrics-Keeps k ms))

  insert_artifacts-Keeps :
      (k : String) (outputs : List ArtifactOutput)
      → Keeps (insert_artifacts is_finite float_eq sha256 k outputs)
  unfolding insert_artifacts
  insert_artifacts-Keeps k [] = λ db. OutputsKept-refl db
  insert_artifacts-Keeps k (a ∷ rest) =
      bind-Keeps
        (insert_artifact is_finite float_eq sha256 (artifact_row is_finite float_eq sha256 k a))
        (λ _. insert_artifacts is_finite float_eq sha256 k rest)
        (insert_artifact-OutputsKept is_finite float_eq sha256
          (artifact_row is_finite float_eq sha256 k a))
        (λ _. insert_artifacts-Keeps k rest)

  record_metric-Keeps : (m : MetricRow Float) → Keeps (record_metric is_finite float_eq sha256 m)
  unfolding record_metric insert_or_ignore_metric
  record_metric-Keeps m db = ground (arith, OutputsKept-refl db, metric-OutputsKept db m)

  record_artifact-Keeps :
      (k : String) (a : ArtifactOutput) → Keeps (record_artifact is_finite float_eq sha256 k a)
  unfolding record_artifact insert_or_ignore_artifact
  record_artifact-Keeps k a db = ground (
    arith,
    OutputsKept-refl db,
    artifact-OutputsKept db (artifact_row is_finite float_eq sha256 k a),
  )

  outputs_added-Keeps :
      (k : String) (ms : List (MetricRow Float)) (outputs : List ArtifactOutput)
      → Keeps (outputs_added is_finite float_eq sha256 k ms outputs)
  outputs_added-Keeps k ms outputs =
      bind-Keeps (insert_metrics is_finite float_eq sha256 k ms)
        (λ _. insert_artifacts is_finite float_eq sha256 k outputs) (insert_metrics-Keeps k ms)
        (λ _. insert_artifacts-Keeps k outputs)

  complete_run-Keeps :
      (k digest : String) (ms : List (MetricRow Float)) (outputs : List ArtifactOutput) (now : ℕ)
      → Keeps (complete_run is_finite float_eq sha256 k digest ms outputs now)
  unfolding complete_run
  complete_run-Keeps k digest ms outputs now db =
      ground (arith, OutputsKept-refl db, outputs_added-Keeps k ms outputs db)

module _ {Float : Type 0} where
  create_run-Keeps :
      (digest : String → ℕ → String) (e : String) (now : ℕ)
      → Keeps {Float = Float} (create_run digest e now)
  unfolding create_run
  create_run-Keeps digest e now db =
      same-OutputsKept db (create_run digest e now db).1 (ground arith) (ground arith)

  transition_run-Keeps :
      (k : String) (s : RunStatus) (u : RunUpdate) (now : ℕ)
      → Keeps {Float = Float} (transition_run k s u now)
  unfolding transition_run
  transition_run-Keeps k s u now db =
      same-OutputsKept db (transition_run k s u now db).1 (ground arith) (ground arith)

  heartbeat_run-Keeps :
      (k : String) (t : Option ℕ) (now : ℕ) → Keeps {Float = Float} (heartbeat_run k t now)
  unfolding heartbeat_run
  heartbeat_run-Keeps k t now db =
      same-OutputsKept db (heartbeat_run k t now db).1 (ground arith) (ground arith)

  mark_stale_runs-Keeps : (t : ℕ) → Keeps {Float = Float} (mark_stale_runs t)
  unfolding mark_stale_runs
  mark_stale_runs-Keeps t db =
      same-OutputsKept db (mark_stale_runs t db).1 (ground arith) (ground arith)

kept : {Float : Type 0} (db after : RegistryDb Float) → SameRuns db after → OutputsKept db after
kept db after same = same-OutputsKept db after same.1 same.2

module _ {Float : Type 0} (is_finite : Float → Bool) (float_eq : Float → Float → Bool)
    (sha256 : List String → String) (run_id_digest : String → ℕ → String)
    (canonical_sha256 : PromotionEventSpec → String) where
  call-OutputsKept :
      (c : RegistryCall Float) (db : RegistryDb Float)
      → OutputsKept db (call is_finite float_eq sha256 run_id_digest canonical_sha256 c db)
  unfolding call
  call-OutputsKept (call_create_run e now) db = create_run-Keeps run_id_digest e now db
  call-OutputsKept (call_transition_run k s u now) db = transition_run-Keeps k s u now db
  call-OutputsKept (call_heartbeat_run k t now) db = heartbeat_run-Keeps k t now db
  call-OutputsKept (call_mark_stale_runs t) db = mark_stale_runs-Keeps t db
  call-OutputsKept (call_record_metric m) db = record_metric-Keeps is_finite float_eq sha256 m db
  call-OutputsKept (call_record_artifact k a) db =
      record_artifact-Keeps is_finite float_eq sha256 k a db
  call-OutputsKept (call_complete_run k digest ms outputs now) db =
      complete_run-Keeps is_finite float_eq sha256 k digest ms outputs now db
  call-OutputsKept (call_register_experiment k json spec now) db =
      kept db (register_experiment (λ _. k) (λ _. json) spec now db).1
        (experiment-SameRuns (λ _. k) (λ _. json) spec now db)
  call-OutputsKept (call_associate_experiment a) db =
      kept db (associate_campaign_experiment a db).1 (association-SameRuns a db)
  call-OutputsKept (call_register_hypothesis spec now) db =
      kept db (register_hypothesis spec now db).1 (hypothesis-SameRuns spec now db)
  call-OutputsKept (call_transition_hypothesis k s now) db =
      kept db (transition_hypothesis k s now db).1 (hypothesis_move-SameRuns k s now db)
  call-OutputsKept (call_register_campaign d now) db =
      kept db (register_campaign d now db).1 (campaign-SameRuns d now db)
  call-OutputsKept (call_transition_campaign k s e now) db =
      kept db (transition_campaign k s e now db).1 (campaign_move-SameRuns k s e now db)
  call-OutputsKept (call_record_promotion_event spec now) db =
      kept db (record_promotion_event canonical_sha256 spec now db).1
        (promotion-SameRuns canonical_sha256 spec now db)

  -- Along every sequence of calls of the methods that write hypotheses, campaigns, experiments and
  -- their campaigns, runs, metrics, artifacts and promotions, and whichever of them raise, a metric or an artifact that a query
  -- finds, by its identity or by any other clause, is found by that query for ever, unchanged.
  pub run_calls-OutputsKept :
      (calls : List (RegistryCall Float)) (db : RegistryDb Float)
      → OutputsKept db (run_calls is_finite float_eq sha256 run_id_digest canonical_sha256 calls db)
  unfolding run_calls
  run_calls-OutputsKept [] db = OutputsKept-refl db
  run_calls-OutputsKept (c ∷ cs) db =
      let after = call is_finite float_eq sha256 run_id_digest canonical_sha256 c db in
      OutputsKept-trans db after
        (run_calls is_finite float_eq sha256 run_id_digest canonical_sha256 cs after)
        (call-OutputsKept c db) (run_calls-OutputsKept cs after)
