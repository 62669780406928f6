-- ===== src/Registry/Soundness.antt =====
-- Every history of calls of research/experiments/store.py keeps the runs sound.
use binance_algo.Base.{◌≡◌, arith, ℕ, String, Bool, Option, List, [], ◌∷◌}
use binance_algo.Registry.Schema.{CampaignExperimentRow, CampaignRecord, RegistryDb, MetricRow}
use binance_algo.Registry.Campaigns.{
  planned_campaign, HypothesisSpec, CampaignDefinition, transition_campaign,
  insert_or_ignore_campaign, register_campaign, transition_hypothesis, register_hypothesis,
}
use binance_algo.Registry.Status.{HypothesisStatus, CampaignStatus}
use binance_algo.Registry.Experiments.{
  ExperimentSpec, register_experiment, associate_campaign_experiment,
}
use binance_algo.Registry.Ops.{
  call_record_promotion_event, call_complete_run, call_record_artifact, call_record_metric,
  call_mark_stale_runs, call_heartbeat_run, call_transition_run, call_register_experiment,
  call_associate_experiment, call_create_run, call_transition_campaign, call_register_campaign,
  call_transition_hypothesis, call_register_hypothesis, RegistryCall, run_calls, call,
}
use binance_algo.Registry.Completion.{complete_run-RunsAreSound}
use binance_algo.Registry.RunGrowth.{
  Grows-RunsAreSound, metric-Grows, artifact-Grows, Grows-refl, Grows,
}
use binance_algo.Registry.RunHistory.{mark_stale_runs-RunsAreSound, create_run-RunsAreSound}
use binance_algo.Registry.RunInvariant.{
  heartbeat_run-RunsAreSound, transition_run-RunsAreSound, RunsAreSound,
}
use binance_algo.Registry.Promotions.{
  recorded_before, record_new, record_promotion_event, PromotionEventSpec,
}
use binance_algo.Registry.Outputs.{
  artifact_row, ArtifactOutput, insert_or_ignore_artifact, insert_or_ignore_metric, record_metric,
  record_artifact,
}

-- Runs, metrics and artifacts as they were.
abbrev pub SameRuns : {Float : Type 0} → RegistryDb Float → RegistryDb Float → Type 0
SameRuns db after =
    (after.runs ≡ db.runs) × (after.metrics ≡ db.metrics) × (after.artifacts ≡ db.artifacts)

module _ {Float : Type 0} where
  same-RunsAreSound :
      (db after : RegistryDb Float) → SameRuns db after → RunsAreSound db → RunsAreSound after
  same-RunsAreSound db after same h =
      Grows-RunsAreSound db after
        (same.0, λ k. rw (same.1) (ground arith), λ k. rw (same.2) (ground arith)) h

  pub hypothesis-SameRuns :
      (spec : HypothesisSpec) (now : ℕ) (db : RegistryDb Float)
      → SameRuns db (register_hypothesis spec now db).1
  unfolding register_hypothesis
  hypothesis-SameRuns spec now db = (ground arith, ground arith, ground arith)

  pub hypothesis_move-SameRuns :
      (k : String) (s : HypothesisStatus) (now : ℕ) (db : RegistryDb Float)
      → SameRuns db (transition_hypothesis k s now db).1
  unfolding transition_hypothesis
  hypothesis_move-SameRuns k s now db = (ground arith, ground arith, ground arith)

  pub inserted-SameRuns :
      (c : CampaignRecord) (db : RegistryDb Float) → SameRuns db (insert_or_ignore_campaign c db).1
  unfolding insert_or_ignore_campaign
  inserted-SameRuns c db = (ground arith, ground arith, ground arith)

  pub campaign-SameRuns :
      (d : CampaignDefinition) (now : ℕ) (db : RegistryDb Float)
      → SameRuns db (register_campaign d now db).1
  unfolding register_campaign
  campaign-SameRuns d now db =
      let (runs, metrics, artifacts) = inserted-SameRuns (planned_campaign d now) db in
      (ground (arith, runs), ground (arith, metrics), ground (arith, artifacts))

  pub campaign_move-SameRuns :
      (k : String) (s : CampaignStatus) (e : Option String) (now : ℕ) (db : RegistryDb Float)
      → SameRuns db (transition_campaign k s e now db).1
  unfolding transition_campaign
  campaign_move-SameRuns k s e now db = (ground arith, ground arith, ground arith)

  pub experiment-SameRuns :
      (digest text : ExperimentSpec → String) (spec : ExperimentSpec) (now : ℕ)
      (db : RegistryDb Float)
      → SameRuns db (register_experiment digest text spec now db).1
  unfolding register_experiment
  experiment-SameRuns digest text spec now db = (ground arith, ground arith, ground arith)

  pub association-SameRuns :
      (a : CampaignExperimentRow) (db : RegistryDb Float)
      → SameRuns db (associate_campaign_experiment a db).1
  unfolding associate_campaign_experiment
  association-SameRuns a db = (ground arith, ground arith, ground arith)

  pub promotion-SameRuns :
      (canonical_sha256 : PromotionEventSpec → String) (spec : PromotionEventSpec) (now : ℕ)
      (db : RegistryDb Float)
      → SameRuns db (record_promotion_event canonical_sha256 spec now db).1
  unfolding record_promotion_event record_new recorded_before
  promotion-SameRuns canonical_sha256 spec now db = (ground arith, ground arith, ground arith)

module _ {Float : Type 0} (is_finite : Float → Bool) (float_eq : Float → Float → Bool)
    (sha256 : List String → String) where
  pub record_metric-Grows :
      (m : MetricRow Float) (db : RegistryDb Float)
      → Grows db (record_metric is_finite float_eq sha256 m db).1
  unfolding record_metric insert_or_ignore_metric
  record_metric-Grows m db = ground (arith, Grows-refl db, metric-Grows db m)

  pub record_artifact-Grows :
      (k : String) (a : ArtifactOutput) (db : RegistryDb Float)
      → Grows db (record_artifact is_finite float_eq sha256 k a db).1
  unfolding record_artifact insert_or_ignore_artifact
  record_artifact-Grows k a db =
      ground (arith, Grows-refl db, artifact-Grows db (artifact_row is_finite float_eq sha256 k a))

module _ {Float : Type 0} (is_finite : Float → Bool) (float_eq : Float → Float → Bool)
    (sha256 : List String → String) (run_id_digest : String → ℕ → String)
    (canonical_sha256 : PromotionEventSpec → String) where
  pub call-RunsAreSound :
      (c : RegistryCall Float) (db : RegistryDb Float)
      → RunsAreSound db
      → RunsAreSound (call is_finite float_eq sha256 run_id_digest canonical_sha256 c db)
  unfolding call
  call-RunsAreSound (call_register_hypothesis spec now) db h =
      same-RunsAreSound db (register_hypothesis spec now db).1 (hypothesis-SameRuns spec now db) h
  call-RunsAreSound (call_transition_hypothesis k s now) db h =
      same-RunsAreSound db (transition_hypothesis k s now db).1
        (hypothesis_move-SameRuns k s now db) h
  call-RunsAreSound (call_register_campaign d now) db h =
      same-RunsAreSound db (register_campaign d now db).1 (campaign-SameRuns d now db) h
  call-RunsAreSound (call_transition_campaign k s e now) db h =
      same-RunsAreSound db (transition_campaign k s e now db).1
        (campaign_move-SameRuns k s e now db) h
  call-RunsAreSound (call_register_experiment k json spec now) db h =
      same-RunsAreSound db (register_experiment (λ _. k) (λ _. json) spec now db).1
        (experiment-SameRuns (λ _. k) (λ _. json) spec now db) h
  call-RunsAreSound (call_associate_experiment a) db h =
      same-RunsAreSound db (associate_campaign_experiment a db).1 (association-SameRuns a db) h
  call-RunsAreSound (call_create_run e now) db h = create_run-RunsAreSound run_id_digest e now db h
  call-RunsAreSound (call_transition_run k s u now) db h =
      transition_run-RunsAreSound k s u now db h
  call-RunsAreSound (call_heartbeat_run k t now) db h = heartbeat_run-RunsAreSound k t now db h
  call-RunsAreSound (call_mark_stale_runs t) db h = mark_stale_runs-RunsAreSound t db h
  call-RunsAreSound (call_record_metric m) db h =
      Grows-RunsAreSound db (record_metric is_finite float_eq sha256 m db).1
        (record_metric-Grows is_finite float_eq sha256 m db) h
  call-RunsAreSound (call_record_artifact k a) db h =
      Grows-RunsAreSound db (record_artifact is_finite float_eq sha256 k a db).1
        (record_artifact-Grows is_finite float_eq sha256 k a db) h
  call-RunsAreSound (call_complete_run k digest ms outputs now) db h =
      complete_run-RunsAreSound is_finite float_eq sha256 k digest ms outputs now db h
  call-RunsAreSound (call_record_promotion_event spec now) db h =
      same-RunsAreSound db (record_promotion_event canonical_sha256 spec now db).1
        (promotion-SameRuns canonical_sha256 spec now db) h

  -- Along every sequence of calls of the methods that write hypotheses, campaigns, experiments and
  -- their campaigns, runs, metrics, artifacts and promotions, and whichever of them raise: run ids stay unique; a run has
  -- succeeded only with a digest that is not empty, a metric and an artifact; no other run has a
  -- digest; and a run has an end exactly when it has succeeded, failed or been cancelled.
  pub run_calls-RunsAreSound :
      (calls : List (RegistryCall Float)) (db : RegistryDb Float)
      → RunsAreSound db
      → RunsAreSound (run_calls is_finite float_eq sha256 run_id_digest canonical_sha256 calls db)
  unfolding run_calls
  run_calls-RunsAreSound [] db h = h
  run_calls-RunsAreSound (c ∷ cs) db h =
      run_calls-RunsAreSound cs (call is_finite float_eq sha256 run_id_digest canonical_sha256 c db)
        (call-RunsAreSound c db h)
