-- ===== src/Registry/Ops.antt =====
-- Sequences of calls of the methods of research/experiments/store.py that write, other than those
-- on the tables of features. A call that raises
-- leaves what its transaction left.
use binance_algo.Base.{ℕ, String, Bool, Option, List, [], ◌∷◌}
use binance_algo.Registry.Promotions.{record_promotion_event, PromotionEventSpec}
use binance_algo.Registry.Outputs.{complete_run, record_artifact, record_metric, ArtifactOutput}
use binance_algo.Registry.Runs.{
  mark_stale_runs, heartbeat_run, transition_run, create_run, RunUpdate,
}
use binance_algo.Registry.Experiments.{
  ExperimentSpec, register_experiment, associate_campaign_experiment,
}
use binance_algo.Registry.Schema.{CampaignExperimentRow, MetricRow, RegistryDb}
use binance_algo.Registry.Campaigns.{
  transition_campaign, register_campaign, transition_hypothesis, register_hypothesis,
  CampaignDefinition, HypothesisSpec,
}
use binance_algo.Registry.Status.{RunStatus, CampaignStatus, HypothesisStatus}

-- The registration of an experiment has the digest and the text of its specification.
pub data RegistryCall (Float : Type 0) : Type 0 where
  call_register_hypothesis : HypothesisSpec → ℕ → RegistryCall Float
  call_transition_hypothesis : String → HypothesisStatus → ℕ → RegistryCall Float
  call_register_campaign : CampaignDefinition → ℕ → RegistryCall Float
  call_transition_campaign : String → CampaignStatus → Option String → ℕ → RegistryCall Float
  call_register_experiment : String → String → ExperimentSpec → ℕ → RegistryCall Float
  call_associate_experiment : CampaignExperimentRow → RegistryCall Float
  call_create_run : String → ℕ → RegistryCall Float
  call_transition_run : String → RunStatus → RunUpdate → ℕ → RegistryCall Float
  call_heartbeat_run : String → Option ℕ → ℕ → RegistryCall Float
  call_mark_stale_runs : ℕ → RegistryCall Float
  call_record_metric : MetricRow Float → RegistryCall Float
  call_record_artifact : String → ArtifactOutput → RegistryCall Float
  call_complete_run :
      String → String → List (MetricRow Float) → List ArtifactOutput → ℕ → RegistryCall Float
  call_record_promotion_event : PromotionEventSpec → ℕ → RegistryCall Float

module _ {Float : Type 0} (is_finite : Float → Bool) (float_eq : Float → Float → Bool)
    (sha256 : List String → String) (run_id_digest : String → ℕ → String)
    (canonical_sha256 : PromotionEventSpec → String) where
  unfoldable pub call : RegistryCall Float → RegistryDb Float → RegistryDb Float
  call (call_register_hypothesis spec now) db = (register_hypothesis spec now db).1
  call (call_transition_hypothesis k s now) db = (transition_hypothesis k s now db).1
  call (call_register_campaign d now) db = (register_campaign d now db).1
  call (call_transition_campaign k s e now) db = (transition_campaign k s e now db).1
  call (call_register_experiment k json spec now) db =
      (register_experiment (λ _. k) (λ _. json) spec now db).1
  call (call_associate_experiment a) db = (associate_campaign_experiment a db).1
  call (call_create_run e now) db = (create_run run_id_digest e now db).1
  call (call_transition_run k s u now) db = (transition_run k s u now db).1
  call (call_heartbeat_run k t now) db = (heartbeat_run k t now db).1
  call (call_mark_stale_runs t) db = (mark_stale_runs t db).1
  call (call_record_metric m) db = (record_metric is_finite float_eq sha256 m db).1
  call (call_record_artifact k a) db = (record_artifact is_finite float_eq sha256 k a db).1
  call (call_complete_run k digest ms outputs now) db =
      (complete_run is_finite float_eq sha256 k digest ms outputs now db).1
  call (call_record_promotion_event spec now) db =
      (record_promotion_event canonical_sha256 spec now db).1

  unfoldable pub run_calls : List (RegistryCall Float) → RegistryDb Float → RegistryDb Float
  run_calls [] db = db
  run_calls (c ∷ cs) db = run_calls cs (call c db)
