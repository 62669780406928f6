-- ===== src/Registry/Schema.antt =====
-- The tables of research/experiments/migrations.py that the modelled methods use, and the errors
-- that research/experiments/store.py raises.
use binance_algo.Base.{ℕ, String, Option, List}
use binance_algo.Registry.Status.{
  RunStatus, HypothesisStatus, CampaignStatus, ResearchStage, PromotionDecision, MetricScope,
}

-- research_experiment_runs; `runtime` is in milliseconds, the start and the end that its seconds
-- are computed from.
pub record ExperimentRunRecord : Type 0 where
  pub run_id : String
  pub experiment_id : String
  pub attempt : ℕ
  pub status : RunStatus
  pub worker_id : Option String
  pub host_name : Option String
  pub process_id : Option ℕ
  pub started_at_ms : Option ℕ
  pub heartbeat_at_ms : Option ℕ
  pub finished_at_ms : Option ℕ
  pub runtime : Option (ℕ × ℕ)
  pub result_digest : Option String
  pub error_type : Option String
  pub error_message : Option String
  pub traceback_path : Option String
  pub created_at_ms : ℕ

-- research_metrics
pub record MetricRow (Float : Type 0) : Type 0 where
  pub run_id : String
  pub scope : MetricScope
  pub fold : Option ℕ
  pub regime : Option String
  pub metric_name : String
  pub metric_value : Float
  pub metadata_json : String

-- research_artifacts
pub record ArtifactRow : Type 0 where
  pub artifact_id : String
  pub run_id : String
  pub artifact_type : String
  pub path : String
  pub checksum_sha256 : String
  pub row_count : Option ℕ
  pub size_bytes : ℕ
  pub schema_version : ℕ
  pub created_at_ms : ℕ

-- research_feature_sets
pub record FeatureSetRow : Type 0 where
  pub feature_set_id : String
  pub name : String
  pub version : String
  pub description : String
  pub spec_json : String
  pub spec_sha256 : String
  pub created_at_ms : ℕ

-- research_experiments
pub record ExperimentRow : Type 0 where
  pub experiment_id : String
  pub experiment_sha256 : String
  pub hypothesis_id : String
  pub spec_json : String
  pub dataset_id : String
  pub universe_version : String
  pub feature_set_id : String
  pub label_id : String
  pub strategy_id : String
  pub strategy_version : String
  pub portfolio_policy_id : String
  pub execution_model_id : String
  pub cost_model_id : String
  pub split_plan_id : String
  pub random_seed : ℕ
  pub code_fingerprint_json : String
  pub created_at_ms : ℕ

-- research_campaign_experiments
pub record CampaignExperimentRow : Type 0 where
  pub campaign_id : String
  pub experiment_id : String
  pub ordinal : ℕ
  pub tags_json : String

-- research_hypotheses
pub record HypothesisRow : Type 0 where
  pub hypothesis_id : String
  pub title : String
  pub mechanism : String
  pub expected_direction : Option String
  pub expected_horizon : Option String
  pub target_universe : Option String
  pub preregistered_success_criteria_json : String
  pub status : HypothesisStatus
  pub created_at_ms : ℕ
  pub updated_at_ms : ℕ
  pub notes : Option String

-- research_campaigns
pub record CampaignRecord : Type 0 where
  pub campaign_id : String
  pub name : String
  pub description : String
  pub hypothesis_id : String
  pub spec_json : String
  pub spec_sha256 : String
  pub status : CampaignStatus
  pub created_at_ms : ℕ
  pub started_at_ms : Option ℕ
  pub finished_at_ms : Option ℕ
  pub trial_count : ℕ
  pub last_error : Option String

-- research_promotions
pub record PromotionRecord : Type 0 where
  pub promotion_id : String
  pub experiment_id : String
  pub from_stage : ResearchStage
  pub to_stage : ResearchStage
  pub decision : PromotionDecision
  pub criteria_snapshot_json : String
  pub reason : String
  pub created_at_ms : ℕ
  pub code_fingerprint_json : String

pub record RegistryDb (Float : Type 0) : Type 0 where
  pub hypotheses : List HypothesisRow
  pub campaigns : List CampaignRecord
  pub feature_sets : List FeatureSetRow
  pub experiments : List ExperimentRow
  pub campaign_experiments : List CampaignExperimentRow
  pub runs : List ExperimentRunRecord
  pub metrics : List (MetricRow Float)
  pub artifacts : List ArtifactRow
  pub promotions : List PromotionRecord

-- `sqlite_error` is a broken constraint, which SQLite raises as `IntegrityError` and the methods
-- wrap; the others are `ResearchStoreError` and `InvalidResearchTransition`, by their messages.
pub data RegistryError : Type 0 where
  sqlite_error completion_incomplete invalid_metric campaign_incomplete : RegistryError
  unknown_run unknown_experiment unknown_hypothesis unknown_campaign : String → RegistryError
  disappeared hypothesis_conflict campaign_conflict metric_conflict : String → RegistryError
  artifact_conflict promotion_conflict experiment_conflict association_conflict :
      String → RegistryError
  invalid_run_transition : RunStatus → RunStatus → RegistryError
  invalid_hypothesis_transition : HypothesisStatus → HypothesisStatus → RegistryError
  invalid_campaign_transition : CampaignStatus → CampaignStatus → RegistryError
  invalid_promotion_transition : ResearchStage → ResearchStage → RegistryError
  unexpected_stage : ResearchStage → ResearchStage → RegistryError
  no_result_digest no_metrics_or_artifacts digest_not_allowed : RegistryError
  heartbeat_not_running inconsistent_history inconsistent_decision : RegistryError
  only_running_completes : RunStatus → RegistryError
