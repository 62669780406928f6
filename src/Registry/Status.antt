-- ===== src/Registry/Status.antt =====
-- The enumerations of research/experiments/models.py, and the tables of transitions of
-- research/experiments/store.py.
use binance_algo.Base.{ℕ, Bool, true, false, ◌==◌}

pub data RunStatus : Type 0 where
  pending queued running succeeded failed cancelled stale : RunStatus

pub data HypothesisStatus : Type 0 where
  draft ready tested supported rejected inconclusive invalidated : HypothesisStatus

pub data CampaignStatus : Type 0 where
  planned queued running completed partial failed cancelled : CampaignStatus

pub data ResearchStage : Type 0 where
  discovery candidate lockbox_evaluated phase4_candidate rejected invalidated : ResearchStage

pub data PromotionDecision : Type 0 where
  approved blocked rejected invalidated : PromotionDecision

pub data MetricScope : Type 0 where
  train inner_validation test lockbox stress campaign : MetricScope

-- `status in RUN_TRANSITIONS[current]`
unfoldable pub run_transition : RunStatus → RunStatus → Bool
run_transition RunStatus.pending RunStatus.queued = true
run_transition RunStatus.queued RunStatus.running = true
run_transition RunStatus.queued RunStatus.cancelled = true
run_transition RunStatus.running RunStatus.succeeded = true
run_transition RunStatus.running RunStatus.failed = true
run_transition RunStatus.running RunStatus.stale = true
run_transition RunStatus.stale RunStatus.queued = true
run_transition _ _ = false

-- `status in HYPOTHESIS_TRANSITIONS[current]`
unfoldable pub hypothesis_transition : HypothesisStatus → HypothesisStatus → Bool
hypothesis_transition HypothesisStatus.draft HypothesisStatus.ready = true
hypothesis_transition HypothesisStatus.draft HypothesisStatus.invalidated = true
hypothesis_transition HypothesisStatus.ready HypothesisStatus.tested = true
hypothesis_transition HypothesisStatus.ready HypothesisStatus.invalidated = true
hypothesis_transition HypothesisStatus.tested HypothesisStatus.supported = true
hypothesis_transition HypothesisStatus.tested HypothesisStatus.rejected = true
hypothesis_transition HypothesisStatus.tested HypothesisStatus.inconclusive = true
hypothesis_transition HypothesisStatus.tested HypothesisStatus.invalidated = true
hypothesis_transition HypothesisStatus.supported HypothesisStatus.invalidated = true
hypothesis_transition HypothesisStatus.rejected HypothesisStatus.invalidated = true
hypothesis_transition HypothesisStatus.inconclusive HypothesisStatus.ready = true
hypothesis_transition HypothesisStatus.inconclusive HypothesisStatus.invalidated = true
hypothesis_transition _ _ = false

-- `status in CAMPAIGN_TRANSITIONS[current]`
unfoldable pub campaign_transition : CampaignStatus → CampaignStatus → Bool
campaign_transition CampaignStatus.planned CampaignStatus.queued = true
campaign_transition CampaignStatus.planned CampaignStatus.cancelled = true
campaign_transition CampaignStatus.queued CampaignStatus.running = true
campaign_transition CampaignStatus.queued CampaignStatus.cancelled = true
campaign_transition CampaignStatus.running CampaignStatus.completed = true
campaign_transition CampaignStatus.running CampaignStatus.partial = true
campaign_transition CampaignStatus.running CampaignStatus.failed = true
campaign_transition CampaignStatus.running CampaignStatus.cancelled = true
campaign_transition CampaignStatus.partial CampaignStatus.running = true
campaign_transition _ _ = false

-- `stage in PROMOTION_TRANSITIONS[current]`
unfoldable pub promotion_transition : ResearchStage → ResearchStage → Bool
promotion_transition ResearchStage.discovery ResearchStage.candidate = true
promotion_transition ResearchStage.discovery ResearchStage.rejected = true
promotion_transition ResearchStage.discovery ResearchStage.invalidated = true
promotion_transition ResearchStage.candidate ResearchStage.lockbox_evaluated = true
promotion_transition ResearchStage.candidate ResearchStage.rejected = true
promotion_transition ResearchStage.candidate ResearchStage.invalidated = true
promotion_transition ResearchStage.lockbox_evaluated ResearchStage.phase4_candidate = true
promotion_transition ResearchStage.lockbox_evaluated ResearchStage.rejected = true
promotion_transition ResearchStage.lockbox_evaluated ResearchStage.invalidated = true
promotion_transition ResearchStage.phase4_candidate ResearchStage.invalidated = true
promotion_transition ResearchStage.rejected ResearchStage.invalidated = true
promotion_transition _ _ = false

-- `status is RunStatus.RUNNING` and the like.
abbrev pub run_is_running : RunStatus → Bool
run_is_running RunStatus.running = true
run_is_running _ = false

abbrev pub run_is_succeeded : RunStatus → Bool
run_is_succeeded RunStatus.succeeded = true
run_is_succeeded _ = false

-- `status in {SUCCEEDED, FAILED, CANCELLED}`
abbrev pub run_is_finished : RunStatus → Bool
run_is_finished RunStatus.succeeded = true
run_is_finished RunStatus.failed = true
run_is_finished RunStatus.cancelled = true
run_is_finished _ = false

abbrev pub campaign_is_running : CampaignStatus → Bool
campaign_is_running CampaignStatus.running = true
campaign_is_running _ = false

-- `status in {COMPLETED, FAILED, CANCELLED}`
abbrev pub campaign_is_finished : CampaignStatus → Bool
campaign_is_finished CampaignStatus.completed = true
campaign_is_finished CampaignStatus.failed = true
campaign_is_finished CampaignStatus.cancelled = true
campaign_is_finished _ = false

abbrev stage_index : ResearchStage → ℕ
stage_index ResearchStage.discovery = 0
stage_index ResearchStage.candidate = 1
stage_index ResearchStage.lockbox_evaluated = 2
stage_index ResearchStage.phase4_candidate = 3
stage_index ResearchStage.rejected = 4
stage_index ResearchStage.invalidated = 5

abbrev pub stage_eq : ResearchStage → ResearchStage → Bool
stage_eq a b = stage_index a == stage_index b

abbrev decision_index : PromotionDecision → ℕ
decision_index PromotionDecision.approved = 0
decision_index PromotionDecision.blocked = 1
decision_index PromotionDecision.rejected = 2
decision_index PromotionDecision.invalidated = 3

abbrev pub decision_eq : PromotionDecision → PromotionDecision → Bool
decision_eq a b = decision_index a == decision_index b

abbrev scope_index : MetricScope → ℕ
scope_index MetricScope.train = 0
scope_index MetricScope.inner_validation = 1
scope_index MetricScope.test = 2
scope_index MetricScope.lockbox = 3
scope_index MetricScope.stress = 4
scope_index MetricScope.campaign = 5

abbrev pub scope_eq : MetricScope → MetricScope → Bool
scope_eq a b = scope_index a == scope_index b
