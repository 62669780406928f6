-- ===== src/Registry/Promotions.antt =====
-- `record_promotion_event` of research/experiments/store.py, and `current_research_stage` of
-- research/experiments/promotion.py.
use binance_algo.Base.{
  is_some, ◌||◌, not, leb, ◌&&◌, str_eq, if◌then◌else◌, ℕ, String, Bool, Option, none, some, List,
  [], ◌∷◌,
}
use binance_algo.Registry.Schema.{
  disappeared, inconsistent_history, unknown_experiment, promotion_conflict, unexpected_stage,
  inconsistent_decision, invalid_promotion_transition, RegistryError, PromotionRecord, RegistryDb,
}
use binance_algo.Transaction.{pure, raise_if, or_raise, modify, transaction, gets, ◌>>=◌, ◌>>◌}
use binance_algo.Table.{insert_or_ignore, select_all, select}
use binance_algo.Registry.Runs.{has_experiment_id, raise_some, Action}
use binance_algo.Registry.Status.{
  promotion_transition, decision_eq, stage_eq, PromotionDecision, ResearchStage,
}

-- PromotionEventSpec: criteria and fingerprint by their canonical JSON text.
pub record PromotionEventSpec : Type 0 where
  pub experiment_id : String
  pub from_stage : ResearchStage
  pub to_stage : ResearchStage
  pub decision : PromotionDecision
  pub criteria_snapshot : String
  pub reason : String
  pub code_fingerprint : String

abbrev pub promotion_row : String → PromotionEventSpec → ℕ → PromotionRecord
promotion_row identifier spec now = record {
  promotion_id = identifier;
  experiment_id = spec.experiment_id;
  from_stage = spec.from_stage;
  to_stage = spec.to_stage;
  decision = spec.decision;
  criteria_snapshot_json = spec.criteria_snapshot;
  reason = spec.reason;
  created_at_ms = now;
  code_fingerprint_json = spec.code_fingerprint;
}

-- `record.to_spec() == spec`
unfoldable pub promotion_agrees : PromotionEventSpec → PromotionRecord → Bool
promotion_agrees spec p =
    str_eq p.experiment_id spec.experiment_id
    && stage_eq p.from_stage spec.from_stage
    && stage_eq p.to_stage spec.to_stage
    && decision_eq p.decision spec.decision
    && str_eq p.criteria_snapshot_json spec.criteria_snapshot
    && str_eq p.reason spec.reason
    && str_eq p.code_fingerprint_json spec.code_fingerprint

abbrev pub has_promotion_id : String → PromotionRecord → Bool
has_promotion_id k p = str_eq p.promotion_id k

abbrev pub promotes : String → PromotionRecord → Bool
promotes k p = str_eq p.experiment_id k

-- `ORDER BY created_at_ms, rowid`: a stable sort by the time.
unfoldable pub insert_by_time : PromotionRecord → List PromotionRecord → List PromotionRecord
insert_by_time p [] = p ∷ []
insert_by_time p (q ∷ qs) =
    let rest = insert_by_time p qs in
    if leb p.created_at_ms q.created_at_ms then p ∷ q ∷ qs else q ∷ rest

unfoldable pub order_by_time : List PromotionRecord → List PromotionRecord
order_by_time [] = []
order_by_time (p ∷ ps) = insert_by_time p (order_by_time ps)

-- The loop of `record_promotion_event` over the prior events.
unfoldable pub replayed : ResearchStage → List PromotionRecord → Option ResearchStage
replayed stage [] = some stage
replayed stage (p ∷ ps) =
    let stayed = replayed stage ps in
    let moved = replayed p.to_stage ps in
    if not (stage_eq p.from_stage stage)
    then none
    else if decision_eq p.decision PromotionDecision.blocked
    then stayed
    else moved

-- `current_research_stage`, from the stage reached; `none` when it raises `ResearchError`.
unfoldable pub research_stage_from : ResearchStage → List PromotionRecord → Option ResearchStage
research_stage_from stage [] = some stage
research_stage_from stage (p ∷ ps) =
    let stayed = research_stage_from stage ps in
    let moved = research_stage_from p.to_stage ps in
    if not (stage_eq p.from_stage stage)
    then none
    else if decision_eq p.decision PromotionDecision.approved
        || decision_eq p.decision PromotionDecision.rejected
        || decision_eq p.decision PromotionDecision.invalidated
    then moved
    else stayed

unfoldable pub current_research_stage : List PromotionRecord → Option ResearchStage
current_research_stage events = research_stage_from ResearchStage.discovery events

-- The checks of `record_promotion_event` on a spec that starts from the current stage.
unfoldable pub promotion_checks : ResearchStage → PromotionEventSpec → Option RegistryError
promotion_checks current spec =
    if not (decision_eq spec.decision PromotionDecision.blocked)
      && not (promotion_transition current spec.to_stage)
    then some (invalid_promotion_transition current spec.to_stage)
    else if (decision_eq spec.decision PromotionDecision.rejected
          && not (stage_eq spec.to_stage ResearchStage.rejected))
        || (decision_eq spec.decision PromotionDecision.invalidated
            && not (stage_eq spec.to_stage ResearchStage.invalidated))
    then some inconsistent_decision
    else none

-- `canonical_sha256` is the digest of the spec.
module _ {Float : Type 0} (canonical_sha256 : PromotionEventSpec → String) where
  abbrev pub prior_events : String → RegistryDb Float → List PromotionRecord
  prior_events k db = order_by_time (select_all (promotes k) db.promotions)

  abbrev find_promotion : String → RegistryDb Float → Option PromotionRecord
  find_promotion k db = select (has_promotion_id k) db.promotions

  -- An event that does not start from the current stage: the record of an earlier call, or an error.
  unfoldable pub recorded_before :
      ResearchStage → PromotionEventSpec → Action Float (Option PromotionRecord)
  recorded_before current spec = do
    existing ← gets (find_promotion (canonical_sha256 spec))
    p ← or_raise existing (unexpected_stage current spec.from_stage)
    raise_if (not (promotion_agrees spec p)) (promotion_conflict (canonical_sha256 spec))
    pure (some p)

  unfoldable pub record_new :
      ResearchStage → PromotionEventSpec → ℕ → Action Float (Option PromotionRecord)
  record_new current spec now = do
    raise_some (promotion_checks current spec)
    modify (λ db. record db {
      promotions =
          insert_or_ignore (λ new p. str_eq p.promotion_id new.promotion_id)
            (promotion_row (canonical_sha256 spec) spec now) db.promotions;
    })
    gets (find_promotion (canonical_sha256 spec))

  abbrev record_or_find :
      ResearchStage → PromotionEventSpec → ℕ → Action Float (Option PromotionRecord)
  record_or_find current spec now =
      if stage_eq spec.from_stage current
      then record_new current spec now
      else recorded_before current spec

  unfoldable pub record_promotion_event : PromotionEventSpec → ℕ → Action Float PromotionRecord
  record_promotion_event spec now = do
    row ← transaction (do
      experiment ← gets (λ db. select (has_experiment_id spec.experiment_id) db.experiments)
      raise_if (not (is_some experiment)) (unknown_experiment spec.experiment_id)
      prior ← gets (prior_events spec.experiment_id)
      current ← or_raise (replayed ResearchStage.discovery prior) inconsistent_history
      record_or_find current spec now)
    p ← or_raise row (disappeared (canonical_sha256 spec))
    raise_if (not (promotion_agrees spec p)) (promotion_conflict (canonical_sha256 spec))
    pure p
