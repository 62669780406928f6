-- ===== src/Registry/Campaigns.antt =====
-- The methods of research/experiments/store.py on hypotheses and campaigns.
use binance_algo.Base.{
  ◌++◌, err, not, ok, ◌==◌, is_some, ◌||◌, if◌then◌else◌, ◌&&◌, str_eq, ℕ, String, Bool, Option,
  none, some, [], ◌∷◌,
}
use binance_algo.Table.{update, insert_or_ignore, select}
use binance_algo.Registry.Schema.{
  invalid_hypothesis_transition, invalid_campaign_transition, campaign_conflict,
  hypothesis_conflict, unknown_hypothesis, disappeared, unknown_campaign, campaign_incomplete,
  sqlite_error, CampaignRecord, HypothesisRow, RegistryDb,
}
use binance_algo.Transaction.{pure, or_raise, modify, transaction, raise_if, ◌>>=◌, ◌>>◌, gets}
use binance_algo.Registry.Status.{
  campaign_transition, hypothesis_transition, campaign_is_running, campaign_is_finished,
  CampaignStatus, HypothesisStatus,
}
use binance_algo.Registry.Outputs.{option_str_eq}
use binance_algo.Registry.Runs.{Action}

-- `WHERE hypothesis_id = ?`
abbrev pub has_hypothesis_id : String → HypothesisRow → Bool
has_hypothesis_id k h = str_eq h.hypothesis_id k

-- `WHERE campaign_id = ?`
abbrev pub has_campaign_id : String → CampaignRecord → Bool
has_campaign_id k c = str_eq c.campaign_id k

-- `WHERE campaign_id = ? OR name = ?`
abbrev pub is_campaign : String → String → CampaignRecord → Bool
is_campaign identifier name c = str_eq c.campaign_id identifier || str_eq c.name name

-- HypothesisSpec, its criteria by their canonical JSON text.
pub record HypothesisSpec : Type 0 where
  pub hypothesis_id : String
  pub title : String
  pub mechanism : String
  pub expected_direction : Option String
  pub expected_horizon : Option String
  pub target_universe : Option String
  pub preregistered_success_criteria : String
  pub status : HypothesisStatus
  pub notes : Option String

abbrev pub hypothesis_row : HypothesisSpec → ℕ → HypothesisRow
hypothesis_row spec now = record {
  hypothesis_id = spec.hypothesis_id;
  title = spec.title;
  mechanism = spec.mechanism;
  expected_direction = spec.expected_direction;
  expected_horizon = spec.expected_horizon;
  target_universe = spec.target_universe;
  preregistered_success_criteria_json = spec.preregistered_success_criteria;
  status = spec.status;
  created_at_ms = now;
  updated_at_ms = now;
  notes = spec.notes;
}

abbrev pub hypothesis_from_row : HypothesisRow → HypothesisSpec
hypothesis_from_row h = record {
  hypothesis_id = h.hypothesis_id;
  title = h.title;
  mechanism = h.mechanism;
  expected_direction = h.expected_direction;
  expected_horizon = h.expected_horizon;
  target_universe = h.target_universe;
  preregistered_success_criteria = h.preregistered_success_criteria_json;
  status = h.status;
  notes = h.notes;
}

-- Equality of `_hypothesis_definition`: all but the status.
unfoldable pub hypothesis_definition_eq : HypothesisSpec → HypothesisSpec → Bool
hypothesis_definition_eq a b =
    str_eq a.hypothesis_id b.hypothesis_id
    && str_eq a.title b.title
    && str_eq a.mechanism b.mechanism
    && option_str_eq a.expected_direction b.expected_direction
    && option_str_eq a.expected_horizon b.expected_horizon
    && option_str_eq a.target_universe b.target_universe
    && str_eq a.preregistered_success_criteria b.preregistered_success_criteria
    && option_str_eq a.notes b.notes

abbrev pub hypothesis_moved : HypothesisStatus → ℕ → HypothesisRow → HypothesisRow
hypothesis_moved status now h = record h { status = status; updated_at_ms = now }

-- The arguments of `register_campaign`, the payload by its JSON text.
pub record CampaignDefinition : Type 0 where
  pub identifier : String
  pub name : String
  pub description : String
  pub hypothesis_id : String
  pub spec_json : String
  pub trial_count : ℕ

abbrev pub planned_campaign : CampaignDefinition → ℕ → CampaignRecord
planned_campaign d now = record {
  campaign_id = d.identifier;
  name = d.name;
  description = d.description;
  hypothesis_id = d.hypothesis_id;
  spec_json = d.spec_json;
  spec_sha256 = d.identifier;
  status = CampaignStatus.planned;
  created_at_ms = now;
  started_at_ms = none;
  finished_at_ms = none;
  trial_count = d.trial_count;
  last_error = none;
}

-- None of the comparisons of `register_campaign` differs.
unfoldable pub campaign_agrees : CampaignDefinition → CampaignRecord → Bool
campaign_agrees d c =
    str_eq c.campaign_id d.identifier
    && str_eq c.name d.name
    && str_eq c.description d.description
    && str_eq c.hypothesis_id d.hypothesis_id
    && str_eq c.spec_json d.spec_json
    && str_eq c.spec_sha256 d.identifier
    && c.trial_count == d.trial_count

abbrev pub same_campaign : CampaignRecord → CampaignRecord → Bool
same_campaign c d = is_campaign c.campaign_id c.name d

abbrev incomplete : CampaignDefinition → Bool
incomplete d = str_eq d.identifier "" || str_eq d.name "" || str_eq d.description ""

abbrev first_start : CampaignStatus → ℕ → Option ℕ → Option ℕ
first_start status now none = if campaign_is_running status then some now else none
first_start status now (some t) = some t

-- `UPDATE research_campaigns SET …` of `transition_campaign`
abbrev pub campaign_moved : CampaignStatus → Option String → ℕ → CampaignRecord → CampaignRecord
campaign_moved status last_error now c = record c {
  status = status;
  started_at_ms = first_start status now c.started_at_ms;
  finished_at_ms = if campaign_is_finished status then some now else none;
  last_error = last_error;
}

module _ {Float : Type 0} where
  abbrev pub find_hypothesis : String → RegistryDb Float → Option HypothesisRow
  find_hypothesis k db = select (has_hypothesis_id k) db.hypotheses

  abbrev pub find_campaign : String → String → RegistryDb Float → Option CampaignRecord
  find_campaign identifier name db = select (is_campaign identifier name) db.campaigns

  unfoldable pub register_hypothesis : HypothesisSpec → ℕ → Action Float HypothesisSpec
  register_hypothesis spec now = do
    row ← transaction (do
      modify (λ db. record db {
        hypotheses =
            insert_or_ignore (λ new h. str_eq h.hypothesis_id new.hypothesis_id)
              (hypothesis_row spec now) db.hypotheses;
      })
      gets (find_hypothesis spec.hypothesis_id))
    existing ← or_raise row (disappeared spec.hypothesis_id)
    raise_if (not (hypothesis_definition_eq (hypothesis_from_row existing) spec))
        (hypothesis_conflict spec.hypothesis_id)
    pure (hypothesis_from_row existing)

  unfoldable pub transition_hypothesis : String → HypothesisStatus → ℕ → Action Float HypothesisSpec
  transition_hypothesis k status now = do
    updated ← transaction (do
      row ← gets (find_hypothesis k)
      h ← or_raise row (unknown_hypothesis k)
      raise_if (not (hypothesis_transition h.status status))
          (invalid_hypothesis_transition h.status status)
      modify (λ db. record db {
        hypotheses = update (has_hypothesis_id k) (hypothesis_moved status now) db.hypotheses;
      })
      gets (find_hypothesis k))
    row ← or_raise updated (disappeared k)
    pure (hypothesis_from_row row)

  -- The foreign key on the hypothesis is checked when a row is inserted.
  unfoldable pub insert_or_ignore_campaign : CampaignRecord → Action Float (Unit {0})
  insert_or_ignore_campaign c db =
      if is_some (select (same_campaign c) db.campaigns)
      then (ok tt, db)
      else if not (is_some (find_hypothesis c.hypothesis_id db))
      then (err sqlite_error, db)
      else (ok tt, record db { campaigns = db.campaigns ++ (c ∷ []) })

  unfoldable pub register_campaign : CampaignDefinition → ℕ → Action Float CampaignRecord
  register_campaign d now = do
    raise_if (incomplete d) campaign_incomplete
    row ← transaction (do
      insert_or_ignore_campaign (planned_campaign d now)
      gets (find_campaign d.identifier d.name))
    c ← or_raise row (disappeared d.name)
    raise_if (not (campaign_agrees d c)) (campaign_conflict d.name)
    pure c

  unfoldable pub get_campaign : String → Action Float (Option CampaignRecord)
  get_campaign k = gets (find_campaign k k)

  unfoldable pub transition_campaign :
      String → CampaignStatus → Option String → ℕ → Action Float CampaignRecord
  transition_campaign k status last_error now = do
    updated ← transaction (do
      row ← gets (find_campaign k k)
      c ← or_raise row (unknown_campaign k)
      raise_if (not (campaign_transition c.status status))
          (invalid_campaign_transition c.status status)
      modify (λ db. record db {
        campaigns =
            update (has_campaign_id c.campaign_id) (campaign_moved status last_error now)
              db.campaigns;
      })
      gets (λ db. select (has_campaign_id c.campaign_id) db.campaigns))
    or_raise updated (disappeared k)
