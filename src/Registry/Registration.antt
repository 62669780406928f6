-- ===== src/Registry/Registration.antt =====
-- Registrations and recordings of research/experiments/store.py whose checks stand after the commit:
-- when they raise, nothing has been written.
use binance_algo.Base.{
  is_some, Bool-cases, Option-cases, ◌++◌, eq_refl, arith, ◌≡◌, refl, inl, inr, ℕ, String, true,
  false, Option, none, some, [], ◌∷◌, ok, err,
}
use binance_algo.Registry.Schema.{sqlite_error, CampaignRecord, RegistryDb}
use binance_algo.Registry.Campaigns.{
  same_campaign, find_hypothesis, has_hypothesis_id, hypothesis_row, is_campaign,
  hypothesis_from_row, HypothesisSpec, insert_or_ignore_campaign, planned_campaign,
  hypothesis_definition_eq, register_hypothesis, register_campaign, CampaignDefinition,
  campaign_agrees,
}
use binance_algo.Table.Laws.{select-append}
use binance_algo.Transaction.{IsAtomic}
use binance_algo.Table.{select, insert_or_ignore}
use binance_algo.Registry.Outputs.{option_str_eq}

option_str_eq_refl : (o : Option String) → option_str_eq o o ≡ true
option_str_eq_refl none = refl
option_str_eq_refl (some s) = eq_refl s

planned_agrees :
    (d : CampaignDefinition) (now : ℕ) → campaign_agrees d (planned_campaign d now) ≡ true
unfolding campaign_agrees
planned_agrees d now = ground (
  arith,
  eq_refl d.identifier,
  eq_refl d.name,
  eq_refl d.description,
  eq_refl d.hypothesis_id,
  eq_refl d.spec_json,
)

spec_agrees :
    (spec : HypothesisSpec) (now : ℕ)
    → hypothesis_definition_eq (hypothesis_from_row (hypothesis_row spec now)) spec ≡ true
unfolding hypothesis_definition_eq
spec_agrees spec now = ground (
  arith,
  eq_refl spec.hypothesis_id,
  eq_refl spec.title,
  eq_refl spec.mechanism,
  option_str_eq_refl spec.expected_direction,
  option_str_eq_refl spec.expected_horizon,
  option_str_eq_refl spec.target_universe,
  eq_refl spec.preregistered_success_criteria,
  option_str_eq_refl spec.notes,
)

module _ {Float : Type 0} where
  inserted_campaign :
      (d : CampaignDefinition) (now : ℕ) (db : RegistryDb Float)
      → select (is_campaign d.identifier d.name) db.campaigns ≡ none
      → select (is_campaign d.identifier d.name) (db.campaigns ++ (planned_campaign d now ∷ []))
        ≡ some (planned_campaign d now)
  inserted_campaign d now db free = ground (
    arith,
    eq_refl d.identifier,
    select-append (is_campaign d.identifier d.name) db.campaigns (planned_campaign d now),
  )

  insertion :
      (c : CampaignRecord) (db : RegistryDb Float)
      → select (same_campaign c) db.campaigns ≡ none
      → is_some (find_hypothesis c.hypothesis_id db) ≡ true
      → insert_or_ignore_campaign c db ≡ (ok tt, record db { campaigns = db.campaigns ++ (c ∷ []) })
  unfolding insert_or_ignore_campaign
  insertion c db free known = rw (free, known) refl

  no_insertion :
      (c : CampaignRecord) (db : RegistryDb Float)
      → (is_some (select (same_campaign c) db.campaigns) ≡ true
          → insert_or_ignore_campaign c db ≡ (ok tt, db))
        × (select (same_campaign c) db.campaigns ≡ none
            → is_some (find_hypothesis c.hypothesis_id db) ≡ false
            → insert_or_ignore_campaign c db ≡ (err sqlite_error, db))
  unfolding insert_or_ignore_campaign
  no_insertion c db = (λ taken. rw (taken) refl, λ free unknown. rw (free, unknown) refl)

  -- A registration of a campaign that raises, because the definition is incomplete, its hypothesis is
  -- unknown or a campaign with the id or the name is defined otherwise, has written nothing.
  register_campaign-IsAtomic :
      (d : CampaignDefinition) (now : ℕ) (db : RegistryDb Float)
      → IsAtomic db (register_campaign d now db)
  unfolding register_campaign
  register_campaign-IsAtomic d now db =
      let (taken, unknown) = no_insertion (planned_campaign d now) db in
      elim (Option-cases (select (is_campaign d.identifier d.name) db.campaigns)) [
        | inr (c, found) ↦ ground (arith, taken (rw (found) refl))
        | inl free ↦ elim (Bool-cases (is_some (find_hypothesis d.hypothesis_id db))) [
          | inl known ↦ ground (
            arith,
            insertion (planned_campaign d now) db free known,
            inserted_campaign d now db free,
            planned_agrees d now,
          )
          | inr no_hypothesis ↦ ground (arith, unknown free no_hypothesis)
        ]
      ]

  -- A registration of a hypothesis that raises, because the id is registered with another
  -- definition, has written nothing.
  register_hypothesis-IsAtomic :
      (spec : HypothesisSpec) (now : ℕ) (db : RegistryDb Float)
      → IsAtomic db (register_hypothesis spec now db)
  unfolding register_hypothesis insert_or_ignore
  register_hypothesis-IsAtomic spec now db =
      elim (Option-cases (select (has_hypothesis_id spec.hypothesis_id) db.hypotheses)) [
        | inr (h, found) ↦ ground (arith, found)
        | inl free ↦ ground (
          arith,
          free,
          eq_refl spec.hypothesis_id,
          spec_agrees spec now,
          select-append (has_hypothesis_id spec.hypothesis_id) db.hypotheses
              (hypothesis_row spec now),
        )
      ]

  -- A registration of a campaign or of a hypothesis that raises has written nothing.
  pub registration-IsAtomic :
      (d : CampaignDefinition) (spec : HypothesisSpec) (now : ℕ) (db : RegistryDb Float)
      → IsAtomic db (register_campaign d now db) × IsAtomic db (register_hypothesis spec now db)
  registration-IsAtomic d spec now db =
      (register_campaign-IsAtomic d now db, register_hypothesis-IsAtomic spec now db)
