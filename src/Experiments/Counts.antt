-- ===== src/Experiments/Counts.antt =====
-- Counts of trials and the status of a campaign, for research/experiments/campaign_runner.py.
use binance_algo.Base.{
  ◌&&◌, is_empty, suc, ◌==◌, ap, ℕ, String, Bool, true, Option, List, [], ◌∷◌, ok, not, ◌≡◌, refl,
  inl, inr, arith, Option-cases, Bool-cases, ◌+◌, ◌<◌, length, map,
}
use binance_algo.Experiments.CampaignRunner.{campaign_is_completed, final_status}
use binance_algo.Registry.Status.{CampaignStatus}
use binance_algo.Registry.Schema.{CampaignRecord, RegistryDb}
use binance_algo.Registry.Campaigns.{
  campaign_moved, has_campaign_id, find_campaign, transition_campaign,
}
use binance_algo.Table.{select_all}
use binance_algo.Table.Laws.{select-update_self}

pub length-map {ℓ κ} :
    {A : Type ℓ} {B : Type κ} (f : A → B) (xs : List A) → length (map f xs) ≡ length xs
length-map f [] = refl
length-map f (x ∷ xs) = ap suc (length-map f xs)

pub nothing_left {ℓ} : {A : Type ℓ} (xs : List A) → is_empty xs ≡ true → length xs ≡ 0
nothing_left [] empty = refl
nothing_left (x ∷ xs) empty = ground arith

pub both_left : (a b : Bool) → (a && b) ≡ true → a ≡ true
both_left a b both = ground arith

pub both_right : (a b : Bool) → (a && b) ≡ true → b ≡ true
both_right a b both = ground arith

-- The rows that satisfy a clause and those that do not are all rows.
pub length-select_all {ℓ} :
    {A : Type ℓ} (p : A → Bool) (xs : List A)
    → length (select_all p xs) + length (select_all (λ x. not (p x)) xs) ≡ length xs
unfolding select_all
length-select_all p [] = refl
length-select_all p (x ∷ xs) = ground (arith, length-select_all p xs)

-- What the status of a campaign that has run says of its counts.
unfoldable pub Fits : CampaignStatus → ℕ → ℕ → Type 0
Fits CampaignStatus.completed succeeded failed = failed ≡ 0
Fits CampaignStatus.partial succeeded failed = (0 < succeeded) × (0 < failed)
Fits CampaignStatus.failed succeeded failed = (succeeded ≡ 0) × (0 < failed)
Fits _ succeeded failed = ⊥

pub final_status-Fits :
    (succeeded failed planned : ℕ)
    → succeeded + failed ≡ planned
    → Fits (final_status succeeded planned) succeeded failed
unfolding final_status Fits
final_status-Fits succeeded failed planned all = elim (Bool-cases (succeeded == planned)) [
  | inl done ↦ rw done (ground arith)
  | inr rest ↦ rw rest (elim (Bool-cases (succeeded == 0)) [
    | inl nothing ↦ rw nothing (ground arith)
    | inr something ↦ rw something (ground arith)
  ])
]

pub completed-Fits :
    (status : CampaignStatus) (succeeded : ℕ)
    → campaign_is_completed status ≡ true
    → Fits status succeeded 0
unfolding Fits
completed-Fits status succeeded done = ground arith

pub transition_campaign-moved :
    {Float : Type 0} (k : String) (status : CampaignStatus) (e : Option String) (now : ℕ)
    (db : RegistryDb Float) (c : CampaignRecord)
    → (transition_campaign k status e now db).0 ≡ ok c
    → c.status ≡ status
unfolding transition_campaign
transition_campaign-moved k status e now db c done = elim (Option-cases (find_campaign k k db)) [
  | inl unknown ↦ ground arith
  | inr (r, found) ↦ ground (
    arith,
    select-update_self (has_campaign_id r.campaign_id) (campaign_moved status e now) db.campaigns
        (λ r mine. mine),
  )
]
