-- ===== src/Registry/Atomic.antt =====
-- The writes of research/experiments/store.py that raise have written nothing.
use binance_algo.Base.{ℕ, String, Bool, List}
use binance_algo.Registry.Campaigns.{
  register_hypothesis, register_campaign, HypothesisSpec, CampaignDefinition,
}
use binance_algo.Registry.Runs.{create_run}
use binance_algo.Registry.Outputs.{complete_run, ArtifactOutput}
use binance_algo.Registry.Schema.{MetricRow, RegistryDb}
use binance_algo.Transaction.{IsAtomic}
use binance_algo.Registry.Completion.{complete_run-IsAtomic}
use binance_algo.Registry.Attempts.{create_run-IsAtomic}
use binance_algo.Registry.Registration.{registration-IsAtomic}

module _ {Float : Type 0} (is_finite : Float → Bool) (float_eq : Float → Float → Bool)
    (sha256 : List String → String) (run_id : String → ℕ → String) where
  -- A completion, whatever check or constraint stops it, a creation of a run, and a registration of a
  -- campaign or of a hypothesis have each written nothing if they raise.
  pub writes-IsAtomic :
      (k digest : String) (ms : List (MetricRow Float)) (outputs : List ArtifactOutput)
      (experiment : String) (d : CampaignDefinition) (spec : HypothesisSpec) (now : ℕ)
      (db : RegistryDb Float)
      → IsAtomic db (complete_run is_finite float_eq sha256 k digest ms outputs now db)
        × IsAtomic db (create_run run_id experiment now db)
        × IsAtomic db (register_campaign d now db)
        × IsAtomic db (register_hypothesis spec now db)
  writes-IsAtomic k digest ms outputs experiment d spec now db =
      let (campaign, hypothesis) = registration-IsAtomic d spec now db in
      (
        complete_run-IsAtomic is_finite float_eq sha256 k digest ms outputs now db,
        create_run-IsAtomic run_id experiment now db,
        campaign,
        hypothesis,
      )
