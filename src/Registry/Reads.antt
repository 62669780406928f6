-- ===== src/Registry/Reads.antt =====
-- The methods of research/experiments/store.py that read the runs of an experiment.
use binance_algo.Base.{String, Option, none, some, List, [], ◌∷◌, ltb, if◌then◌else◌, ◌&&◌}
use binance_algo.Registry.Status.{run_is_succeeded}
use binance_algo.Registry.Runs.{run_of_experiment, Action}
use binance_algo.Transaction.{gets}
use binance_algo.Registry.Schema.{ExperimentRunRecord}

abbrev later : ExperimentRunRecord → Option ExperimentRunRecord → ExperimentRunRecord
later r none = r
later r (some s) = if ltb r.attempt s.attempt then s else r

-- `WHERE experiment_id = ? AND status = 'SUCCEEDED' ORDER BY attempt DESC LIMIT 1`
unfoldable pub latest_success : String → List ExperimentRunRecord → Option ExperimentRunRecord
latest_success k [] = none
latest_success k (r ∷ rs) =
    let rest = latest_success k rs in
    if run_of_experiment k r && run_is_succeeded r.status then some (later r rest) else rest

unfoldable pub latest_successful_run :
    {Float : Type 0} → String → Action Float (Option ExperimentRunRecord)
latest_successful_run k = gets (λ db. latest_success k db.runs)
