-- ===== src/Experiments/Trials.antt =====
-- The counts and the status that `CampaignRunner.run` of research/experiments/campaign_runner.py
-- returns.
use binance_algo.Base.{
  ◌&&◌, is_empty, ℕ, String, Bool, true, List, [], ◌∷◌, Result, ok, err, not, ◌≡◌, refl, inl, inr,
  arith, Bool-cases, ◌+◌, ◌-◌, ◌≤◌, length,
}
use binance_algo.Experiments.Counts.{
  both_right, both_left, final_status-Fits, nothing_left, transition_campaign-moved, completed-Fits,
  length-select_all, Fits, length-map,
}
use binance_algo.Experiments.CampaignRunner.{
  start_campaign, queue_campaign, is_cached, pending_trials, cache_hits, campaign_is_completed,
  campaign_run_result, completed_before, run_campaign, last_error, CampaignEvents, finish_campaign,
  CampaignRunResult, execute_trial, trial_id, Trial, execute_pending, final_status,
}
use binance_algo.Experiments.Runner.{
  campaign_cannot_run, or_work_error, in_store, lifted, RunnerAction, RunnerError,
}
use binance_algo.Registry.Status.{campaign_is_running}
use binance_algo.Transaction.{raise_if, pure, ◌>>◌, ◌>>=◌}
use binance_algo.Registry.Runs.{Action}
use binance_algo.Registry.Schema.{RegistryError, CampaignRecord, RegistryDb}
use binance_algo.Registry.Campaigns.{transition_campaign}
use binance_algo.Registry.Promotions.{PromotionEventSpec}
use binance_algo.Transaction.Moves.{bind-cases}

module _ {Float : Type 0} (is_finite : Float → Bool) (float_eq : Float → Float → Bool)
    (sha256 : List String → String) (run_id_digest : String → ℕ → String)
    (canonical_sha256 : PromotionEventSpec → String) (type_name message : RunnerError → String)
    (failure_text : List String → String) where
  abbrev pub executed_from :
      Bool → List (Trial Float) → RegistryDb Float → List String × RegistryDb Float
  executed_from =
      execute_pending is_finite float_eq sha256 run_id_digest canonical_sha256 type_name message
        failure_text

  execute_pending-bound :
      (fail_fast : Bool) (trials : List (Trial Float)) (db : RegistryDb Float)
      → length (executed_from fail_fast trials db).0 ≤ length trials
  unfolding execute_pending
  execute_pending-bound fail_fast [] db = omega arith
  execute_pending-bound fail_fast (t ∷ trials) db = ground (
    arith,
    length-map trial_id trials,
    execute_pending-bound fail_fast trials
        (execute_trial is_finite float_eq sha256 run_id_digest canonical_sha256 type_name message
          failure_text t db).1,
  )

  -- Every planned trial was in the cache or was executed, and succeeded or failed; the failures are
  -- those listed; and the status fits these counts.
  abbrev pub Accounts : Result RunnerError CampaignRunResult × RegistryDb Float → Type 0
  Accounts (ok o, after) =
      (o.cache_hit_count + o.executed_count ≡ o.planned_count)
      × ((o.succeeded_count + o.failed_count ≡ o.planned_count)
          × ((o.failed_count ≡ length o.failed_experiments)
              × Fits o.campaign.status o.succeeded_count o.failed_count))
  Accounts (err e, after) = Unit

  bind-Accounts :
      {A : Type 0} (m : RunnerAction Float A) (f : A → RunnerAction Float CampaignRunResult)
      (db : RegistryDb Float)
      → ((a : A) (after : RegistryDb Float) → (m db).0 ≡ ok a → Accounts (f a after))
      → Accounts ((m >>= f) db)
  bind-Accounts m f db h = bind-cases Accounts m f db (λ a done. h a (m db).1 done) (λ e _. tt)

  lifted-ok :
      {A : Type 0} (p : Result RegistryError A × RegistryDb Float) (a : A)
      → (lifted p).0 ≡ ok a
      → p.0 ≡ ok a
  lifted-ok (ok b, db) a done = ground arith
  lifted-ok (err e, db) a done = ground arith

  finish_campaign-Accounts :
      (c : CampaignRecord) (fail_fast : Bool) (planned hits : ℕ) (pending : List (Trial Float))
      (events : CampaignEvents) (db : RegistryDb Float)
      → hits + length pending ≡ planned
      → Accounts (
          finish_campaign is_finite float_eq sha256 run_id_digest canonical_sha256 type_name message
            failure_text c fail_fast planned hits pending events db)
  unfolding finish_campaign
  finish_campaign-Accounts c fail_fast planned hits pending events db all =
      let failures = (executed_from fail_fast pending db).0 in
      let last = (executed_from fail_fast pending db).1 in
      let bound = execute_pending-bound fail_fast pending db in
      let succeeded = hits + length pending - length failures in
      let move : Action Float CampaignRecord =
        transition_campaign c.campaign_id (final_status succeeded planned)
          (last_error is_finite float_eq sha256 run_id_digest canonical_sha256 type_name message
            failure_text failures)
          events.finished_at in
      let result = λ (final : CampaignRecord).
        campaign_run_result final planned hits (length pending) succeeded failures in
      bind-Accounts (in_store move)
        (λ final. or_work_error events.comparison >> pure (result final)) last
        (λ final after moved.
          bind-Accounts (or_work_error events.comparison) (λ _. pure (result final)) after
            (λ _ _ _. (
              all,
              (
                omega (arith, bound),
                (
                  refl,
                  rw
                      (transition_campaign-moved c.campaign_id (final_status succeeded planned)
                        (last_error is_finite float_eq sha256 run_id_digest canonical_sha256
                          type_name message failure_text failures)
                        events.finished_at last final (lifted-ok (move last) final moved))
                      (final_status-Fits succeeded (length failures) planned
                        (omega (arith, bound))),
                ),
              ),
            )))

  completed_before-Accounts :
      (c : CampaignRecord) (planned hits : ℕ) (events : CampaignEvents) (db : RegistryDb Float)
      → hits ≡ planned
      → campaign_is_completed c.status ≡ true
      → Accounts (
          completed_before is_finite float_eq sha256 run_id_digest canonical_sha256 type_name
            message failure_text c planned hits events db)
  unfolding completed_before
  completed_before-Accounts c planned hits events db all done =
      bind-Accounts (or_work_error events.comparison)
        (λ _. pure (campaign_run_result c planned hits 0 hits [])) db
        (λ _ _ _. (omega arith, (omega arith, (refl, completed-Fits c.status hits done))))

  -- A campaign that returns accounts for its plan: the trials from the cache and the executed ones,
  -- and the succeeded and the failed ones, are together the planned ones, the failures are those
  -- listed, and the status is COMPLETED with no failure, PARTIAL with some of both, or FAILED with
  -- failures only.
  pub run_campaign-Accounts :
      (verified : String → Bool) (c : CampaignRecord) (fail_fast : Bool)
      (trials : List (Trial Float)) (events : CampaignEvents) (db : RegistryDb Float)
      → Accounts (
          run_campaign is_finite float_eq sha256 run_id_digest canonical_sha256 type_name message
            failure_text verified c fail_fast trials events db)
  unfolding run_campaign
  run_campaign-Accounts verified c fail_fast trials events db =
      let hits = cache_hits verified trials db in
      let pending = pending_trials verified trials db in
      let all = length-select_all (is_cached verified db) trials in
      let finish = λ (running : CampaignRecord).
        finish_campaign is_finite float_eq sha256 run_id_digest canonical_sha256 type_name message
          failure_text running fail_fast (length trials) (length hits) pending events in
      let guarded = λ (running : CampaignRecord).
        raise_if (not (campaign_is_running running.status)) (campaign_cannot_run running.status)
        >> finish running in
      elim (Bool-cases (is_empty pending && campaign_is_completed c.status)) [
        | inl done ↦ rw done (
            completed_before-Accounts c (length trials) (length hits) events db
              (omega (arith, all, nothing_left pending (both_left _ _ done)))
              (both_right (is_empty pending) _ done))
        | inr work ↦ rw work (
            bind-Accounts (queue_campaign c events.queued_at)
              (λ queued. start_campaign queued events.running_at >>= guarded) db
              (λ queued after _.
                bind-Accounts (start_campaign queued events.running_at) guarded after
                  (λ running after' _.
                    bind-Accounts
                      (raise_if (not (campaign_is_running running.status))
                        (campaign_cannot_run running.status))
                      (λ _. finish running) after'
                      (λ _ last _.
                        finish_campaign-Accounts running fail_fast (length trials) (length hits)
                          pending events last all))))
      ]
