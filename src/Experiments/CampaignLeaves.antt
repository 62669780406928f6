-- ===== src/Experiments/CampaignLeaves.antt =====
-- What `CampaignRunner.run` of research/experiments/campaign_runner.py leaves in the registry for
-- every trial of its plan.
use binance_algo.Experiments.Counts.{both_left}
use binance_algo.Base.{
  ◌-◌, ◌+◌, if◌then◌else◌, ℕ, String, Bool, true, false, Option, none, List, [], ◌∷◌, Result, ok,
  err, not, ◌≡◌, refl, inl, inr, arith, Option-cases, Bool-cases, All, length, is_empty, ◌&&◌,
}
use binance_algo.Experiments.Accounted.{
  follows, execute_pending-IsAccounted, execute_pending-Goes, executed_by, stays, Goes, IsAccounted,
}
use binance_algo.Experiments.CampaignRunner.{
  campaign_may_start, campaign_is_planned, start_campaign, queue_campaign, campaign_run_result,
  last_error, campaign_is_completed, final_status, pending_trials, cache_hits, CampaignEvents,
  completed_before, finish_campaign, run_campaign, is_cached, CampaignRunResult, Trial,
}
use binance_algo.Experiments.Successes.{
  RunsAreSound-Reaches, latest_success-found, HasSuccess, HasSuccess-Reaches,
}
use binance_algo.Experiments.Runner.{
  RunnerAction, campaign_cannot_run, in_store, or_work_error, WorkError, RunnerError,
}
use binance_algo.Registry.Status.{campaign_is_running, CampaignStatus}
use binance_algo.Registry.Reads.{latest_success}
use binance_algo.Registry.Ops.{call_transition_campaign, call}
use binance_algo.Experiments.Calls.{in_store-IsCalls}
use binance_algo.Registry.Campaigns.{transition_campaign}
use binance_algo.Registry.RunInvariant.{RunsAreSound}
use binance_algo.Registry.Schema.{RegistryDb, CampaignRecord}
use binance_algo.Table.{select_all}
use binance_algo.Registry.Promotions.{PromotionEventSpec}
use binance_algo.Transaction.Moves.{bind-cases}
use binance_algo.Transaction.{◌>>◌, ◌>>=◌, raise_if, pure}

All-is_empty {ℓ κ} : {A : Type ℓ} (Q : A → Type κ) (xs : List A) → is_empty xs ≡ true → All Q xs
All-is_empty Q [] empty = tt
All-is_empty Q (x ∷ xs) empty = ground arith

All-select_all {ℓ κ} :
    {A : Type ℓ} (Q : A → Type κ) (p : A → Bool) (xs : List A)
    → ((x : A) → p x ≡ true → Q x)
    → All Q (select_all (λ x. not (p x)) xs)
    → All Q xs
unfolding select_all
All-select_all Q p [] chosen rest = tt
All-select_all Q p (x ∷ xs) chosen rest = elim (Bool-cases (p x)) [
  | inl hit ↦ (chosen x hit, All-select_all Q p xs chosen (rw hit at rest))
  | inr missed ↦ let both = rw missed at rest in (both.0, All-select_all Q p xs chosen both.1)
]

module _ {Float : Type 0} (is_finite : Float → Bool) (float_eq : Float → Float → Bool)
    (sha256 : List String → String) (run_id_digest : String → ℕ → String)
    (canonical_sha256 : PromotionEventSpec → String) (type_name message : RunnerError → String)
    (failure_text : List String → String) where
  abbrev GoesTo : RegistryDb Float → RegistryDb Float → Type 0
  GoesTo =
      Goes is_finite float_eq sha256 run_id_digest canonical_sha256 type_name message failure_text

  abbrev Accounted : List String → RegistryDb Float → Trial Float → Type 0
  Accounted =
      IsAccounted is_finite float_eq sha256 run_id_digest canonical_sha256 type_name message
        failure_text

  -- A trial of the plan is listed as failed, or the registry has a success of its experiment.
  abbrev pub AllAccounted :
      List (Trial Float) → Result RunnerError CampaignRunResult × RegistryDb Float → Type 0
  AllAccounted trials (ok o, after) = All (Accounted o.failed_experiments after) trials
  AllAccounted trials (err e, after) = Unit

  move-Goes :
      (k : String) (status : CampaignStatus) (e : Option String) (now : ℕ) (db : RegistryDb Float)
      → GoesTo db (in_store (transition_campaign k status e now) db).1
  unfolding call
  move-Goes k status e now =
      in_store-IsCalls is_finite float_eq sha256 run_id_digest canonical_sha256 type_name message
        (transition_campaign k status e now) (call_transition_campaign k status e now) (λ db. refl)

  moved_if-Goes :
      (b : Bool) (c : CampaignRecord) (status : CampaignStatus) (now : ℕ) (db : RegistryDb Float)
      → GoesTo db
          ((if b then in_store (transition_campaign c.campaign_id status none now) else pure c)
            db).1
  moved_if-Goes true c status now db = move-Goes c.campaign_id status none now db
  moved_if-Goes false c status now db =
      stays is_finite float_eq sha256 run_id_digest canonical_sha256 type_name message failure_text
        db

  guarded_same : (b : Bool) (e : RunnerError) (db : RegistryDb Float) → (raise_if b e db).1 ≡ db
  guarded_same true e db = refl
  guarded_same false e db = refl

  compared_same :
      (r : Result WorkError (Unit {0})) (db : RegistryDb Float) → (or_work_error r db).1 ≡ db
  compared_same (ok u) db = refl
  compared_same (err e) db = refl

  Accounted-kept :
      (failures : List String) (db after : RegistryDb Float) (trials : List (Trial Float))
      → RunsAreSound db
      → GoesTo db after
      → All (Accounted failures db) trials
      → All (Accounted failures after) trials
  Accounted-kept failures db after [] sound goes h = tt
  Accounted-kept failures db after (t ∷ trials) sound goes (inl failed, h) =
      (inl failed, Accounted-kept failures db after trials sound goes h)
  Accounted-kept failures db after (t ∷ trials) sound goes (inr succeeded, h) = (
    inr (
        HasSuccess-Reaches is_finite float_eq sha256 run_id_digest canonical_sha256 type_name
          message t.experiment_id db after sound goes succeeded),
    Accounted-kept failures db after trials sound goes h,
  )

  finish_campaign-AllAccounted :
      (c : CampaignRecord) (fail_fast : Bool) (planned hits : ℕ) (cached : Trial Float → Bool)
      (trials : List (Trial Float)) (events : CampaignEvents) (db : RegistryDb Float)
      → RunsAreSound db
      → ((t : Trial Float) → cached t ≡ true → HasSuccess t.experiment_id db)
      → AllAccounted trials (
          finish_campaign is_finite float_eq sha256 run_id_digest canonical_sha256 type_name message
            failure_text c fail_fast planned hits
            (select_all (λ t. not (cached t)) trials)
            events
            db)
  unfolding finish_campaign
  finish_campaign-AllAccounted c fail_fast planned hits cached trials events db sound has =
      let pending = select_all (λ t. not (cached t)) trials in
      let executed =
        executed_by is_finite float_eq sha256 run_id_digest canonical_sha256 type_name message
          failure_text fail_fast pending db in
      let failures = executed.0 in
      let succeeded = hits + length pending - length failures in
      let status = final_status succeeded planned in
      let error =
        last_error is_finite float_eq sha256 run_id_digest canonical_sha256 type_name message
          failure_text failures in
      let move : RunnerAction Float CampaignRecord =
        in_store (transition_campaign c.campaign_id status error events.finished_at) in
      let after = (move executed.1).1 in
      let result = λ (final : CampaignRecord).
        campaign_run_result final planned hits (length pending) succeeded failures in
      let ran =
        execute_pending-Goes is_finite float_eq sha256 run_id_digest canonical_sha256 type_name
          message failure_text fail_fast pending db in
      let moved = move-Goes c.campaign_id status error events.finished_at executed.1 in
      let sound' =
        RunsAreSound-Reaches is_finite float_eq sha256 run_id_digest canonical_sha256 type_name
          message db executed.1 sound ran in
      let executed_trials = Accounted-kept failures executed.1 after pending sound' moved (
        execute_pending-IsAccounted is_finite float_eq sha256 run_id_digest canonical_sha256
          type_name message failure_text fail_fast pending db sound) in
      let goes =
        follows is_finite float_eq sha256 run_id_digest canonical_sha256 type_name message
          failure_text db executed.1 after ran moved in
      let all =
        All-select_all (Accounted failures after) cached trials
          (λ t hit. inr (
            HasSuccess-Reaches is_finite float_eq sha256 run_id_digest canonical_sha256 type_name
              message t.experiment_id db after sound goes (has t hit)))
          executed_trials in
      bind-cases (AllAccounted trials) move
        (λ final. or_work_error events.comparison >> pure (result final)) executed.1
        (λ final done.
          bind-cases (AllAccounted trials) (or_work_error events.comparison)
            (λ _. pure (result final)) after
            (λ _ compared. rw (compared_same events.comparison after) all) (λ e raised. tt))
        (λ e raised. tt)

  cached_has :
      (verified : String → Bool) (db : RegistryDb Float) (t : Trial Float)
      → RunsAreSound db
      → is_cached verified db t ≡ true
      → HasSuccess t.experiment_id db
  unfolding is_cached
  cached_has verified db t sound hit =
      elim (Option-cases (latest_success t.experiment_id db.runs)) [
        | inl nothing ↦ ground arith
        | inr (r, latest) ↦
            let (found, mine, succeeded) =
              latest_success-found t.experiment_id db.runs r sound.0 latest in
            (r.run_id, r, found, mine, succeeded)
      ]

  -- With one worker: if the runs are sound before a campaign and it returns, then for every trial of its plan, from
  -- the cache or executed, the experiment has a succeeded run in the registry, or is listed as failed.
  pub run_campaign-AllAccounted :
      (verified : String → Bool) (c : CampaignRecord) (fail_fast : Bool)
      (trials : List (Trial Float)) (events : CampaignEvents) (db : RegistryDb Float)
      → RunsAreSound db
      → AllAccounted trials (
          run_campaign is_finite float_eq sha256 run_id_digest canonical_sha256 type_name message
            failure_text verified c fail_fast trials events db)
  unfolding run_campaign completed_before
  run_campaign-AllAccounted verified c fail_fast trials events db sound =
      let hits = cache_hits verified trials db in
      let pending = pending_trials verified trials db in
      let finish = λ (running : CampaignRecord).
        finish_campaign is_finite float_eq sha256 run_id_digest canonical_sha256 type_name message
          failure_text running fail_fast (length trials) (length hits) pending events in
      let guarded = λ (running : CampaignRecord).
        raise_if (not (campaign_is_running running.status)) (campaign_cannot_run running.status)
        >> finish running in
      elim (Bool-cases (is_empty pending && campaign_is_completed c.status)) [
        | inl done ↦ rw done (
            bind-cases (AllAccounted trials) (or_work_error events.comparison)
              (λ _. pure (campaign_run_result c (length trials) (length hits) 0 (length hits) []))
              db
              (λ _ _. rw (compared_same events.comparison db) (
                All-select_all (Accounted [] db) (is_cached verified db) trials
                  (λ t hit. inr (cached_has verified db t sound hit))
                  (All-is_empty (Accounted [] db) pending
                    (both_left _ (campaign_is_completed c.status) done))))
              (λ e _. tt))
        | inr work ↦ rw work (
            bind-cases (AllAccounted trials) (queue_campaign c events.queued_at)
              (λ queued. start_campaign queued events.running_at >>= guarded) db
              (λ queued _.
                let after = (queue_campaign c events.queued_at db).1 in
                let first =
                  moved_if-Goes (campaign_is_planned c.status) c CampaignStatus.queued
                    events.queued_at db in
                bind-cases (AllAccounted trials) (start_campaign queued events.running_at) guarded
                  after
                  (λ running _.
                    let last = (start_campaign queued events.running_at after).1 in
                    let second =
                      moved_if-Goes (campaign_may_start queued.status) queued CampaignStatus.running
                        events.running_at after in
                    let goes =
                      follows is_finite float_eq sha256 run_id_digest canonical_sha256 type_name
                        message failure_text db after last first second in
                    let sound' =
                      RunsAreSound-Reaches is_finite float_eq sha256 run_id_digest canonical_sha256
                        type_name message db last sound goes in
                    bind-cases (AllAccounted trials)
                      (raise_if (not (campaign_is_running running.status))
                        (campaign_cannot_run running.status))
                      (λ _. finish running) last
                      (λ _ _.
                        rw
                          (guarded_same (not (campaign_is_running running.status))
                            (campaign_cannot_run running.status) last)
                          (finish_campaign-AllAccounted running fail_fast (length trials)
                            (length hits) (is_cached verified db) trials events last sound'
                            (λ t hit.
                              HasSuccess-Reaches is_finite float_eq sha256 run_id_digest
                                canonical_sha256 type_name message t.experiment_id db last sound
                                goes (cached_has verified db t sound hit))))
                      (λ e _. tt))
                  (λ e _. tt))
              (λ e _. tt))
      ]
