-- ===== src/Registry/RunInvariant.antt =====
-- What the methods of research/experiments/store.py keep of the runs and of their outputs.
use binance_algo.Base.{
  eq_iff, Option-cases, str_eq, is_some, not, ◌==◌, ◌||◌, Bool-cases, ◌&&◌, ◌≡◌, ◌≤◌, ◌++◌, arith,
  All, refl, inl, inr, ℕ, String, Bool, true, false, Option, none, List, [], ◌∷◌,
}
use binance_algo.Registry.Outputs.{run_completed}
use binance_algo.Table.Laws.{update-IsKeyed, IsKeyed}
use binance_algo.Registry.Runs.{
  has_run_id, find_run, artifact_count, timestamp_or, run_key, metric_count, heartbeat_run,
  transition_run, is_falsy, run_transitioned, RunUpdate, staled, beaten, run_checks,
  is_stale_before, new_run,
}
use binance_algo.Registry.Schema.{RegistryDb, ExperimentRunRecord}
use binance_algo.Registry.Status.{run_is_finished, RunStatus, run_is_succeeded}
use binance_algo.Table.{update}

module _ {ℓ κ} {A : Type ℓ} where
  pub append-All : (P : A → Type κ) (xs : List A) (x : A) → All P xs → P x → All P (xs ++ (x ∷ []))
  append-All P [] x h p = (p, tt)
  append-All P (y ∷ xs) x h p = (h.0, append-All P xs x h.1 p)

  pub update-All :
      (P Q : A → Type κ) (p : A → Bool) (f : A → A) (xs : List A)
      → ((x : A) → P x → Q x)
      → ((x : A) → P x → p x ≡ true → Q (f x))
      → All P xs
      → All Q (update p f xs)
  unfolding update
  update-All P Q p f [] keep change h = tt
  update-All P Q p f (x ∷ xs) keep change h = elim (Bool-cases (p x)) [
    | inl here ↦ rw (here) (change x h.0 here, update-All P Q p f xs keep change h.1)
    | inr other ↦ rw (other) (keep x h.0, update-All P Q p f xs keep change h.1)
  ]

  pub All-map : (P Q : A → Type κ) (xs : List A) → ((x : A) → P x → Q x) → All P xs → All Q xs
  All-map P Q [] keep h = tt
  All-map P Q (x ∷ xs) keep h = (keep x h.0, All-map P Q xs keep h.1)

-- A run that succeeded has a result digest, a metric and an artifact, and no other run has a digest;
-- a run has an end exactly when its status is one of the finished ones.
abbrev pub RunIsSound : ℕ → ℕ → ExperimentRunRecord → Type 0
RunIsSound metrics artifacts r =
    ((run_is_succeeded r.status && (is_falsy r.result_digest || metrics == 0 || artifacts == 0))
      ≡ false)
    × ((not (run_is_succeeded r.status) && is_some r.result_digest) ≡ false)
    × (is_some r.finished_at_ms ≡ run_is_finished r.status)

pub new_run-RunIsSound : (k e : String) (n now m a : ℕ) → RunIsSound m a (new_run k e n now)
new_run-RunIsSound k e n now m a = ground arith

transitioned-RunIsSound :
    (current status : RunStatus) (u : RunUpdate) (now m a : ℕ) (r : ExperimentRunRecord)
    → run_checks current status u.result_digest_value m a ≡ none
    → RunIsSound m a (run_transitioned status u now r)
unfolding run_checks
transitioned-RunIsSound current status u now m a r passed = ground arith

beaten-RunIsSound :
    (t m a : ℕ) (r : ExperimentRunRecord) → RunIsSound m a r → RunIsSound m a (beaten t r)
beaten-RunIsSound t m a r h = h

pub staled-RunIsSound :
    (t m a : ℕ) (r : ExperimentRunRecord)
    → is_stale_before t r ≡ true
    → RunIsSound m a r
    → RunIsSound m a (staled r)
unfolding is_stale_before
staled-RunIsSound t m a r old h = ground arith

pub more-RunIsSound :
    (m a m' a' : ℕ) (r : ExperimentRunRecord)
    → m ≤ m'
    → a ≤ a'
    → RunIsSound m a r
    → RunIsSound m' a' r
more-RunIsSound m a m' a' r more_m more_a h = ground arith

pub completed-RunIsSound :
    (digest : String) (now m a : ℕ) (r : ExperimentRunRecord)
    → str_eq digest "" ≡ false
    → (m == 0) ≡ false
    → (a == 0) ≡ false
    → RunIsSound m a (run_completed digest now r)
completed-RunIsSound digest now m a r given some_m some_a = ground arith

module _ {Float : Type 0} where
  -- `run_id` is unique, and every run is sound.
  abbrev pub RunsAreSound : RegistryDb Float → Type 0
  RunsAreSound db =
      IsKeyed run_key db.runs
      × All (λ r. RunIsSound (metric_count r.run_id db) (artifact_count r.run_id db) r) db.runs

  -- A row that keeps its id is rewritten soundly.
  abbrev KeepsSound :
      RegistryDb Float
      → (ExperimentRunRecord → Bool)
      → (ExperimentRunRecord → ExperimentRunRecord)
      → Type 0
  KeepsSound db p f =
      (r : ExperimentRunRecord)
      → p r ≡ true
      → RunIsSound (metric_count r.run_id db) (artifact_count r.run_id db) r
      → RunIsSound (metric_count r.run_id db) (artifact_count r.run_id db) (f r)

  pub update-RunsAreSound :
      (db : RegistryDb Float) (k : String) (f : ExperimentRunRecord → ExperimentRunRecord)
      → ((r : ExperimentRunRecord) → run_key (f r) ≡ run_key r)
      → KeepsSound db (has_run_id k) f
      → RunsAreSound db
      → RunsAreSound (record db { runs = update (has_run_id k) f db.runs })
  update-RunsAreSound db k f same change h = (
    update-IsKeyed run_key k f db.runs same h.0,
    update-All (λ r. RunIsSound (metric_count r.run_id db) (artifact_count r.run_id db) r)
        (λ r. RunIsSound (metric_count r.run_id db) (artifact_count r.run_id db) r) (has_run_id k) f
        db.runs (λ r s. s) (λ r s mine. rw (same r) (change r mine s)) h.1,
  )

  pub transition_run-RunsAreSound :
      (k : String) (status : RunStatus) (u : RunUpdate) (now : ℕ) (db : RegistryDb Float)
      → RunsAreSound db
      → RunsAreSound (transition_run k status u now db).1
  unfolding transition_run
  transition_run-RunsAreSound k status u now db h = elim (Option-cases (find_run k db)) [
    | inl unknown ↦ ground (arith, h)
    | inr (r, found) ↦
        elim (Option-cases (
          run_checks r.status status u.result_digest_value (metric_count k db)
            (artifact_count k db))) [
              | inr (e, refused) ↦ ground (arith, h)
              | inl passed ↦ ground (
                arith,
                found,
                passed,
                h,
                update-RunsAreSound db k (run_transitioned status u now) (λ s. refl)
                    (λ s mine _.
                      transitioned-RunIsSound r.status status u now (metric_count s.run_id db)
                        (artifact_count s.run_id db) s (rw ((eq_iff s.run_id k).0 mine) passed))
                    h,
              )
            ]
  ]

  pub heartbeat_run-RunsAreSound :
      (k : String) (t : Option ℕ) (now : ℕ) (db : RegistryDb Float)
      → RunsAreSound db
      → RunsAreSound (heartbeat_run k t now db).1
  unfolding heartbeat_run
  heartbeat_run-RunsAreSound k t now db h = ground (
    arith,
    h,
    update-RunsAreSound db k (beaten (timestamp_or t now)) (λ s. refl) (λ s mine sound. sound) h,
  )
