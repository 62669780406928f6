-- ===== src/Registry/RunGrowth.antt =====
-- Metrics and artifacts of research/experiments/store.py are only added, and adding them keeps the
-- runs sound.
use binance_algo.Base.{
  ◌≤◌, if◌then◌else◌, ◌+◌, arith, ◌≡◌, ◌++◌, ◌∙◌, length, refl, String, Bool, List, [], ◌∷◌,
}
use binance_algo.Registry.RunInvariant.{more-RunIsSound, RunIsSound, All-map, RunsAreSound}
use binance_algo.Registry.Runs.{artifact_count, metric_count, artifact_of, metric_of}
use binance_algo.Table.Laws.{select_all-append}
use binance_algo.Registry.Schema.{ArtifactRow, MetricRow, RegistryDb}
use binance_algo.Table.{select_all}
use binance_algo.Registry.Outputs.{insert_artifact, insert_metric}

module _ {ℓ} {A : Type ℓ} where
  length-append : (xs ys : List A) → length (xs ++ ys) ≡ length xs + length ys
  length-append [] ys = ground arith
  length-append (x ∷ xs) ys = ground (arith, length-append xs ys)

  pub select_all-grows :
      (p : A → Bool) (xs : List A) (x : A)
      → length (select_all p (xs ++ (x ∷ []))) ≡ length (select_all p xs) + (if p x then 1 else 0)
  select_all-grows p xs x = ground (
    arith,
    select_all-append p xs x,
    length-append (select_all p xs) (if p x then x ∷ [] else []),
  )

module _ {Float : Type 0} where
  -- The same runs, with no fewer metrics or artifacts for any of them.
  abbrev pub Grows : RegistryDb Float → RegistryDb Float → Type 0
  Grows db after =
      (after.runs ≡ db.runs)
      × ((k : String) → metric_count k db ≤ metric_count k after)
      × ((k : String) → artifact_count k db ≤ artifact_count k after)

  pub Grows-refl : (db : RegistryDb Float) → Grows db db
  Grows-refl db = (refl, λ k. ground arith, λ k. ground arith)

  pub Grows-trans : (a b c : RegistryDb Float) → Grows a b → Grows b c → Grows a c
  Grows-trans a b c f g =
      (g.0 ∙ f.0, λ k. ground (arith, f.1 k, g.1 k), λ k. ground (arith, f.2 k, g.2 k))

  pub metric-Grows :
      (db : RegistryDb Float) (m : MetricRow Float)
      → Grows db (record db { metrics = db.metrics ++ (m ∷ []) })
  metric-Grows db m =
      (refl, λ k. ground (arith, select_all-grows (metric_of k) db.metrics m), λ k. ground arith)

  pub artifact-Grows :
      (db : RegistryDb Float) (a : ArtifactRow)
      → Grows db (record db { artifacts = db.artifacts ++ (a ∷ []) })
  artifact-Grows db a = (
    refl,
    λ k. ground arith,
    λ k. ground (arith, select_all-grows (artifact_of k) db.artifacts a),
  )

  pub Grows-RunsAreSound :
      (db after : RegistryDb Float) → Grows db after → RunsAreSound db → RunsAreSound after
  Grows-RunsAreSound db after g h = rw (g.0) (
    h.0,
    All-map (λ r. RunIsSound (metric_count r.run_id db) (artifact_count r.run_id db) r)
        (λ r. RunIsSound (metric_count r.run_id after) (artifact_count r.run_id after) r) db.runs
        (λ r s.
          more-RunIsSound (metric_count r.run_id db) (artifact_count r.run_id db)
            (metric_count r.run_id after) (artifact_count r.run_id after) r (g.1 r.run_id)
            (g.2 r.run_id) s)
        h.1,
  )

module _ {Float : Type 0} (is_finite : Float → Bool) (float_eq : Float → Float → Bool)
    (sha256 : List String → String) where
  pub insert_metric-Grows :
      (m : MetricRow Float) (db : RegistryDb Float)
      → Grows db (insert_metric is_finite float_eq sha256 m db).1
  unfolding insert_metric
  insert_metric-Grows m db = ground (arith, Grows-refl db, metric-Grows db m)

  pub insert_artifact-Grows :
      (a : ArtifactRow) (db : RegistryDb Float)
      → Grows db (insert_artifact is_finite float_eq sha256 a db).1
  unfolding insert_artifact
  insert_artifact-Grows a db = ground (arith, Grows-refl db, artifact-Grows db a)
