-- ===== src/Registry/Permanent.antt =====
-- Metrics and artifacts of research/experiments/store.py are written once: no later call changes or
-- removes them.
use binance_algo.Base.{
  ◌==◌, not, ◌||◌, is_some, arith, Bool-cases, ◌++◌, ◌≡◌, inl, inr, String, Bool, some, List, [],
  ◌∷◌,
}
use binance_algo.Registry.Runs.{find_run}
use binance_algo.Registry.Outputs.{same_metric, same_artifact, insert_metric, insert_artifact}
use binance_algo.Table.Laws.{select-append}
use binance_algo.Registry.Schema.{ArtifactRow, MetricRow, RegistryDb}
use binance_algo.Table.{select}

select-kept {ℓ} :
    {A : Type ℓ} (p : A → Bool) (xs : List A) (x : A) {y : A}
    → select p xs ≡ some y
    → select p (xs ++ (x ∷ [])) ≡ some y
select-kept p xs x found = ground (arith, select-append p xs x)

module _ {Float : Type 0} where
  -- Whatever a query found among the metrics or the artifacts, it finds still.
  abbrev pub OutputsKept : RegistryDb Float → RegistryDb Float → Type 0
  OutputsKept db after =
      ((p : MetricRow Float → Bool) (m : MetricRow Float)
        → select p db.metrics ≡ some m
        → select p after.metrics ≡ some m)
      × ((p : ArtifactRow → Bool) (a : ArtifactRow)
          → select p db.artifacts ≡ some a
          → select p after.artifacts ≡ some a)

  pub OutputsKept-refl : (db : RegistryDb Float) → OutputsKept db db
  OutputsKept-refl db = (λ p m h. h, λ p a h. h)

  pub OutputsKept-trans :
      (a b c : RegistryDb Float) → OutputsKept a b → OutputsKept b c → OutputsKept a c
  OutputsKept-trans a b c f g = (λ p m h. g.0 p m (f.0 p m h), λ p x h. g.1 p x (f.1 p x h))

  pub same-OutputsKept :
      (db after : RegistryDb Float)
      → after.metrics ≡ db.metrics
      → after.artifacts ≡ db.artifacts
      → OutputsKept db after
  same-OutputsKept db after metrics artifacts = (λ p m h. rw (metrics) h, λ p a h. rw (artifacts) h)

  pub metric-OutputsKept :
      (db : RegistryDb Float) (n : MetricRow Float)
      → OutputsKept db (record db { metrics = db.metrics ++ (n ∷ []) })
  metric-OutputsKept db n = (λ p m h. select-kept p db.metrics n h, λ p a h. h)

  pub artifact-OutputsKept :
      (db : RegistryDb Float) (b : ArtifactRow)
      → OutputsKept db (record db { artifacts = db.artifacts ++ (b ∷ []) })
  artifact-OutputsKept db b = (λ p m h. h, λ p a h. select-kept p db.artifacts b h)

module _ {Float : Type 0} (is_finite : Float → Bool) (float_eq : Float → Float → Bool)
    (sha256 : List String → String) where
  pub insert_metric-OutputsKept :
      (m : MetricRow Float) (db : RegistryDb Float)
      → OutputsKept db (insert_metric is_finite float_eq sha256 m db).1
  unfolding insert_metric
  insert_metric-OutputsKept m db =
      elim (Bool-cases (
        is_some (select (same_metric is_finite float_eq sha256 m) db.metrics)
        || not (is_some (find_run m.run_id db)))) [
          | inl refused ↦ rw (refused) (OutputsKept-refl db)
          | inr added ↦ rw (added) (metric-OutputsKept db m)
        ]

  pub insert_artifact-OutputsKept :
      (a : ArtifactRow) (db : RegistryDb Float)
      → OutputsKept db (insert_artifact is_finite float_eq sha256 a db).1
  unfolding insert_artifact
  insert_artifact-OutputsKept a db =
      elim (Bool-cases (
        is_some (select (same_artifact a) db.artifacts)
        || a.schema_version == 0
        || not (is_some (find_run a.run_id db)))) [
          | inl refused ↦ rw (refused) (OutputsKept-refl db)
          | inr added ↦ rw (added) (artifact-OutputsKept db a)
        ]
