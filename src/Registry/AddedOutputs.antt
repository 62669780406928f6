-- ===== src/Registry/AddedOutputs.antt =====
-- The part of `complete_run` of research/experiments/store.py that adds the outputs to the tables.
use binance_algo.Base.{
  sym, map, ◌++◌, length, ◌+◌, eq_refl, arith, ◌==◌, ok, ◌≡◌, refl, String, Bool, false, List, [],
  ◌∷◌,
}
use mathlib.Core.List.{append_assoc, append-nil}
use binance_algo.Registry.Outputs.{
  artifact_row, ArtifactOutput, insert_artifacts, insert_metric, insert_artifact, insert_metrics,
}
use binance_algo.Registry.Runs.{Action, artifact_of, metric_of, metric_count, artifact_count}
use binance_algo.Registry.Schema.{RegistryDb, ArtifactRow, MetricRow}
use binance_algo.Transaction.{◌>>◌}
use binance_algo.Registry.RunGrowth.{
  select_all-grows, Grows-trans, insert_artifact-Grows, insert_metric-Grows, Grows-refl, Grows,
}

module _ {Float : Type 0} (is_finite : Float → Bool) (float_eq : Float → Float → Bool)
    (sha256 : List String → String) where
  insert_metrics-Grows :
      (k : String) (ms : List (MetricRow Float)) (db : RegistryDb Float)
      → Grows db (insert_metrics is_finite float_eq sha256 k ms db).1
  unfolding insert_metrics
  insert_metrics-Grows k [] db = Grows-refl db
  insert_metrics-Grows k (m ∷ ms) db =
      let m' = record m { run_id = k } in
      let db' = (insert_metric is_finite float_eq sha256 m' db).1 in
      let one = insert_metric-Grows is_finite float_eq sha256 m' db in
      let more = insert_metrics-Grows k ms db' in
      ground (
        arith,
        Grows-refl db,
        one,
        Grows-trans db db' (insert_metrics is_finite float_eq sha256 k ms db').1 one more,
      )

  insert_artifacts-Grows :
      (k : String) (outputs : List ArtifactOutput) (db : RegistryDb Float)
      → Grows db (insert_artifacts is_finite float_eq sha256 k outputs db).1
  unfolding insert_artifacts
  insert_artifacts-Grows k [] db = Grows-refl db
  insert_artifacts-Grows k (a ∷ rest) db =
      let row = artifact_row is_finite float_eq sha256 k a in
      let db' = (insert_artifact is_finite float_eq sha256 row db).1 in
      let one = insert_artifact-Grows is_finite float_eq sha256 row db in
      let more = insert_artifacts-Grows k rest db' in
      ground (
        arith,
        one,
        Grows-trans db db' (insert_artifacts is_finite float_eq sha256 k rest db').1 one more,
      )

  insert_metric-adds :
      (m : MetricRow Float) (db : RegistryDb Float)
      → (insert_metric is_finite float_eq sha256 m db).0 ≡ ok tt
      → (metric_count m.run_id (insert_metric is_finite float_eq sha256 m db).1 == 0) ≡ false
  unfolding insert_metric
  insert_metric-adds m db done =
      ground (arith, eq_refl m.run_id, select_all-grows (metric_of m.run_id) db.metrics m)

  insert_artifact-adds :
      (a : ArtifactRow) (db : RegistryDb Float)
      → (insert_artifact is_finite float_eq sha256 a db).0 ≡ ok tt
      → (artifact_count a.run_id (insert_artifact is_finite float_eq sha256 a db).1 == 0) ≡ false
  unfolding insert_artifact
  insert_artifact-adds a db done =
      ground (arith, eq_refl a.run_id, select_all-grows (artifact_of a.run_id) db.artifacts a)

  insert_metrics-adds :
      (k : String) (m : MetricRow Float) (ms : List (MetricRow Float)) (db : RegistryDb Float)
      → (insert_metrics is_finite float_eq sha256 k (m ∷ ms) db).0 ≡ ok tt
      → (metric_count k (insert_metrics is_finite float_eq sha256 k (m ∷ ms) db).1 == 0) ≡ false
  unfolding insert_metrics
  insert_metrics-adds k m ms db done =
      let m' = record m { run_id = k } in
      let db' = (insert_metric is_finite float_eq sha256 m' db).1 in
      ground (arith, insert_metric-adds m' db, (insert_metrics-Grows k ms db').1 k)

  insert_artifacts-adds :
      (k : String) (a : ArtifactOutput) (rest : List ArtifactOutput) (db : RegistryDb Float)
      → (insert_artifacts is_finite float_eq sha256 k (a ∷ rest) db).0 ≡ ok tt
      → (artifact_count k (insert_artifacts is_finite float_eq sha256 k (a ∷ rest) db).1 == 0)
        ≡ false
  unfolding insert_artifacts
  insert_artifacts-adds k a rest db done =
      let row = artifact_row is_finite float_eq sha256 k a in
      let db' = (insert_artifact is_finite float_eq sha256 row db).1 in
      ground (arith, insert_artifact-adds row db, (insert_artifacts-Grows k rest db').2 k)

  -- The part of `complete_run` inside the transaction that adds the outputs.
  abbrev pub outputs_added :
      String → List (MetricRow Float) → List ArtifactOutput → Action Float (Unit {0})
  outputs_added k ms outputs =
      insert_metrics is_finite float_eq sha256 k ms
      >> insert_artifacts is_finite float_eq sha256 k outputs

  pub outputs_added-Grows :
      (k : String) (ms : List (MetricRow Float)) (outputs : List ArtifactOutput)
      (db : RegistryDb Float)
      → Grows db (outputs_added k ms outputs db).1
  outputs_added-Grows k ms outputs db =
      let db' = (insert_metrics is_finite float_eq sha256 k ms db).1 in
      let one = insert_metrics-Grows k ms db in
      let more = insert_artifacts-Grows k outputs db' in
      ground (
        arith,
        one,
        Grows-trans db db' (insert_artifacts is_finite float_eq sha256 k outputs db').1 one more,
      )

  pub outputs_added-adds :
      (k : String) (m : MetricRow Float) (ms : List (MetricRow Float)) (a : ArtifactOutput)
      (rest : List ArtifactOutput) (db : RegistryDb Float)
      → (outputs_added k (m ∷ ms) (a ∷ rest) db).0 ≡ ok tt
      → ((metric_count k (outputs_added k (m ∷ ms) (a ∷ rest) db).1 == 0) ≡ false)
        × ((artifact_count k (outputs_added k (m ∷ ms) (a ∷ rest) db).1 == 0) ≡ false)
  outputs_added-adds k m ms a rest db done =
      let db' = (insert_metrics is_finite float_eq sha256 k (m ∷ ms) db).1 in
      let metrics = insert_metrics-adds k m ms db in
      let more = insert_artifacts-Grows k (a ∷ rest) db' in
      let artifacts = insert_artifacts-adds k a rest db' in
      ground (arith, metrics, artifacts, more.1 k)

  insert_metrics-counts :
      (k : String) (ms : List (MetricRow Float)) (db : RegistryDb Float)
      → (insert_metrics is_finite float_eq sha256 k ms db).0 ≡ ok tt
      → (metric_count k (insert_metrics is_finite float_eq sha256 k ms db).1
          ≡ metric_count k db + length ms)
        × ((insert_metrics is_finite float_eq sha256 k ms db).1.artifacts ≡ db.artifacts)
  unfolding insert_metrics insert_metric
  insert_metrics-counts k [] db done = (ground arith, refl)
  insert_metrics-counts k (m ∷ ms) db done =
      let m' = record m { run_id = k } in
      let db' = (insert_metric is_finite float_eq sha256 m' db).1 in
      ground (
        arith,
        eq_refl k,
        select_all-grows (metric_of k) db.metrics m',
        insert_metrics-counts k ms db',
      )

  insert_artifacts-counts :
      (k : String) (outputs : List ArtifactOutput) (db : RegistryDb Float)
      → (insert_artifacts is_finite float_eq sha256 k outputs db).0 ≡ ok tt
      → (artifact_count k (insert_artifacts is_finite float_eq sha256 k outputs db).1
          ≡ artifact_count k db + length outputs)
        × ((insert_artifacts is_finite float_eq sha256 k outputs db).1.metrics ≡ db.metrics)
  unfolding insert_artifacts insert_artifact
  insert_artifacts-counts k [] db done = (ground arith, refl)
  insert_artifacts-counts k (a ∷ rest) db done =
      let row = artifact_row is_finite float_eq sha256 k a in
      let db' = (insert_artifact is_finite float_eq sha256 row db).1 in
      ground (
        arith,
        eq_refl k,
        select_all-grows (artifact_of k) db.artifacts row,
        insert_artifacts-counts k rest db',
      )

  insert_metrics-rows :
      (k : String) (ms : List (MetricRow Float)) (db : RegistryDb Float)
      → (insert_metrics is_finite float_eq sha256 k ms db).0 ≡ ok tt
      → ((insert_metrics is_finite float_eq sha256 k ms db).1.metrics
          ≡ db.metrics ++ map (λ (m : MetricRow Float). record m { run_id = k }) ms)
        × ((insert_metrics is_finite float_eq sha256 k ms db).1.artifacts ≡ db.artifacts)
  unfolding insert_metrics insert_metric
  insert_metrics-rows k [] db done = (sym (append-nil db.metrics), refl)
  insert_metrics-rows k (m ∷ ms) db done =
      let m' = record m { run_id = k } in
      let db' = (insert_metric is_finite float_eq sha256 m' db).1 in
      ground (
        arith,
        append_assoc db.metrics (m' ∷ [])
            (map (λ (n : MetricRow Float). record n { run_id = k }) ms),
        insert_metrics-rows k ms db',
      )

  -- The row of an artifact, field by field.
  abbrev pub stored_artifact : String → ArtifactOutput → ArtifactRow
  stored_artifact k a = record {
    artifact_id = sha256 (k ∷ a.artifact_type ∷ a.path ∷ a.checksum_sha256 ∷ []);
    run_id = k;
    artifact_type = a.artifact_type;
    path = a.path;
    checksum_sha256 = a.checksum_sha256;
    row_count = a.row_count;
    size_bytes = a.size_bytes;
    schema_version = a.schema_version;
    created_at_ms = a.inserted_at_ms;
  }

  insert_artifacts-rows :
      (k : String) (outputs : List ArtifactOutput) (db : RegistryDb Float)
      → (insert_artifacts is_finite float_eq sha256 k outputs db).0 ≡ ok tt
      → ((insert_artifacts is_finite float_eq sha256 k outputs db).1.artifacts
          ≡ db.artifacts ++ map (stored_artifact k) outputs)
        × ((insert_artifacts is_finite float_eq sha256 k outputs db).1.metrics ≡ db.metrics)
  unfolding insert_artifacts insert_artifact
  insert_artifacts-rows k [] db done = (sym (append-nil db.artifacts), refl)
  insert_artifacts-rows k (a ∷ rest) db done =
      let row = artifact_row is_finite float_eq sha256 k a in
      let db' = (insert_artifact is_finite float_eq sha256 row db).1 in
      ground (
        arith,
        append_assoc db.artifacts (row ∷ []) (map (stored_artifact k) rest),
        insert_artifacts-rows k rest db',
      )

  pub outputs_added-rows :
      (k : String) (ms : List (MetricRow Float)) (outputs : List ArtifactOutput)
      (db : RegistryDb Float)
      → (outputs_added k ms outputs db).0 ≡ ok tt
      → ((outputs_added k ms outputs db).1.metrics
          ≡ db.metrics ++ map (λ (m : MetricRow Float). record m { run_id = k }) ms)
        × ((outputs_added k ms outputs db).1.artifacts
            ≡ db.artifacts ++ map (stored_artifact k) outputs)
  outputs_added-rows k ms outputs db done =
      let db' = (insert_metrics is_finite float_eq sha256 k ms db).1 in
      ground (arith, insert_metrics-rows k ms db, insert_artifacts-rows k outputs db')
