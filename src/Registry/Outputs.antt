-- ===== src/Registry/Outputs.antt =====
-- The methods of research/experiments/store.py on the outputs of a run: metrics, artifacts, and the
-- completion of the run with both.
use binance_algo.Base.{
  is_empty, ◌++◌, err, ok, not, is_some, ◌||◌, ◌&&◌, if◌then◌else◌, ◌==◌, str_eq, ℕ, String, Bool,
  true, false, Option, none, some, List, [], ◌∷◌,
}
use binance_algo.Registry.Schema.{
  disappeared, only_running_completes, unknown_run, metric_conflict, artifact_conflict,
  invalid_metric, completion_incomplete, sqlite_error, MetricRow, ArtifactRow, ExperimentRunRecord,
}
use binance_algo.Registry.Runs.{has_run_id, find_run, timestamp_or, Action}
use binance_algo.Table.{update, select}
use binance_algo.Transaction.{modify, or_raise, gets, raise_if, transaction, ◌>>=◌, ◌>>◌, pure}
use binance_algo.Registry.Status.{run_is_running, RunStatus, scope_eq}

-- `fold IS ?`
abbrev pub option_eq : Option ℕ → Option ℕ → Bool
option_eq none none = true
option_eq (some a) (some b) = a == b
option_eq _ _ = false

-- `regime IS ?`
abbrev pub option_str_eq : Option String → Option String → Bool
option_str_eq none none = true
option_str_eq (some a) (some b) = str_eq a b
option_str_eq _ _ = false

-- `COALESCE(regime, '')`
abbrev regime_or_empty : Option String → String
regime_or_empty none = ""
regime_or_empty (some s) = s

-- ResearchArtifactRecord, with what `now_ms()` returns when its row is inserted.
pub record ArtifactOutput : Type 0 where
  pub artifact_type : String
  pub path : String
  pub checksum_sha256 : String
  pub row_count : Option ℕ
  pub size_bytes : ℕ
  pub schema_version : ℕ
  pub inserted_at_ms : ℕ

abbrev pub has_artifact_id : String → ArtifactRow → Bool
has_artifact_id k a = str_eq a.artifact_id k

-- The primary key, and `UNIQUE(run_id, artifact_type, path)`.
abbrev pub same_artifact : ArtifactRow → ArtifactRow → Bool
same_artifact a b =
    str_eq b.artifact_id a.artifact_id
    || (str_eq b.run_id a.run_id && str_eq b.artifact_type a.artifact_type && str_eq b.path a.path)

-- What `record_artifact` compares; not the times.
unfoldable pub artifact_eq : ArtifactRow → ArtifactRow → Bool
artifact_eq a b =
    str_eq a.run_id b.run_id
    && str_eq a.artifact_type b.artifact_type
    && str_eq a.path b.path
    && str_eq a.checksum_sha256 b.checksum_sha256
    && option_eq a.row_count b.row_count
    && a.size_bytes == b.size_bytes
    && a.schema_version == b.schema_version

-- `UPDATE research_experiment_runs SET …` of `complete_run`
abbrev pub run_completed : String → ℕ → ExperimentRunRecord → ExperimentRunRecord
run_completed digest now r =
    let start = timestamp_or r.started_at_ms now in
    record r {
      status = RunStatus.succeeded;
      finished_at_ms = some now;
      runtime = some (start, now);
      result_digest = some digest;
      error_type = none;
      error_message = none;
      traceback_path = none;
    }

-- `is_finite` is `math.isfinite`, `float_eq` is `==` on float64, and `sha256` is the digest of its
-- arguments joined by the unit separator.
module _ {Float : Type 0} (is_finite : Float → Bool) (float_eq : Float → Float → Bool)
    (sha256 : List String → String) where
  -- The identity of a metric is the unique index idx_research_metrics_identity.
  abbrev pub same_metric : MetricRow Float → MetricRow Float → Bool
  same_metric m n =
      str_eq n.run_id m.run_id
      && scope_eq n.scope m.scope
      && option_eq n.fold m.fold
      && str_eq (regime_or_empty n.regime) (regime_or_empty m.regime)
      && str_eq n.metric_name m.metric_name

  -- The clause of the `SELECT` in `record_metric`.
  abbrev pub reads_metric : MetricRow Float → MetricRow Float → Bool
  reads_metric m n =
      str_eq n.run_id m.run_id
      && scope_eq n.scope m.scope
      && option_eq n.fold m.fold
      && option_str_eq n.regime m.regime
      && str_eq n.metric_name m.metric_name

  abbrev pub invalid : MetricRow Float → Bool
  invalid m = str_eq m.metric_name "" || not (is_finite m.metric_value)

  -- `INSERT`: a row that breaks a uniqueness constraint, or the foreign key, raises.
  unfoldable pub insert_metric : MetricRow Float → Action Float (Unit {0})
  insert_metric m db =
      if is_some (select (same_metric m) db.metrics) || not (is_some (find_run m.run_id db))
      then (err sqlite_error, db)
      else (ok tt, record db { metrics = db.metrics ++ (m ∷ []) })

  -- `INSERT OR IGNORE`: a row that breaks a uniqueness constraint is dropped, and one that breaks
  -- the foreign key raises.
  unfoldable pub insert_or_ignore_metric : MetricRow Float → Action Float (Unit {0})
  insert_or_ignore_metric m db =
      if is_some (select (same_metric m) db.metrics)
      then (ok tt, db)
      else if not (is_some (find_run m.run_id db))
      then (err sqlite_error, db)
      else (ok tt, record db { metrics = db.metrics ++ (m ∷ []) })

  abbrev pub metric_agrees : MetricRow Float → Option (MetricRow Float) → Bool
  metric_agrees m none = false
  metric_agrees m (some n) =
      float_eq n.metric_value m.metric_value && str_eq n.metadata_json m.metadata_json

  unfoldable pub record_metric : MetricRow Float → Action Float (Unit {0})
  record_metric m = do
    raise_if (invalid m) invalid_metric
    row ←
        transaction (do insert_or_ignore_metric m; gets (λ db. select (reads_metric m) db.metrics))
    raise_if (not (metric_agrees m row)) (metric_conflict m.run_id)

  abbrev pub artifact_row : String → ArtifactOutput → ArtifactRow
  artifact_row k a = record {
    artifact_id = sha256 (k ∷ a.artifact_type ∷ a.path ∷ a.checksum_sha256 ∷ []);
    run_id = k;
    artifact_type = a.artifact_type;
    path = a.path;
    checksum_sha256 = a.checksum_sha256;
    row_count = a.row_count;
    size_bytes = a.size_bytes;
    schema_version = a.schema_version;
    created_at_ms = a.inserted_at_ms;
  }

  -- `CHECK (schema_version >= 1)` is one more constraint of the table.
  unfoldable pub insert_artifact : ArtifactRow → Action Float (Unit {0})
  insert_artifact a db =
      if is_some (select (same_artifact a) db.artifacts)
        || a.schema_version == 0
        || not (is_some (find_run a.run_id db))
      then (err sqlite_error, db)
      else (ok tt, record db { artifacts = db.artifacts ++ (a ∷ []) })

  unfoldable pub insert_or_ignore_artifact : ArtifactRow → Action Float (Unit {0})
  insert_or_ignore_artifact a db =
      if is_some (select (same_artifact a) db.artifacts) || a.schema_version == 0
      then (ok tt, db)
      else if not (is_some (find_run a.run_id db))
      then (err sqlite_error, db)
      else (ok tt, record db { artifacts = db.artifacts ++ (a ∷ []) })

  abbrev artifact_agrees : ArtifactRow → Option ArtifactRow → Bool
  artifact_agrees a none = false
  artifact_agrees a (some b) = artifact_eq b a

  unfoldable pub record_artifact : String → ArtifactOutput → Action Float String
  record_artifact k output = do
    let a = artifact_row k output
    row ← transaction (do
      insert_or_ignore_artifact a
      gets (λ db. select (has_artifact_id a.artifact_id) db.artifacts))
    raise_if (not (artifact_agrees a row)) (artifact_conflict a.artifact_id)
    pure a.artifact_id

  unfoldable pub insert_metrics : String → List (MetricRow Float) → Action Float (Unit {0})
  insert_metrics k [] = pure tt
  insert_metrics k (m ∷ ms) = do
    raise_if (invalid m) invalid_metric
    insert_metric (record m { run_id = k })
    insert_metrics k ms

  unfoldable pub insert_artifacts : String → List ArtifactOutput → Action Float (Unit {0})
  insert_artifacts k [] = pure tt
  insert_artifacts k (a ∷ rest) = do insert_artifact (artifact_row k a); insert_artifacts k rest

  unfoldable pub complete_run :
      String
      → String
      → List (MetricRow Float)
      → List ArtifactOutput
      → ℕ
      → Action Float ExperimentRunRecord
  complete_run k digest metrics artifacts now = do
    raise_if (str_eq digest "" || is_empty metrics || is_empty artifacts) completion_incomplete
    updated ← transaction (do
      row ← gets (find_run k)
      r ← or_raise row (unknown_run k)
      raise_if (not (run_is_running r.status)) (only_running_completes r.status)
      insert_metrics k metrics
      insert_artifacts k artifacts
      modify (λ db. record db { runs = update (has_run_id k) (run_completed digest now) db.runs })
      gets (find_run k))
    or_raise updated (disappeared k)
