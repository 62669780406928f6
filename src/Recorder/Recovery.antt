-- ===== src/Recorder/Recovery.antt =====
-- `recover_recorder_artifacts` and `_recover_orphan` of data/writer.py: temporary files, files that the
-- manifest has in flight, and files that it does not have.
use binance_algo.Base.{
  ℕ, String, Bool, Option, none, some, List, [], ◌∷◌, map, Result, ok, err, ◌&&◌, ◌||◌, ◌+◌, not,
  str_eq, if◌then◌else◌, contains, length,
}
use binance_algo.Transaction.{
  Exec, pure, raise, gets, modify, raise_if, or_raise, try_except, ◌>>=◌, ◌>>◌,
}
use binance_algo.Manifest.{DataFileRecord, downloading, downloaded, quarantined, file_status_eq}
use binance_algo.StateStore.Schema.{StateDb}
use binance_algo.StateStore.Files.{
  register_data_file, transition_data_file, validate_stream_file_with_checkpoint,
}
use binance_algo.StateStore.Listing.{list_data_files, every_file}
use binance_algo.Recorder.Flush.{
  FlushError, FlushAction, Partition, Clock, download, validate, in_store, registered,
}
use binance_algo.Recorder.Inspection.{
  Frame, Inspected, InspectError, Checkpoint, inspect, checkpoint_text, stream_key_of, first_time,
  last_time, name_of,
}

-- The files below the root of the streams, in the order of `sorted`, and those in quarantine.
pub record Disk : Type 0 where
  pub temporaries : List String
  pub parquets : List String
  pub in_quarantine : List String

-- StreamWriterStats: the fields of recovery.
pub record RecoveryStats : Type 0 where
  pub temporary_files_quarantined : ℕ
  pub orphan_files_recovered : ℕ
  pub inflight_files_recovered : ℕ
  pub invalid_files_quarantined : ℕ

pub record Recovery : Type 0 where
  pub db : StateDb
  pub disk : Disk
  pub stats : RecoveryStats

-- What recovery raises: an error of the state store, an ArchiveError of `sha256_file`, a RecorderError
-- or an OSError where a file cannot be moved; and what it catches, the error of an inspection.
pub data RecoveryError : Type 0 where
  manifest_error : FlushError → RecoveryError
  hash_error temporary_not_moved not_moved : String → RecoveryError
  inspect_error : InspectError → RecoveryError

abbrev pub Action : Type 0 → Type 0
Action = Exec Recovery RecoveryError

abbrev pub from_manifest :
    {A : Type 0} → Recovery → Result FlushError A × StateDb → Result RecoveryError A × Recovery
from_manifest s (ok a, db) = (ok a, record s { db = db })
from_manifest s (err e, db) = (err (manifest_error e), record s { db = db })

-- An action on the manifest.
abbrev pub in_manifest : {A : Type 0} → FlushAction A → Action A
in_manifest m s = from_manifest s (m s.db)

abbrev pub inspected : Result InspectError Inspected → Action Inspected
inspected (ok i) = pure i
inspected (err e) = raise (inspect_error e)

-- What recovery uses of the file system, and the values that it computes: `parquet.parts`, the reader
-- of Parquet, `sha256_file` (`none` where it raises), whether `os.replace` moves a file, the id and the
-- clock readings of a file, the texts of errors and of checkpoints.
pub record Files : Type 0 where
  pub parts : String → List String
  pub read : String → Option Frame
  pub sha256_file : String → Option String
  pub moves : String → Bool
  pub file_id : String → String
  pub now : String → ℕ
  pub clock : String → Clock
  pub message : InspectError → String
  pub dumps : Checkpoint → String

abbrev pub count_temporary : RecoveryStats → RecoveryStats
count_temporary s = record s { temporary_files_quarantined = s.temporary_files_quarantined + 1 }

abbrev pub count_orphan : RecoveryStats → RecoveryStats
count_orphan s = record s { orphan_files_recovered = s.orphan_files_recovered + 1 }

abbrev pub count_inflight : RecoveryStats → RecoveryStats
count_inflight s = record s { inflight_files_recovered = s.inflight_files_recovered + 1 }

abbrev pub count_invalid : RecoveryStats → RecoveryStats
count_invalid s = record s { invalid_files_quarantined = s.invalid_files_quarantined + 1 }

abbrev pub count : (RecoveryStats → RecoveryStats) → Action (Unit {0})
count f = modify (λ s. record s { stats = f s.stats })

abbrev pub without : String → List String → List String
without p [] = []
without p (q ∷ qs) = if str_eq q p then without p qs else q ∷ without p qs

module _ (files : Files) where
  abbrev set_aside : String → Disk → Disk
  set_aside p d = record {
    temporaries = without p d.temporaries;
    parquets = without p d.parquets;
    in_quarantine = p ∷ d.in_quarantine;
  }

  -- `os.replace(path, destination)`
  abbrev pub move_aside : String → RecoveryError → Action (Unit {0})
  move_aside p e = do
    raise_if (not (files.moves p)) e
    modify (λ s. record s { disk = set_aside p s.disk })

  -- The loop over the temporary files.
  unfoldable pub quarantine_temporaries : List String → Action (Unit {0})
  quarantine_temporaries [] = pure tt
  quarantine_temporaries (p ∷ ps) = do
    move_aside p (temporary_not_moved p)
    count count_temporary
    quarantine_temporaries ps

  -- The file that the checks and the state store are given.
  abbrev pub partition_of : String → String → String → Inspected → Partition
  partition_of file_id path checksum i = record {
    file_id = file_id;
    event_type = name_of i.event_type;
    symbol = i.symbol;
    start_time_ms = first_time i.first i.rest;
    end_time_ms = last_time i.first i.rest;
    target = path;
    ingestion_run_id = i.run_id;
    timestamp = files.now path;
    checksum = checksum;
    height = length i.rest + 1;
    stream_key = stream_key_of i;
    checkpoint_json = checkpoint_text files.dumps i file_id;
  }

  abbrev pub checksum_of : String → Action String
  checksum_of path = or_raise (files.sha256_file path) (hash_error path)

  -- What follows the inspection of a file in flight.
  abbrev pub settle_file : DataFileRecord → Result InspectError Inspected → Action (Unit {0})
  settle_file r (err e) = do
    in_manifest (
        in_store (
          transition_data_file r.file_id quarantined none none (some (files.message e))
            (files.clock r.file_id).failed_at))
    count count_invalid
  settle_file r (ok i) = do
    checksum ← checksum_of r.path
    let p = partition_of r.file_id r.path checksum i
    current ← in_manifest (download p (files.clock r.file_id) r)
    in_manifest (validate p (files.clock r.file_id) current)
    count count_inflight

  -- `record.source != … or record.status not in {DOWNLOADING, DOWNLOADED}`, and its negation.
  unfoldable pub in_flight : DataFileRecord → Bool
  in_flight r =
      str_eq r.source "binance_market_stream"
      && (file_status_eq r.status downloading || file_status_eq r.status downloaded)

  abbrev pub inspect_record : DataFileRecord → Result InspectError Inspected
  inspect_record r =
      inspect files.parts files.read r.path (some r.logical_dataset) (some r.symbol)
        (some r.ingestion_run_id)

  -- One turn of the loop over the records.
  unfoldable pub recover_file : DataFileRecord → Action (Unit {0})
  unfolding in_flight inspect download validate
  recover_file r s =
      if in_flight r && contains r.path s.disk.parquets
      then settle_file r (inspect_record r) s
      else (ok tt, s)

  unfoldable pub recover_inflight : List DataFileRecord → Action (Unit {0})
  unfolding recover_file
  recover_inflight [] = pure tt
  recover_inflight (r ∷ rs) = do recover_file r; recover_inflight rs

  abbrev pub orphan_of : String → String → Inspected → Partition
  orphan_of path checksum i = partition_of (files.file_id path) path checksum i

  -- The calls of the state store for an orphan: its record, its transition, its validation.
  abbrev pub register_orphan : String → Inspected → Action DataFileRecord
  register_orphan path i =
      in_manifest (in_store (register_data_file (registered (orphan_of path "" i))))

  abbrev pub download_orphan : Partition → Clock → Action DataFileRecord
  download_orphan p clock = in_manifest (
      in_store (
        transition_data_file p.file_id downloaded (some p.checksum) (some p.height) none
          clock.downloaded_at))

  abbrev pub validate_orphan : Partition → Clock → Action DataFileRecord
  validate_orphan p clock = in_manifest (
      in_store (
        validate_stream_file_with_checkpoint p.file_id p.checksum p.height p.stream_key
          p.checkpoint_json clock.validated_at clock.checkpoint_at))

  abbrev pub promote_orphan : Partition → Clock → Action (Unit {0})
  promote_orphan p clock = do download_orphan p clock; validate_orphan p clock; pure tt

  abbrev pub store_orphan : String → Inspected → Action (Unit {0})
  store_orphan path i = do
    register_orphan path i
    checksum ← checksum_of path
    promote_orphan (orphan_of path checksum i) (files.clock (files.file_id path))

  -- `_recover_orphan`
  unfoldable pub recover_orphan : String → Action (Unit {0})
  unfolding inspect
  recover_orphan path = do
    i ← inspected (inspect files.parts files.read path none none none)
    store_orphan path i

  -- `except (DataContractError, RecorderError)`: an orphan that fails its inspection.
  abbrev pub set_orphan_aside : String → RecoveryError → Action (Unit {0})
  set_orphan_aside path (inspect_error e) = do move_aside path (not_moved path); count count_invalid
  set_orphan_aside path e = raise e

  abbrev pub adopt : String → Action (Unit {0})
  adopt path = recover_orphan path >>= λ _. count count_orphan

  -- The loop over the Parquet files.
  unfoldable pub recover_orphans : List String → List String → Action (Unit {0})
  unfolding recover_orphan
  recover_orphans manifested [] = pure tt
  recover_orphans manifested (p ∷ ps) =
      let rest = recover_orphans manifested ps in
      if contains p manifested
      then rest
      else (try_except (adopt p) (set_orphan_aside p) >>= λ _. rest)

  abbrev pub with_records : List DataFileRecord → Action (Unit {0})
  with_records records = do
    recover_inflight records
    parquets ← gets (λ s. s.disk.parquets)
    recover_orphans (map (λ (r : DataFileRecord). r.path) records) parquets

  -- `recover_recorder_artifacts`, where the root of the streams exists.
  unfoldable pub recover_recorder_artifacts : Action (Unit {0})
  unfolding quarantine_temporaries recover_inflight recover_orphans list_data_files
  recover_recorder_artifacts = do
    temporaries ← gets (λ s. s.disk.temporaries)
    quarantine_temporaries temporaries
    records ← gets (λ s. list_data_files every_file s.db)
    with_records records
