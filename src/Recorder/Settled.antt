-- ===== src/Recorder/Settled.antt =====
-- What recovery in data/writer.py does to the files that the manifest has in flight.
use binance_algo.Base.{
  String, false, none, some, ok, str_eq, eq_refl, ◌≡◌, ◌⊎◌, refl, arith, inl, inr, sym, ◌∙◌,
}
use binance_algo.Manifest.{
  DataFileRecord, downloading, downloaded, validated, allowed_file_transition,
}
use binance_algo.StateStore.Schema.{StateDb}
use binance_algo.StateStore.Files.{find_file, data_file_from_row, transitioned, validation_refused}
use binance_algo.StateStore.FileMachine.{permitted_transition, find_file-update, after_transition}
use binance_algo.StateStore.Writes.{accepted_validation, after_validation}
use binance_algo.Recorder.Flush.{Partition, Clock, download, validate}

-- The manifest after a change of one file.
pub record IsFinished (p : Partition) (db after : StateDb) : Type 0 where
  pub file : DataFileRecord
  pub found : find_file p.file_id after ≡ some file
  pub is_validated : file.status ≡ validated
  pub same_checksum : file.checksum ≡ some p.checksum
  pub same_count : file.row_count ≡ some p.height
  pub others : (j : String) → str_eq p.file_id j ≡ false → find_file j after ≡ find_file j db

module _ (p : Partition) (clock : Clock) where
  -- A file that is DOWNLOADED is validated.
  validates_downloaded :
      {r : DataFileRecord} (r' : DataFileRecord) (db : StateDb)
      → find_file p.file_id db ≡ some r
      → r.status ≡ downloaded
      → r'.status ≡ downloaded
      → (after : StateDb) × (r'' : DataFileRecord) × (validate p clock r' db ≡ (ok r'', after))
        × IsFinished p db after
  unfolding validate validation_refused
  validates_downloaded {r} r' db found is is' =
      let k = p.file_id in
      let done =
        accepted_validation k p.checksum p.height p.stream_key p.checkpoint_json clock.validated_at
          clock.checkpoint_at db found (ground (arith, is)) in
      let last = λ (j : String).
        find_file-update k j validated (some p.checksum) (some p.height) none clock.validated_at
          db.data_files in
      let file =
        transitioned validated (some p.checksum) (some p.height) none clock.validated_at r in
      let after =
        after_validation p.file_id p.checksum p.height p.stream_key p.checkpoint_json
          clock.validated_at clock.checkpoint_at db in
      (
        after,
        data_file_from_row file,
        ground (arith, is', done),
        record {
          file = file;
          found = ground (arith, eq_refl k, found, last k);
          is_validated = refl;
          same_checksum = refl;
          same_count = refl;
          others = λ j apart. ground (arith, apart, last j);
        },
      )

  -- A file in flight is downloaded, if it is not yet, and validated.
  pub finishes :
      {r : DataFileRecord} (r' : DataFileRecord) (db : StateDb)
      → find_file p.file_id db ≡ some r
      → r.status ≡ r'.status
      → (r.status ≡ downloading) ⊎ (r.status ≡ downloaded)
      → (middle : StateDb) × (current : DataFileRecord) × (after : StateDb) × (r'' : DataFileRecord)
        × (current.status ≡ downloaded)
        × (download p clock r' db ≡ (ok current, middle))
        × (validate p clock current middle ≡ (ok r'', after))
        × IsFinished p db after
  unfolding download allowed_file_transition
  finishes {r} r' db found same (inl is) =
      let k = p.file_id in
      let moved =
        permitted_transition k downloaded (some p.checksum) (some p.height) none clock.downloaded_at
          db found (inr (ground (arith, is))) in
      let last = λ (j : String).
        find_file-update k j downloaded (some p.checksum) (some p.height) none clock.downloaded_at
          db.data_files in
      let r₁ =
        transitioned downloaded (some p.checksum) (some p.height) none clock.downloaded_at r in
      let middle =
        after_transition k downloaded (some p.checksum) (some p.height) none clock.downloaded_at
          db in
      let there : find_file k middle ≡ some r₁ = ground (arith, eq_refl k, found, last k) in
      let (after, r'', e, x) =
        validates_downloaded {r = r₁} (data_file_from_row r₁) middle there refl refl in
      (
        middle,
        data_file_from_row r₁,
        after,
        r'',
        refl,
        ground (arith, moved, is, same),
        e,
        record {
          file = x.file;
          found = x.found;
          is_validated = x.is_validated;
          same_checksum = x.same_checksum;
          same_count = x.same_count;
          others = λ j apart. x.others j apart ∙ ground (arith, apart, last j);
        },
      )
  finishes r' db found same (inr is) =
      let (after, r'', e, x) = validates_downloaded r' db found is (sym same ∙ is) in
      (db, r', after, r'', sym same ∙ is, ground (arith, same, is), e, x)
