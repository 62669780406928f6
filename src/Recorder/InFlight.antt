-- ===== src/Recorder/InFlight.antt =====
-- The loop of `recover_recorder_artifacts` in data/writer.py over the files that the manifest has in
-- flight.
use binance_algo.Base.{
  subst, String, Bool, true, false, none, some, List, Result, ok, err, ◌&&◌, ◌+◌, str_eq, eq_refl,
  contains, length, ◌≡◌, ◌⊎◌, refl, arith, inl, inr, sym, ap, ◌∙◌, Bool-cases,
}
use binance_algo.Recorder.Recovery.{
  hash_error, from_manifest, Action, count_inflight, count_invalid, Recovery, Files, settle_file,
  recover_file, in_flight, inspect_record, partition_of, checksum_of, in_manifest, count,
}
use binance_algo.Recorder.Flush.{FlushAction, Partition, Clock, download, validate}
use binance_algo.Transaction.Moves.{bind-eq}
use binance_algo.Transaction.{◌>>=◌, ◌>>◌, or_raise}
use binance_algo.Manifest.{
  DataFileRecord, downloading, downloaded, quarantined, validated, allowed_file_transition,
}
use binance_algo.StateStore.Schema.{StateDb}
use binance_algo.StateStore.Files.{find_file, transitioned}
use binance_algo.StateStore.FileMachine.{permitted_transition, find_file-update, after_transition}
use binance_algo.Recorder.Inspection.{Inspected, InspectError}
use binance_algo.Recorder.Settled.{finishes}

pub in_manifest-eq :
    {A : Type 0} (m : FlushAction A) (s : Recovery) {a : A} {after : StateDb}
    → m s.db ≡ (ok a, after)
    → in_manifest m s ≡ (ok a, record s { db = after })
in_manifest-eq m s e = ap (from_manifest s) e

-- The calls of the state store for a file that passes its inspection.
finish_file : Partition → Clock → DataFileRecord → Action (Unit {0})
finish_file p clock r = do
  current ← in_manifest (download p clock r)
  in_manifest (validate p clock current)
  count count_inflight

finish_file-eq :
    (p : Partition) (clock : Clock) (r : DataFileRecord) (s : Recovery)
    {current r' : DataFileRecord} {middle after : StateDb}
    → download p clock r s.db ≡ (ok current, middle)
    → validate p clock current middle ≡ (ok r', after)
    → finish_file p clock r s ≡ (ok tt, record s { db = after; stats = count_inflight s.stats })
unfolding finish_file
finish_file-eq p clock r s {current} {r'} {middle} e e' =
    let t : Recovery = record s { db = middle } in
    bind-eq (in_manifest (download p clock r))
      (λ x. in_manifest (validate p clock x) >> count count_inflight) s
      (in_manifest-eq (download p clock r) s e)
    ∙ bind-eq (in_manifest (validate p clock current)) (λ _. count count_inflight) t
        (in_manifest-eq (validate p clock current) t e')

module _ (files : Files) where
  -- VALIDATED with the checksum and the height of its content, or QUARANTINED with the error.
  abbrev pub Outcome : String → Result InspectError Inspected → DataFileRecord → Type 0
  Outcome path (ok i) file =
      (file.status ≡ validated)
      × (file.checksum ≡ files.sha256_file path)
      × (file.row_count ≡ some (length i.rest + 1))
  Outcome path (err e) file =
      (file.status ≡ quarantined) × (file.last_error ≡ some (files.message e))

  pub record IsSettled (r : DataFileRecord) (result : Result InspectError Inspected)
      (s after : Recovery) : Type 0 where
    pub file : DataFileRecord
    pub found : find_file r.file_id after.db ≡ some file
    pub outcome : Outcome r.path result file
    pub others : (j : String) → str_eq r.file_id j ≡ false → find_file j after.db ≡ find_file j s.db
    pub same_disk : after.disk ≡ s.disk
    pub counted :
        after.stats.inflight_files_recovered + after.stats.invalid_files_quarantined
        ≡ s.stats.inflight_files_recovered + s.stats.invalid_files_quarantined + 1

  settle_file-IsSettled :
      (r : DataFileRecord) {r₀ : DataFileRecord} (c : String)
      (result : Result InspectError Inspected) (s : Recovery)
      → find_file r.file_id s.db ≡ some r₀
      → r₀.status ≡ r.status
      → (r₀.status ≡ downloading) ⊎ (r₀.status ≡ downloaded)
      → files.sha256_file r.path ≡ some c
      → (after : Recovery) × (settle_file files r result s ≡ (ok tt, after))
        × IsSettled r result s after
  unfolding allowed_file_transition finish_file
  settle_file-IsSettled r {r₀} c (err e) s found same going hashed =
      let k = r.file_id in
      let at = (files.clock k).failed_at in
      let m = some (files.message e) in
      let moved =
        permitted_transition k quarantined none none m at s.db found
          (inr (ground (arith, going))) in
      let last = λ (j : String). find_file-update k j quarantined none none m at s.db.data_files in
      let file = transitioned quarantined none none m at r₀ in
      let s' : Recovery = record s {
        db = after_transition k quarantined none none m at s.db;
        stats = count_invalid s.stats;
      } in
      (
        s',
        ground (arith, moved),
        record {
          file = file;
          found = ground (arith, eq_refl k, found, last k);
          outcome = (refl, refl);
          others = λ j apart. ground (arith, apart, last j);
          same_disk = refl;
          counted = omega arith;
        },
      )
  settle_file-IsSettled r {r₀} c (ok i) s found same going hashed =
      let p = partition_of files r.file_id r.path c i in
      let (middle, current, after, r', _, e, e', x) =
        finishes p (files.clock r.file_id) r s.db found same going in
      let s' : Recovery = record s { db = after; stats = count_inflight s.stats } in
      (
        s',
        bind-eq (checksum_of files r.path)
              (λ x. finish_file (partition_of files r.file_id r.path x i) (files.clock r.file_id) r)
              s (ap (λ o. or_raise o (hash_error r.path) s) hashed)
            ∙ finish_file-eq p (files.clock r.file_id) r s e e',
        record {
          file = x.file;
          found = x.found;
          outcome = (x.is_validated, x.same_checksum ∙ sym hashed, x.same_count);
          others = x.others;
          same_disk = refl;
          counted = omega arith;
        },
      )

  abbrev is_due : List String → DataFileRecord → Bool
  is_due parquets r = in_flight files r && contains r.path parquets

  -- A file whose Parquet file exists is settled, and any other is left as it was.
  abbrev pub Recovered : Recovery → Recovery → DataFileRecord → Type 0
  Recovered s after r =
      (is_due s.disk.parquets r ≡ true
        → (file : DataFileRecord) × (find_file r.file_id after.db ≡ some file)
          × Outcome r.path (inspect_record files r) file)
      × (is_due s.disk.parquets r ≡ false → find_file r.file_id after.db ≡ find_file r.file_id s.db)

  pub record IsRecovered (r : DataFileRecord) (s after : Recovery) : Type 0 where
    pub recovered : Recovered s after r
    pub others : (j : String) → str_eq r.file_id j ≡ false → find_file j after.db ≡ find_file j s.db
    pub same_disk : after.disk ≡ s.disk

  going_on :
      (r : DataFileRecord)
      → in_flight files r ≡ true
      → (r.status ≡ downloading) ⊎ (r.status ≡ downloaded)
  unfolding in_flight
  going_on r h = ground (arith, h)

  pub recover_file-IsRecovered :
      (r : DataFileRecord) {r₀ : DataFileRecord} (c : String) (s : Recovery)
      → find_file r.file_id s.db ≡ some r₀
      → r₀.status ≡ r.status
      → files.sha256_file r.path ≡ some c
      → (after : Recovery) × (recover_file files r s ≡ (ok tt, after)) × IsRecovered r s after
  unfolding recover_file
  recover_file-IsRecovered r c s found same hashed = elim (Bool-cases (is_due s.disk.parquets r)) [
    | inl due ↦
        let going = going_on r (ground (arith, due)) in
        let (after, e, x) =
          settle_file-IsSettled r c (inspect_record files r) s found same
            (subst (λ t. (t ≡ downloading) ⊎ (t ≡ downloaded)) (sym same) going) hashed in
        (
          after,
          rw due e,
          record {
            recovered = (λ _. (x.file, x.found, x.outcome), λ h. ground (arith, h, due));
            others = x.others;
            same_disk = x.same_disk;
          },
        )
    | inr other ↦ (
      s,
      rw other refl,
      record {
        recovered = (λ h. ground (arith, h, other), λ _. refl);
        others = λ j _. refl;
        same_disk = refl;
      },
    )
  ]
