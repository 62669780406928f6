-- ===== src/Recorder/OrphanCalls.antt =====
-- The files that the manifest does not have, and the whole of `recover_recorder_artifacts` of
-- data/writer.py: the state store is written only through its methods.
use binance_algo.Base.{String, none, some, List, [], ◌∷◌, map, contains, refl, inl, inr, Bool-cases}
use binance_algo.Recorder.Recovery.{
  hash_error, register_orphan, validate_orphan, download_orphan, orphan_of, store_orphan,
  promote_orphan, Recovery, Files, count, count_orphan, quarantine_temporaries, checksum_of,
  recover_inflight, recover_orphan, set_orphan_aside, adopt, recover_orphans, with_records,
  recover_recorder_artifacts, inspected,
}
use binance_algo.Transaction.{pure, ◌>>=◌, ◌>>◌, try_except, gets}
use binance_algo.Transaction.Moves.{try_except-Moves}
use binance_algo.Manifest.{DataFileRecord, downloaded}
use binance_algo.StateStore.Files.{
  register_data_file, transition_data_file, validate_stream_file_with_checkpoint,
}
use binance_algo.StateStore.Listing.{list_data_files, every_file}
use binance_algo.StateStore.Ops.{register_file, transition_file, validate_file, call}
use binance_algo.Recorder.Flush.{Partition, Clock, registered}
use binance_algo.Recorder.Calls.{Reaches-refl, Reaches-trans}
use binance_algo.Recorder.Inspection.{Inspected, inspect}
use binance_algo.Recorder.RecoveryCalls.{
  ReachesDb, Quiet, quiet_bind, stored-Quiet, or_raise-Quiet, counted, temporaries-Quiet,
  inflight-Quiet, inspected-Quiet, set_orphan_aside-Quiet,
}

module _ (sha256 : List String → String) (files : Files) where
  promote-Quiet : (p : Partition) (clock : Clock) → Quiet sha256 (promote_orphan files p clock)
  unfolding call
  promote-Quiet p clock =
      quiet_bind sha256 (download_orphan files p clock)
        (λ _. validate_orphan files p clock >> pure tt)
        (stored-Quiet sha256
          (transition_file p.file_id downloaded (some p.checksum) (some p.height) none
            clock.downloaded_at)
          (transition_data_file p.file_id downloaded (some p.checksum) (some p.height) none
            clock.downloaded_at)
          (λ db. refl))
        (λ _.
          quiet_bind sha256 (validate_orphan files p clock) (λ _. pure tt)
            (stored-Quiet sha256
              (validate_file p.file_id p.checksum p.height p.stream_key p.checkpoint_json
                clock.validated_at clock.checkpoint_at)
              (validate_stream_file_with_checkpoint p.file_id p.checksum p.height p.stream_key
                p.checkpoint_json clock.validated_at clock.checkpoint_at)
              (λ db. refl))
            (λ _ s. Reaches-refl sha256 s.db))

  store_orphan-Quiet : (path : String) (i : Inspected) → Quiet sha256 (store_orphan files path i)
  unfolding call
  store_orphan-Quiet path i =
      let promote = λ (c : String).
        promote_orphan files (orphan_of files path c i) (files.clock (files.file_id path)) in
      let r = registered (orphan_of files path "" i) in
      quiet_bind sha256 (register_orphan files path i) (λ _. checksum_of files path >>= promote)
        (stored-Quiet sha256 (register_file r) (register_data_file r) (λ db. refl))
        (λ _.
          quiet_bind sha256 (checksum_of files path) promote
            (or_raise-Quiet sha256 (files.sha256_file path) (hash_error path))
            (λ c. promote-Quiet (orphan_of files path c i) (files.clock (files.file_id path))))

  recover_orphan-Quiet : (path : String) → Quiet sha256 (recover_orphan files path)
  unfolding recover_orphan call
  recover_orphan-Quiet path =
      quiet_bind sha256 (inspected (inspect files.parts files.read path none none none))
        (store_orphan files path)
        (inspected-Quiet sha256 files (inspect files.parts files.read path none none none))
        (store_orphan-Quiet path)

  adopt-Quiet : (path : String) → Quiet sha256 (adopt files path)
  adopt-Quiet path =
      quiet_bind sha256 (recover_orphan files path) (λ _. count count_orphan)
        (recover_orphan-Quiet path) (λ _. counted sha256 count_orphan)

  orphans-Quiet : (manifested ps : List String) → Quiet sha256 (recover_orphans files manifested ps)
  unfolding recover_orphans
  orphans-Quiet manifested [] s = Reaches-refl sha256 s.db
  orphans-Quiet manifested (p ∷ ps) s = elim (Bool-cases (contains p manifested)) [
    | inl there ↦ rw there (orphans-Quiet manifested ps s)
    | inr new ↦ rw new (
        quiet_bind sha256 (try_except (adopt files p) (set_orphan_aside files p))
          (λ _. recover_orphans files manifested ps)
          (try_except-Moves (ReachesDb sha256) (λ s. Reaches-refl sha256 s.db)
            (λ a b c. Reaches-trans sha256 a.db b.db c.db) (adopt files p)
            (set_orphan_aside files p) (adopt-Quiet p) (set_orphan_aside-Quiet sha256 files p))
          (λ _. orphans-Quiet manifested ps) s)
  ]

  with_records-Quiet : (records : List DataFileRecord) → Quiet sha256 (with_records files records)
  with_records-Quiet records s =
      quiet_bind sha256 (recover_inflight files records)
        (λ _.
          gets (λ t. t.disk.parquets)
          >>= recover_orphans files (map (λ (r : DataFileRecord). r.path) records))
        (inflight-Quiet sha256 files records) (λ _ t. orphans-Quiet _ t.disk.parquets t) s

  -- Whether or not it returns, recovery changes the manifest as some sequence of calls of the store
  -- does, so that all that holds along such sequences holds of it.
  pub recover_recorder_artifacts-Reaches :
      (s : Recovery) → ReachesDb sha256 s (recover_recorder_artifacts files s).1
  unfolding recover_recorder_artifacts
  recover_recorder_artifacts-Reaches s =
      quiet_bind sha256 (quarantine_temporaries files s.disk.temporaries)
        (λ _. gets (λ t. list_data_files every_file t.db) >>= with_records files)
        (temporaries-Quiet sha256 files s.disk.temporaries)
        (λ _ t. with_records-Quiet (list_data_files every_file t.db) t) s
