-- ===== src/Recorder/Orphans.antt =====
-- `_recover_orphan` of data/writer.py on a file that passes its inspection.
use binance_algo.Base.{
  String, none, some, [], ◌∷◌, ◌++◌, ok, ◌+◌, length, ◌≡◌, refl, arith, inl, sym, ap, ◌∙◌,
}
use binance_algo.Transaction.{pure, ◌>>=◌, ◌>>◌, or_raise}
use binance_algo.StateStore.Files.{
  validate_stream_file_with_checkpoint, find_file, same_file, register_data_file,
}
use binance_algo.Table.{select}
use binance_algo.Transaction.Moves.{bind-eq}
use binance_algo.Manifest.{DataFileRecord, downloaded, validated}
use binance_algo.StateStore.Schema.{StateDb}
use binance_algo.Recorder.Flush.{Partition, Clock, in_store, registered, lifted, download, validate}
use binance_algo.Recorder.Lifecycle.{register_fresh}
use binance_algo.Recorder.Inspection.{Inspected, inspect}
use binance_algo.Recorder.Recovery.{
  Recovery, Files, orphan_of, recover_orphan, store_orphan, register_orphan, checksum_of,
  promote_orphan, download_orphan, validate_orphan, hash_error, inspected,
}
use binance_algo.Recorder.Settled.{IsFinished, finishes}
use binance_algo.Recorder.InFlight.{in_manifest-eq}

validate-downloaded :
    (p : Partition) (clock : Clock) (r : DataFileRecord) (db : StateDb)
    → r.status ≡ downloaded
    → validate p clock r db
      ≡ in_store
          (validate_stream_file_with_checkpoint p.file_id p.checksum p.height p.stream_key
            p.checkpoint_json clock.validated_at clock.checkpoint_at)
          db
unfolding validate
validate-downloaded p clock r db is = ground (arith, is)

module _ (files : Files) (path : String) where
  promotes :
      (p : Partition) (clock : Clock) (s : Recovery)
      → find_file p.file_id s.db ≡ some (registered p)
      → (after : Recovery) × (promote_orphan files p clock s ≡ (ok tt, after))
        × IsFinished p s.db after.db
        × (after.disk ≡ s.disk)
  unfolding download
  promotes p clock s found =
      let (middle, current, after, r, is, first, second, x) =
        finishes p clock (registered p) s.db found refl (inl refl) in
      let t : Recovery = record s { db = middle } in
      let u : Recovery = record s { db = after } in
      (
        u,
        bind-eq (download_orphan files p clock) (λ _. validate_orphan files p clock >> pure tt) s
              (in_manifest-eq (download p clock (registered p)) s first)
            ∙ bind-eq (validate_orphan files p clock) (λ _. pure tt) t
                (in_manifest-eq
                  (in_store (
                    validate_stream_file_with_checkpoint p.file_id p.checksum p.height p.stream_key
                      p.checkpoint_json clock.validated_at clock.checkpoint_at))
                  t (sym (validate-downloaded p clock current middle is) ∙ second)),
        x,
        refl,
      )

  -- An orphan that passes its inspection, whose id and path no record has, is adopted: the call
  -- returns, and the file is VALIDATED under its id with the checksum and the number of rows of its
  -- content; no file has moved.
  pub recover_orphan-adopts :
      (i : Inspected) (c : String) (s : Recovery)
      → inspect files.parts files.read path none none none ≡ ok i
      → files.sha256_file path ≡ some c
      → select (same_file (registered (orphan_of files path c i))) s.db.data_files ≡ none
      → (after : Recovery) × (recover_orphan files path s ≡ (ok tt, after))
        × (file : DataFileRecord) × (find_file (files.file_id path) after.db ≡ some file)
        × (file.status ≡ validated)
        × (file.checksum ≡ some c)
        × (file.row_count ≡ some (length i.rest + 1))
        × (after.disk ≡ s.disk)
  unfolding recover_orphan
  recover_orphan-adopts i c s is hashed fresh =
      let r = registered (orphan_of files path c i) in
      let (new, found) = register_fresh r s.db fresh in
      let t : Recovery = record s {
        db = record s.db { data_files = s.db.data_files ++ (r ∷ []) };
      } in
      let p = orphan_of files path c i in
      let clock = files.clock (files.file_id path) in
      let (after, promoted, x, disk) = promotes p clock t found in
      let promote = λ (k : String). promote_orphan files (orphan_of files path k i) clock in
      (
        after,
        bind-eq (inspected (inspect files.parts files.read path none none none))
              (store_orphan files path) s (ap (λ o. inspected o s) is)
            ∙ bind-eq (register_orphan files path i) (λ _. checksum_of files path >>= promote) s
                (in_manifest-eq (in_store (register_data_file r)) s (ap lifted new))
            ∙ bind-eq (checksum_of files path) promote t
                (ap (λ o. or_raise o (hash_error path) t) hashed)
            ∙ promoted,
        x.file,
        x.found,
        x.is_validated,
        x.same_checksum,
        x.same_count,
        disk,
      )
