-- ===== src/Recorder/RecoveryCalls.antt =====
-- `recover_recorder_artifacts` of data/writer.py writes the state store only through its methods.
use binance_algo.Base.{
  ◌&&◌, ◌∙◌, String, Option, none, some, List, [], ◌∷◌, Result, ok, err, contains, ◌≡◌, refl, inl,
  inr, sym, Bool-cases, subst,
}
use binance_algo.Transaction.{Exec, ◌>>=◌, ◌>>◌, or_raise}
use binance_algo.Recorder.Recovery.{
  RecoveryStats, Recovery, RecoveryError, Action, Files, from_manifest, in_manifest, count,
  count_temporary, count_inflight, count_invalid, move_aside, quarantine_temporaries, partition_of,
  checksum_of, settle_file, in_flight, inspect_record, recover_file, recover_inflight,
  set_orphan_aside, inspected, inspect_error, temporary_not_moved, not_moved,
}
use binance_algo.Transaction.Moves.{bind-Moves}
use binance_algo.Manifest.{DataFileRecord, quarantined}
use binance_algo.StateStore.Schema.{StateDb, StoreError}
use binance_algo.StateStore.Files.{transition_data_file}
use binance_algo.StateStore.Ops.{StoreCall, transition_file, call, run}
use binance_algo.Recorder.Flush.{FlushError, FlushAction, download, validate, in_store}
use binance_algo.Recorder.Calls.{
  Reaches, Reaches-refl, Reaches-trans, IsCalls, download-IsCalls, validate-IsCalls, lifted-db,
}
use binance_algo.Recorder.Inspection.{Inspected, InspectError}

module _ (sha256 : List String → String) where
  abbrev pub ReachesDb : Recovery → Recovery → Type 0
  ReachesDb s t = Reaches sha256 s.db t.db

  abbrev pub Quiet : {A : Type 0} → Action A → Type 0
  Quiet m = (s : Recovery) → ReachesDb s (m s).1

  pub quiet_bind :
      {A B : Type 0} (m : Action A) (f : A → Action B)
      → Quiet m
      → ((a : A) → Quiet (f a))
      → Quiet (m >>= f)
  quiet_bind =
      bind-Moves ReachesDb (λ s. Reaches-refl sha256 s.db)
        (λ a b c. Reaches-trans sha256 a.db b.db c.db)

  from_manifest-db :
      {A : Type 0} (s : Recovery) (p : Result FlushError A × StateDb)
      → (from_manifest s p).1.db ≡ p.1
  from_manifest-db s (ok a, db) = refl
  from_manifest-db s (err e, db) = refl

  in_manifest-Quiet : {A : Type 0} (m : FlushAction A) → IsCalls sha256 m → Quiet (in_manifest m)
  in_manifest-Quiet m calls s =
      subst (Reaches sha256 s.db) (sym (from_manifest-db s (m s.db))) (calls s.db)

  store-IsCalls :
      {A : Type 0} (c : StoreCall) (m : StateDb → Result StoreError A × StateDb)
      → ((db : StateDb) → (m db).1 ≡ call sha256 c db)
      → IsCalls sha256 (in_store m)
  unfolding run
  store-IsCalls c m same db = (c ∷ [], sym (lifted-db sha256 (m db) ∙ same db))

  pub stored-Quiet :
      {A : Type 0} (c : StoreCall) (m : Exec StateDb StoreError A)
      → ((db : StateDb) → (m db).1 ≡ call sha256 c db)
      → Quiet (in_manifest (in_store m))
  stored-Quiet c m same = in_manifest-Quiet (in_store m) (store-IsCalls c m same)

  pub or_raise-Quiet : {A : Type 0} (o : Option A) (e : RecoveryError) → Quiet (or_raise o e)
  or_raise-Quiet none e s = Reaches-refl sha256 s.db
  or_raise-Quiet (some a) e s = Reaches-refl sha256 s.db

  still : {A : Type 0} (m : Action A) → ((s : Recovery) → (m s).1.db ≡ s.db) → Quiet m
  still m same s = subst (Reaches sha256 s.db) (sym (same s)) (Reaches-refl sha256 s.db)

  pub counted : (f : RecoveryStats → RecoveryStats) → Quiet (count f)
  counted f s = Reaches-refl sha256 s.db

  module _ (files : Files) where
    pub move_aside-Quiet : (p : String) (e : RecoveryError) → Quiet (move_aside files p e)
    move_aside-Quiet p e s = elim (Bool-cases (files.moves p)) [
      | inl moves ↦ rw moves (Reaches-refl sha256 s.db)
      | inr stays ↦ rw stays (Reaches-refl sha256 s.db)
    ]

    pub temporaries-Quiet : (ps : List String) → Quiet (quarantine_temporaries files ps)
    unfolding quarantine_temporaries
    temporaries-Quiet [] s = Reaches-refl sha256 s.db
    temporaries-Quiet (p ∷ ps) s =
        quiet_bind (move_aside files p (temporary_not_moved p))
          (λ _. count count_temporary >> quarantine_temporaries files ps)
          (move_aside-Quiet p (temporary_not_moved p)) (λ _ t. temporaries-Quiet ps _) s

    settle_file-Quiet :
        (r : DataFileRecord) (result : Result InspectError Inspected)
        → Quiet (settle_file files r result)
    unfolding call
    settle_file-Quiet r (err e) =
        let at = (files.clock r.file_id).failed_at in
        let m = some (files.message e) in
        quiet_bind
          (in_manifest (in_store (transition_data_file r.file_id quarantined none none m at)))
          (λ _. count count_invalid)
          (stored-Quiet (transition_file r.file_id quarantined none none m at)
            (transition_data_file r.file_id quarantined none none m at) (λ db. refl))
          (λ _. counted count_invalid)
    settle_file-Quiet r (ok i) =
        let clock = files.clock r.file_id in
        let p = λ (c : String). partition_of files r.file_id r.path c i in
        quiet_bind (checksum_of files r.path)
          (λ c. in_manifest (download (p c) clock r) >>= λ x.
            in_manifest (validate (p c) clock x) >> count count_inflight)
          (or_raise-Quiet (files.sha256_file r.path) _)
          (λ c.
            quiet_bind (in_manifest (download (p c) clock r))
              (λ x. in_manifest (validate (p c) clock x) >> count count_inflight)
              (in_manifest-Quiet (download (p c) clock r)
                (download-IsCalls sha256 (λ _. "") (p c) clock r))
              (λ x.
                quiet_bind (in_manifest (validate (p c) clock x)) (λ _. count count_inflight)
                  (in_manifest-Quiet (validate (p c) clock x)
                    (validate-IsCalls sha256 (λ _. "") (p c) clock x))
                  (λ _. counted count_inflight)))

    recover_file-Quiet : (r : DataFileRecord) → Quiet (recover_file files r)
    unfolding recover_file
    recover_file-Quiet r s =
        elim (Bool-cases (in_flight files r && contains r.path s.disk.parquets)) [
          | inl due ↦ rw due (settle_file-Quiet r (inspect_record files r) s)
          | inr other ↦ rw other (Reaches-refl sha256 s.db)
        ]

    pub inflight-Quiet : (rs : List DataFileRecord) → Quiet (recover_inflight files rs)
    unfolding recover_inflight
    inflight-Quiet [] s = Reaches-refl sha256 s.db
    inflight-Quiet (r ∷ rs) s =
        quiet_bind (recover_file files r) (λ _. recover_inflight files rs) (recover_file-Quiet r)
          (λ _. inflight-Quiet rs) s

    pub inspected-Quiet : (result : Result InspectError Inspected) → Quiet (inspected result)
    inspected-Quiet (ok i) s = Reaches-refl sha256 s.db
    inspected-Quiet (err e) s = Reaches-refl sha256 s.db

    pub set_orphan_aside-Quiet :
        (path : String) (e : RecoveryError) → Quiet (set_orphan_aside files path e)
    set_orphan_aside-Quiet path (inspect_error e) =
        quiet_bind (move_aside files path (not_moved path)) (λ _. count count_invalid)
          (move_aside-Quiet path (not_moved path)) (λ _. counted count_invalid)
    set_orphan_aside-Quiet path _ = λ s. Reaches-refl sha256 s.db
