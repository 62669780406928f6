-- ===== src/Recorder/Pass.antt =====
-- `recover_recorder_artifacts` of data/writer.py settles every file that the manifest has in flight.
use binance_algo.Base.{
  String, false, none, some, List, [], ◌∷◌, map, ok, str_eq, eq_iff, eq_refl, ◌≡◌, refl, arith, ap,
  ◌∙◌, All,
}
use binance_algo.StateStore.Sorted.{
  read_rows-All_inv, sort_files-All_inv, sort_files-All, read_rows-All, sort_files-IsKeyed,
  read_rows-IsKeyed, every_file-all,
}
use binance_algo.Table.{select}
use binance_algo.Table.Laws.{by_key, IsKeyed}
use binance_algo.Transaction.Moves.{bind-eq}
use binance_algo.Manifest.{DataFileRecord}
use binance_algo.StateStore.Schema.{StateDb}
use binance_algo.StateStore.Files.{find_file, data_file_from_row}
use binance_algo.StateStore.Integrity.{file_key, IsConsistent}
use binance_algo.StateStore.Listing.{list_data_files, every_file, sort_files}
use binance_algo.Recorder.Recovery.{Recovery, Files, recover_file, recover_inflight}
use binance_algo.Recorder.InFlight.{Recovered, recover_file-IsRecovered}

-- What is known of the records that the loop is given.
abbrev Known : StateDb → DataFileRecord → Type 0
Known db r = (r₀ : DataFileRecord) × (find_file r.file_id db ≡ some r₀) × (r₀.status ≡ r.status)

All-map_to :
    {A : Type 0} {P Q : A → Type 0} (xs : List A) → ((x : A) → P x → Q x) → All P xs → All Q xs
All-map_to [] f h = tt
All-map_to (x ∷ xs) f (first, rest) = (f x first, All-map_to xs f rest)

All-both :
    {A : Type 0} (P Q : A → Type 0) (xs : List A) → All P xs → All Q xs → All (λ x. P x × Q x) xs
All-both P Q [] h k = tt
All-both P Q (x ∷ xs) (p, ps) (q, qs) = ((p, q), All-both P Q xs ps qs)

-- No record of the list has the id.
other_ids :
    (k : String) (rs : List DataFileRecord)
    → select (by_key file_key k) rs ≡ none
    → All (λ (r : DataFileRecord). str_eq k r.file_id ≡ false) rs
unfolding select
other_ids k [] absent = tt
other_ids k (r ∷ rs) absent = (
  ground (arith, absent, eq_iff r.file_id k, eq_iff k r.file_id),
  other_ids k rs (ground (arith, absent)),
)

module _ (files : Files) where
  -- Every file can be hashed.
  abbrev pub IsReadable : Type 0
  IsReadable = (path : String) → (c : String) × (files.sha256_file path ≡ some c)

  record IsPassed (rs : List DataFileRecord) (s after : Recovery) : Type 0 where
    pub all_recovered : All (Recovered files s after) rs
    pub others :
        (j : String)
        → select (by_key file_key j) rs ≡ none
        → find_file j after.db ≡ find_file j s.db
    pub same_disk : after.disk ≡ s.disk

  -- The same file later in the loop, and a later file from its start.
  keep_first :
      (r : DataFileRecord) (s t after : Recovery)
      → Recovered files s t r
      → find_file r.file_id after.db ≡ find_file r.file_id t.db
      → Recovered files s after r
  keep_first r s t after (due, other) same = (
    λ h. let (file, found, outcome) = due h in (file, same ∙ found, outcome),
    λ h. same ∙ other h,
  )

  keep_rest :
      (s t after : Recovery) (r : DataFileRecord)
      → t.disk ≡ s.disk
      → (find_file r.file_id t.db ≡ find_file r.file_id s.db) × Recovered files t after r
      → Recovered files s after r
  keep_rest s t after r disk (same, (due, other)) =
      (λ h. due (rw disk h), λ h. other (rw disk h) ∙ same)

  recover_inflight-IsPassed :
      (rs : List DataFileRecord) (s : Recovery)
      → IsReadable
      → IsKeyed file_key rs
      → All (Known s.db) rs
      → (after : Recovery) × (recover_inflight files rs s ≡ (ok tt, after)) × IsPassed rs s after
  unfolding recover_inflight select
  recover_inflight-IsPassed [] s readable keyed known =
      (s, refl, record { all_recovered = tt; others = λ j _. refl; same_disk = refl })
  recover_inflight-IsPassed (r ∷ rs) s readable (fresh, keyed) ((r₀, found, same), known) =
      let (c, hashed) = readable r.path in
      let (t, first, x) = recover_file-IsRecovered files r c s found same hashed in
      let apart = other_ids r.file_id rs fresh in
      let known' : All (Known t.db) rs =
        All-map_to rs (λ r' (d, (r₁, found', same')). (r₁, x.others r'.file_id d ∙ found', same'))
          (All-both _ _ rs apart known) in
      let (after, rest, y) = recover_inflight-IsPassed rs t readable keyed known' in
      (
        after,
        bind-eq (recover_file files r) (λ _. recover_inflight files rs) s first ∙ rest,
        record {
          all_recovered = (
            keep_first r s t after x.recovered (y.others r.file_id fresh),
            All-map_to rs
                (λ r' (d, later). keep_rest s t after r' x.same_disk (x.others r'.file_id d, later))
                (All-both _ _ rs apart y.all_recovered),
          );
          others =
              λ j absent. y.others j (ground (arith, absent)) ∙ x.others j (ground (arith, absent));
          same_disk = y.same_disk ∙ x.same_disk;
        },
      )

-- With unique ids, every row is the one that its id finds.
keyed_rows :
    (rs : List DataFileRecord)
    → IsKeyed file_key rs
    → All (λ r. select (by_key file_key r.file_id) rs ≡ some r) rs
unfolding select
keyed_rows [] keyed = tt
keyed_rows (r ∷ rs) (fresh, keyed) = (
  ground (arith, eq_refl r.file_id),
  All-map_to rs (λ r' (apart, found). ground (arith, apart, found))
      (All-both _ _ rs (other_ids r.file_id rs fresh) (keyed_rows rs keyed)),
)

module _ (files : Files) where
  -- If the ids of the manifest are unique and every file can be hashed, then the loop over the files
  -- in flight returns; every recorder file that was DOWNLOADING or DOWNLOADED and exists is then
  -- VALIDATED with the checksum and the number of rows of its content, or, if it fails its inspection,
  -- QUARANTINED with the error; every other file is as it was.
  pub recover_inflight-settles :
      (s : Recovery)
      → IsReadable files
      → IsConsistent s.db
      → (after : Recovery) × (recover_inflight files (list_data_files every_file s.db) s
          ≡ (ok tt, after))
        × All (λ r. Recovered files s after (data_file_from_row r)) s.db.data_files
  unfolding list_data_files
  recover_inflight-settles s readable consistent =
      let rows = s.db.data_files in
      let whole : list_data_files every_file s.db ≡ map data_file_from_row (sort_files rows) =
        ap (λ l. map data_file_from_row (sort_files l)) (every_file-all rows) in
      let keyed = read_rows-IsKeyed (sort_files rows) (sort_files-IsKeyed rows consistent.files) in
      let known : All (Known s.db) (map data_file_from_row (sort_files rows)) =
        read_rows-All (Known s.db) (sort_files rows) (
          sort_files-All _ rows
            (All-map_to rows (λ r found. (r, found, refl)) (keyed_rows rows consistent.files))) in
      let (after, returns, x) =
        recover_inflight-IsPassed files (map data_file_from_row (sort_files rows)) s readable keyed
          known in
      (
        after,
        ap (λ l. recover_inflight files l s) whole ∙ returns,
        sort_files-All_inv _ rows (read_rows-All_inv _ (sort_files rows) x.all_recovered),
      )
