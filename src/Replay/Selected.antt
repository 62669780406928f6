-- ===== src/Replay/Selected.antt =====
-- The files and the datasets that data/replay.py accepts.
use binance_algo.Base.{
  subst, ℕ, String, Bool, true, false, List, [], ◌∷◌, map, ok, if◌then◌else◌, str_eq, eq_iff,
  contains, ◌≡◌, ◌≢◌, ◌≤◌, refl, arith, All, Bool-cases, inl, inr,
}
use binance_algo.Table.{select_all}
use binance_algo.Manifest.{DataFileRecord, validated}
use binance_algo.StateStore.Schema.{StateDb}
use binance_algo.StateStore.Listing.{FileFilter, list_data_files, matches, sort_files}
use binance_algo.StateStore.Sorted.{sort_files-All, read_rows-All}
use binance_algo.Replay.Selection.{
  select_replay_files, replay_filter, is_recorded, difference, checked, parse_replay_datasets,
  check_datasets, has_duplicates, non_empty, stream_event_names,
}

select_all-All :
    (P : DataFileRecord → Type 0) (p : DataFileRecord → Bool) (rs : List DataFileRecord)
    → All P rs
    → All (λ r. P r × (p r ≡ true)) (select_all p rs)
unfolding select_all
select_all-All P p [] h = tt
select_all-All P p (r ∷ rs) (h, hs) = elim (Bool-cases (p r)) [
  | inl here ↦ rw here ((h, here), select_all-All P p rs hs)
  | inr other ↦ rw other (select_all-All P p rs hs)
]

All-trivial : (rs : List DataFileRecord) → All (λ r. Unit {0}) rs
All-trivial [] = tt
All-trivial (r ∷ rs) = (tt, All-trivial rs)

All-weaken :
    {A : Type 0} {P Q : A → Type 0} (xs : List A) → ((x : A) → P x → Q x) → All P xs → All Q xs
All-weaken [] f h = tt
All-weaken (x ∷ xs) f (h, hs) = (f x h, All-weaken xs f hs)

nothing_left :
    (b : Bool) (d : String) (rest : List String)
    → (if b then rest else if contains d rest then rest else d ∷ rest) ≡ []
    → (b ≡ true) × (rest ≡ [])
nothing_left true d [] h = (refl, refl)
nothing_left true d (x ∷ xs) h = ground (arith, h)
nothing_left false d [] h = ground (arith, h)
nothing_left false d (x ∷ xs) h = ground (arith, h)

-- Nothing is left of the wanted ones.
difference-none :
    (wanted there : List String)
    → difference wanted there ≡ []
    → All (λ d. contains d there ≡ true) wanted
unfolding difference
difference-none [] there h = tt
difference-none (d ∷ ds) there h =
    let (found, rest) = nothing_left (contains d there) d (difference ds there) h in
    (found, difference-none ds there rest)

-- A validated raw file of the recorder, of a wanted dataset, that overlaps the window.
pub record IsWanted (datasets : List String) (start end : ℕ) (r : DataFileRecord) : Type 0 where
  pub is_raw : r.layer ≡ "raw"
  pub is_validated : r.status ≡ validated
  pub recorded : r.source ≡ "binance_market_stream"
  pub in_datasets : contains r.logical_dataset datasets ≡ true
  pub ends_in : start ≤ r.end_time_ms
  pub starts_in : r.start_time_ms ≤ end

matches-IsWanted :
    (datasets symbols : List String) (start end : ℕ) (r : DataFileRecord)
    → matches (replay_filter symbols start end) r ≡ true
    → is_recorded datasets r ≡ true
    → IsWanted datasets start end r
unfolding matches
matches-IsWanted datasets symbols start end r m w = record {
  is_raw = ground (arith, m, eq_iff r.layer "raw");
  is_validated = ground (arith, m);
  recorded = ground (arith, w, eq_iff r.source "binance_market_stream");
  in_datasets = ground (arith, w);
  ends_in = ground (arith, m);
  starts_in = ground (arith, m);
}

listed-matches :
    (f : FileFilter) (db : StateDb) → All (λ r. matches f r ≡ true) (list_data_files f db)
unfolding list_data_files matches
listed-matches f db =
    let rows = select_all (matches f) db.data_files in
    read_rows-All (λ r. matches f r ≡ true) (sort_files rows)
      (sort_files-All (λ r. matches f r ≡ true) rows
        (All-weaken rows (λ r (_, m). m)
          (select_all-All (λ r. Unit {0}) (matches f) db.data_files (All-trivial db.data_files))))

-- What the checks accept.
checked-ok :
    (datasets : List String) (selected : List DataFileRecord) (missing : List String)
    {files : List DataFileRecord}
    → checked datasets selected missing ≡ ok files
    → (selected ≡ files) × (missing ≡ []) × (files ≢ [])
checked-ok datasets [] missing h = ground (arith, h)
checked-ok datasets (r ∷ rs) [] h = (ground (arith, h), refl, λ empty. ground (arith, h, empty))
checked-ok datasets (r ∷ rs) (m ∷ ms) h = ground (arith, h)

-- The files that a selection returns, of which there is one at least, are VALIDATED raw files of the
-- recorder, each of a requested dataset and overlapping the window, and every requested dataset has
-- one.
pub select_replay_files-covers :
    (datasets symbols : List String) (start end : ℕ) (db : StateDb) {files : List DataFileRecord}
    → select_replay_files datasets symbols start end db ≡ ok files
    → (files ≢ [])
      × All (IsWanted datasets start end) files
      × All
          (λ d. contains d (map (λ (r : DataFileRecord). r.logical_dataset) files) ≡ true)
          datasets
unfolding select_replay_files
select_replay_files-covers datasets symbols start end db h =
    let listed = list_data_files (replay_filter symbols start end) db in
    let selected = select_all (is_recorded datasets) listed in
    let names = map (λ (r : DataFileRecord). r.logical_dataset) selected in
    let (same, none_missing, some_file) =
      checked-ok datasets selected (difference datasets names) h in
    (
      some_file,
      subst (All (IsWanted datasets start end)) same (
          All-weaken selected (λ r (m, w). matches-IsWanted datasets symbols start end r m w)
            (select_all-All _ (is_recorded datasets) listed
              (listed-matches (replay_filter symbols start end) db))),
      subst
          (λ fs.
            All (λ d. contains d (map (λ (r : DataFileRecord). r.logical_dataset) fs) ≡ true)
              datasets)
          same (difference-none datasets names none_missing),
    )

-- No dataset is listed twice.
abbrev pub IsDistinct : List String → Type 0
IsDistinct [] = Unit
IsDistinct (d ∷ ds) = (contains d ds ≡ false) × IsDistinct ds

IsDistinct-iff : (ds : List String) → has_duplicates ds ≡ false → IsDistinct ds
unfolding has_duplicates
IsDistinct-iff [] h = tt
IsDistinct-iff (d ∷ ds) h = (ground (arith, h), IsDistinct-iff ds (ground (arith, h)))

check_datasets-ok :
    (raw invalid : List String) {ds : List String}
    → check_datasets raw invalid ≡ ok ds
    → (raw ≡ ds) × (invalid ≡ []) × (ds ≢ []) × (has_duplicates ds ≡ false)
unfolding check_datasets
check_datasets-ok raw (i ∷ is) h = ground (arith, h)
check_datasets-ok [] [] h = ground (arith, h)
check_datasets-ok (d ∷ ds) [] h = elim (Bool-cases (has_duplicates (d ∷ ds))) [
  | inl twice ↦ ground (arith, h, twice)
  | inr once ↦
      let same : d ∷ ds ≡ _ = ground (arith, h, once) in
      (
        same,
        refl,
        λ empty. ground (arith, same, empty),
        subst (λ l. has_duplicates l ≡ false) same once,
      )
]

-- The datasets that a request is parsed to, of which there is one at least, are distinct event types of
-- the streams, however texts are normalised and split.
pub parse_replay_datasets-valid :
    (normalize : String → String) (split : String → List String) (value : String) {ds : List String}
    → parse_replay_datasets normalize split value ≡ ok ds
    → (ds ≢ []) × IsDistinct ds × All (λ d. contains d stream_event_names ≡ true) ds
unfolding parse_replay_datasets
parse_replay_datasets-valid normalize split value h =
    let raw = non_empty (map normalize (split value)) in
    elim (Bool-cases (str_eq (normalize value) "all")) [
      | inl every ↦
          let same : stream_event_names ≡ _ = ground (arith, h, every) in
          subst (λ l. (l ≢ []) × IsDistinct l × All (λ d. contains d stream_event_names ≡ true) l)
            same
            (
              λ empty. ground (arith, empty),
              (refl, (refl, (refl, (refl, tt)))),
              (refl, (refl, (refl, (refl, tt)))),
            )
      | inr some_of ↦
          let (same, valid, some_dataset, once) =
            check_datasets-ok raw (difference raw stream_event_names)
              (ground (arith, h, some_of)) in
          (
            some_dataset,
            IsDistinct-iff _ once,
            subst (All (λ d. contains d stream_event_names ≡ true)) same
                (difference-none raw stream_event_names valid),
          )
    ]
