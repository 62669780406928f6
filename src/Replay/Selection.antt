-- ===== src/Replay/Selection.antt =====
-- `select_replay_files` and `parse_replay_datasets` of data/replay.py.
use binance_algo.Base.{
  ℕ, String, Bool, true, false, none, some, List, [], ◌∷◌, map, Result, ok, err, ◌&&◌,
  if◌then◌else◌, str_eq, contains, sort_strings,
}
use binance_algo.Table.{select_all}
use binance_algo.Manifest.{DataFileRecord, validated}
use binance_algo.StateStore.Schema.{StateDb}
use binance_algo.StateStore.Listing.{FileFilter, list_data_files}
use binance_algo.Replay.Events.{
  ReplayError, no_files, missing_datasets, no_datasets, duplicate_datasets, unsupported_datasets,
}

-- The filter that the replay asks the state store for.
abbrev pub replay_filter : List String → ℕ → ℕ → FileFilter
replay_filter symbols start end = record {
  logical_dataset = none;
  layer = some "raw";
  statuses = validated ∷ [];
  symbols = symbols;
  interval = none;
  start_time_ms = some start;
  end_time_ms = some end;
  ingestion_run_id = none;
}

abbrev pub is_recorded : List String → DataFileRecord → Bool
is_recorded datasets r =
    str_eq r.source "binance_market_stream" && contains r.logical_dataset datasets

-- `set(datasets).difference(…)`, each once.
unfoldable pub difference : List String → List String → List String
difference [] present = []
difference (d ∷ ds) present =
    let rest = difference ds present in
    if contains d present then rest else if contains d rest then rest else d ∷ rest

abbrev pub checked :
    List String → List DataFileRecord → List String → Result ReplayError (List DataFileRecord)
checked datasets [] missing = err no_files
checked datasets (r ∷ rs) [] = ok (r ∷ rs)
checked datasets (r ∷ rs) (m ∷ ms) = err (missing_datasets (sort_strings (m ∷ ms)))

-- `select_replay_files`
unfoldable pub select_replay_files :
    List String → List String → ℕ → ℕ → StateDb → Result ReplayError (List DataFileRecord)
unfolding list_data_files select_all difference sort_strings
select_replay_files datasets symbols start end db =
    let selected =
      select_all (is_recorded datasets) (list_data_files (replay_filter symbols start end) db) in
    checked datasets selected
      (difference datasets (map (λ (r : DataFileRecord). r.logical_dataset) selected))

-- `STREAM_EVENT_TYPES`
abbrev pub stream_event_names : List String
stream_event_names = "book_ticker" ∷ "aggregate_trades" ∷ "mark_price" ∷ "kline_1m" ∷ []

-- `len(raw) != len(set(raw))`
unfoldable pub has_duplicates : List String → Bool
has_duplicates [] = false
has_duplicates (d ∷ ds) = if contains d ds then true else has_duplicates ds

-- `part for part in … if part.strip()`
unfoldable pub non_empty : List String → List String
non_empty [] = []
non_empty (p ∷ ps) = let rest = non_empty ps in if str_eq p "" then rest else p ∷ rest

-- The checks of the parts, in their order.
unfoldable pub check_datasets : List String → List String → Result ReplayError (List String)
unfolding has_duplicates sort_strings
check_datasets raw (i ∷ is) = err (unsupported_datasets (sort_strings (i ∷ is)))
check_datasets [] [] = err no_datasets
check_datasets (d ∷ ds) [] = if has_duplicates (d ∷ ds) then err duplicate_datasets else ok (d ∷ ds)

-- `parse_replay_datasets`; `normalize` is `strip().lower()`, and `split` is `split(",")`.
unfoldable pub parse_replay_datasets :
    (String → String) → (String → List String) → String → Result ReplayError (List String)
unfolding non_empty difference check_datasets
parse_replay_datasets normalize split value =
    let raw = non_empty (map normalize (split value)) in
    if str_eq (normalize value) "all"
    then ok stream_event_names
    else check_datasets raw (difference raw stream_event_names)
