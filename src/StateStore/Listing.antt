-- ===== src/StateStore/Listing.antt =====
-- `list_data_files` of data/state_store.py.
use binance_algo.Base.{
  ℕ, String, Bool, true, false, Option, none, some, List, [], ◌∷◌, map, ◌&&◌, ◌||◌, ltb, leb,
  str_eq, string_leb, if◌then◌else◌, contains, ◌==◌,
}
use binance_algo.Table.{select_all}
use binance_algo.Manifest.{DataFileRecord, DataFileStatus, file_status_eq}
use binance_algo.StateStore.Schema.{StateDb}
use binance_algo.StateStore.Files.{data_file_from_row}

-- The keyword arguments; an empty set or tuple is no condition, as is `None`.
pub record FileFilter : Type 0 where
  pub logical_dataset : Option String
  pub layer : Option String
  pub statuses : List DataFileStatus
  pub symbols : List String
  pub interval : Option String
  pub start_time_ms : Option ℕ
  pub end_time_ms : Option ℕ
  pub ingestion_run_id : Option String

abbrev pub every_file : FileFilter
every_file = record {
  logical_dataset = none;
  layer = none;
  statuses = [];
  symbols = [];
  interval = none;
  start_time_ms = none;
  end_time_ms = none;
  ingestion_run_id = none;
}

-- `column = ?`
abbrev equals : Option String → String → Bool
equals none value = true
equals (some wanted) value = str_eq value wanted

abbrev has_status : List DataFileStatus → DataFileStatus → Bool
has_status [] status = false
has_status (s ∷ ss) status = file_status_eq status s || has_status ss status

-- `status IN (…)`
abbrev status_in : List DataFileStatus → DataFileStatus → Bool
status_in [] status = true
status_in (s ∷ ss) status = has_status (s ∷ ss) status

-- `symbol IN (…)`
abbrev symbol_in : List String → String → Bool
symbol_in [] symbol = true
symbol_in (s ∷ ss) symbol = contains symbol (s ∷ ss)

-- `end_time_ms >= ?` and `start_time_ms <= ?`
abbrev ends_after : Option ℕ → ℕ → Bool
ends_after none end = true
ends_after (some start) end = leb start end

abbrev starts_before : Option ℕ → ℕ → Bool
starts_before none start = true
starts_before (some end) start = leb start end

-- The `WHERE` clause.
unfoldable pub matches : FileFilter → DataFileRecord → Bool
matches f r =
    equals f.logical_dataset r.logical_dataset
    && equals f.layer r.layer
    && equals f.interval r.interval
    && equals f.ingestion_run_id r.ingestion_run_id
    && status_in f.statuses r.status
    && symbol_in f.symbols r.symbol
    && ends_after f.start_time_ms r.end_time_ms
    && starts_before f.end_time_ms r.start_time_ms

-- `ORDER BY symbol, interval, start_time_ms, file_id`
unfoldable pub listed_before : DataFileRecord → DataFileRecord → Bool
listed_before r s =
    if str_eq r.symbol s.symbol
    then (if str_eq r.interval s.interval
        then (if r.start_time_ms == s.start_time_ms
            then string_leb r.file_id s.file_id
            else ltb r.start_time_ms s.start_time_ms)
        else string_leb r.interval s.interval)
    else string_leb r.symbol s.symbol

unfoldable pub insert_file : DataFileRecord → List DataFileRecord → List DataFileRecord
unfolding listed_before
insert_file r [] = r ∷ []
insert_file r (s ∷ rs) =
    let rest = insert_file r rs in if listed_before r s then r ∷ s ∷ rs else s ∷ rest

unfoldable pub sort_files : List DataFileRecord → List DataFileRecord
unfolding insert_file
sort_files [] = []
sort_files (r ∷ rs) = insert_file r (sort_files rs)

unfoldable pub list_data_files : FileFilter → StateDb → List DataFileRecord
unfolding sort_files select_all matches
list_data_files f db = map data_file_from_row (sort_files (select_all (matches f) db.data_files))
