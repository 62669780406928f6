-- ===== src/Replay/Samples.antt =====
-- Sample paths for data/replay.py, and the theorem on them.
use binance_algo.Base.{
  ◌-◌, if◌then◌else◌, ltb, ◌==◌, true, map, contains, All, ◌≢◌, ok, ◌+◌, none, Result, String, ℕ,
  List, [], ◌∷◌, ◌++◌, some, ◌≡◌, refl,
}
use binance_algo.Replay.Selected.{
  parse_replay_datasets-valid, select_replay_files-covers, IsWanted, IsDistinct,
}
use binance_algo.Replay.Selection.{
  stream_event_names, difference, has_duplicates, check_datasets, non_empty, select_replay_files,
  parse_replay_datasets,
}
use binance_algo.StateStore.Listing.{insert_file, sort_files, matches, list_data_files}
use binance_algo.Replay.Pacing.{run-Replays}
use binance_algo.Table.{select_all}
use binance_algo.Replay.Engine.{
  Arithmetic, run_replay, digest_all, result_of, progress, digest_from, ReplayResult,
}
use binance_algo.Replay.Events.{ReplayError, yielded, exhausted, ReplayEvent, Yielded}
use binance_algo.Manifest.{validated, DataFileRecord}
use binance_algo.Streams.Schemas.{mark_price}
use binance_algo.StateStore.Schema.{StateDb}
use binance_algo.Replay.Literals.{read_literals-sql_list, read_literals}
use binance_algo.Replay.Query.{sql_list}

-- `o'a` and `, '`, before the bracket that ends the list.
abbrev quoted_path : List ℕ
quoted_path = 111 ∷ 39 ∷ 97 ∷ []

abbrev listed_path : List ℕ
listed_path = 44 ∷ 32 ∷ 39 ∷ []

read_literals-sql_list_example :
    read_literals 1 (sql_list (quoted_path ∷ listed_path ∷ []) ++ (93 ∷ []))
    ≡ some (quoted_path ∷ listed_path ∷ [], 93 ∷ [])
read_literals-sql_list_example =
    read_literals-sql_list quoted_path (listed_path ∷ []) (93 ∷ []) refl

abbrev price_event : ℕ → ReplayEvent ℕ
price_event t = record {
  event_type = mark_price;
  event_id = "e";
  symbol = "BTCUSDT";
  event_time_ms = t;
  received_time_ns = t;
  connection_id = "c1";
  ingestion_run_id = "r1";
  payload_json = "{}";
  columns = t;
}

abbrev two_prices : Yielded ℕ
two_prices = yielded (price_event 100) (yielded (price_event 350) exhausted)

abbrev id_line : ReplayEvent ℕ → String
id_line e = e.event_id

abbrev first_line : List String → String
first_line [] = ""
first_line (l ∷ ls) = l

-- A division that is right for the sample: 250 by 5.
abbrev in_ms : Arithmetic ℕ
in_ms = record {
  delay_of = λ n speed. if speed == 5 then n - 200 else n;
  is_positive = λ n. ltb 0 n;
  is_zero = λ n. n == 0;
  add = λ m n. m + n;
  zero = 0;
}

abbrev two_results : ReplayResult ℕ
two_results = record {
  event_count = 2;
  digest = "e";
  first_event_time_ms = some 100;
  last_event_time_ms = some 350;
  speed = 0;
}

abbrev count_handler : ReplayEvent ℕ → ℕ → Result ReplayError ℕ
count_handler e n = ok (n + 1)

two_prices_digest : digest_all in_ms id_line first_line two_prices ≡ ok two_results
unfolding digest_from progress result_of
two_prices_digest = refl

run-Replays_example :
    run_replay in_ms id_line first_line count_handler 5 two_prices
      (record { elapsed_seconds = 7; sleep_calls = 0 })
      0
    ≡ ok (record two_results { speed = 5 }, record { elapsed_seconds = 57; sleep_calls = 1 }, 2)
run-Replays_example =
    run-Replays in_ms 5 id_line first_line count_handler two_prices
      (record { elapsed_seconds = 7; sleep_calls = 0 }) 0 refl two_prices_digest refl

abbrev recorded_file : DataFileRecord
recorded_file = record {
  file_id = "f1";
  logical_dataset = "mark_price";
  layer = "raw";
  source = "binance_market_stream";
  symbol = "BTCUSDT";
  interval = "1s";
  start_time_ms = 10;
  end_time_ms = 30;
  row_count = some 3;
  schema_version = 1;
  checksum = some "abc";
  path = "p1";
  status = validated;
  created_at_ms = 12;
  updated_at_ms = 12;
  ingestion_run_id = "r1";
  parent_file_ids_json = "[]";
  last_error = none;
}

abbrev recorded_store : StateDb
recorded_store = record {
  data_files = recorded_file ∷ [];
  backfill_jobs = [];
  stream_checkpoints = [];
  quality_results = [];
  schema_versions = [];
}

select_replay_files-covers_example :
    ((recorded_file ∷ []) ≢ [])
    × All (IsWanted ("mark_price" ∷ []) 0 20) (recorded_file ∷ [])
    × All
        (λ d.
          contains d (map (λ (r : DataFileRecord). r.logical_dataset) (recorded_file ∷ [])) ≡ true)
        ("mark_price" ∷ [])
unfolding select_replay_files list_data_files matches select_all sort_files insert_file difference
select_replay_files-covers_example =
    select_replay_files-covers ("mark_price" ∷ []) [] 0 20 recorded_store refl

abbrev as_it_is : String → String
as_it_is s = s

abbrev two_datasets : List String
two_datasets = "mark_price" ∷ "kline_1m" ∷ []

parse_replay_datasets-valid_example :
    (two_datasets ≢ [])
    × IsDistinct two_datasets
    × All (λ d. contains d stream_event_names ≡ true) two_datasets
unfolding parse_replay_datasets non_empty check_datasets has_duplicates difference
parse_replay_datasets-valid_example =
    parse_replay_datasets-valid as_it_is (λ s. "mark_price" ∷ "" ∷ "kline_1m" ∷ []) "two" refl
