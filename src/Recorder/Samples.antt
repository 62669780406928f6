-- ===== src/Recorder/Samples.antt =====
-- Samples for the recorder.
use binance_algo.Base.{
  true, Bool, false, Option, ltb, if◌then◌else◌, arith, ◌≡◌, ◌+◌, refl, ℕ, String, none, some, List,
  [], ◌∷◌, ok, err,
}
use binance_algo.Manifest.{failed}
use binance_algo.Recorder.Written.{taken, run_writer-Delivers, started, handed, Delivers}
use binance_algo.Recorder.Buffers.{
  Turn, timed_out, Batch, received, run_writer, CanonicalStreamEvent, PartitionKey, Poll,
}
use binance_algo.Recorder.Lifecycle.{
  file_with, flush_partition-fails, flush_partition-validates, validated_file,
}
use binance_algo.StateStore.Files.{get_stream_checkpoint, find_file, data_file_from_row}
use binance_algo.Recorder.Flush.{
  write_error, store_error, flush_partition, Clock, FlushError, Partition,
}
use binance_algo.Recorder.Gaps.{observe_all-accounts}
use binance_algo.Recorder.Sequence.{StreamEvent, Observed, observe_all}
use binance_algo.Table.{select}
use binance_algo.StateStore.Schema.{StateDb}

abbrev trade : String → ℕ → StreamEvent
trade k n = record { event_type = "aggregate_trades"; symbol = k; aggregate_trade_id = n }

abbrev seen_ten : Observed
seen_ten = record {
  messages_by_stream = λ k. 1;
  messages_by_symbol = λ k. 1;
  sequence_gaps_by_symbol = λ k. 0;
  sequence_regressions_by_symbol = λ k. 0;
  last_aggregate_trade_id = λ k. some 10;
}

abbrev three_trades : List StreamEvent
three_trades = trade "BTCUSDT" 11 ∷ trade "ETHUSDT" 7 ∷ trade "BTCUSDT" 15 ∷ []

observe_all-accounts_example :
    let t = observe_all three_trades seen_ten in
    (t.sequence_gaps_by_symbol "BTCUSDT" + 2 + 10 ≡ 0 + 15)
    × (t.sequence_regressions_by_symbol "BTCUSDT" ≡ 0)
    × (t.last_aggregate_trade_id "BTCUSDT" ≡ some 15)
observe_all-accounts_example =
    observe_all-accounts "BTCUSDT" three_trades seen_ten refl (ground arith, (ground arith, tt))

abbrev new_partition : Partition
new_partition = record {
  file_id = "s1";
  event_type = "aggregate_trades";
  symbol = "BTCUSDT";
  start_time_ms = 1;
  end_time_ms = 2;
  target = "raw/s1";
  ingestion_run_id = "r1";
  timestamp = 3;
  checksum = "abc";
  height = 3;
  stream_key = "aggregate_trades/BTCUSDT";
  checkpoint_json = "{}";
}

abbrev times : Clock
times = record { downloaded_at = 4; validated_at = 5; checkpoint_at = 6; failed_at = 7 }

abbrev empty_store : StateDb
empty_store = record {
  data_files = [];
  backfill_jobs = [];
  stream_checkpoints = [];
  quality_results = [];
  schema_versions = [];
}

abbrev text_of : FlushError → String
text_of (store_error e) = "store"
text_of (write_error m) = m

abbrev joined : List String → String
joined ss = ""

flush_partition-validates_example :
    let (result, after) = flush_partition text_of new_partition times none empty_store in
    (result ≡ ok (data_file_from_row (validated_file text_of new_partition times empty_store)))
    × (find_file "s1" after ≡ some (validated_file text_of new_partition times empty_store))
    × (get_stream_checkpoint "aggregate_trades/BTCUSDT" after ≡ some "{}")
unfolding select
flush_partition-validates_example =
    flush_partition-validates text_of new_partition times empty_store refl

flush_partition-fails_example :
    let (result, after) =
      flush_partition text_of new_partition times (some "disk full") empty_store in
    (result ≡ err (write_error "disk full"))
    × (find_file "s1" after
        ≡ some (
            file_with text_of new_partition times empty_store failed none none
              (some (text_of (write_error "disk full")))
              times.failed_at))
    × (after.stream_checkpoints ≡ [])
unfolding select
flush_partition-fails_example =
    flush_partition-fails text_of new_partition times empty_store "disk full" refl

-- Hours of an hour each, all of one day.
abbrev first_day : ℕ → String × ℕ
first_day t = ("2024-01-01", if ltb t 3_600_000 then 0 else 1)

abbrev price : String → ℕ → ℕ → CanonicalStreamEvent ℕ
price k t value = record { event_type = "mark_price"; symbol = k; event_time_ms = t; row = value }

abbrev never : PartitionKey → List ℕ → List (Batch ℕ) → Option String
never k rows log = none

abbrev in_reach : ℕ → Option String
in_reach t = none

abbrev all_caught : String → Bool
all_caught e = true

abbrev prefixed : String → String
prefixed e = e

abbrev open_turn : Poll ℕ → Turn ℕ
open_turn p = record { producers_done = false; queue_empty = false; poll = p }

abbrev some_turns : List (Turn ℕ)
some_turns =
    open_turn (received (price "ETHUSDT" 1_000 5))
    ∷ open_turn (received (price "BTCUSDT" 1_500 7))
    ∷ open_turn (timed_out false false)
    ∷ open_turn (received (price "ETHUSDT" 2_000 6))
    ∷ open_turn (received (price "ETHUSDT" 3_700_000 8))
    ∷ record { producers_done = true; queue_empty = true; poll = timed_out false true }
    ∷ []

run_writer-Delivers_example :
    Delivers first_day never 3 in_reach all_caught prefixed
      (taken first_day never 3 in_reach all_caught prefixed some_turns)
      (run_writer first_day
        (handed never)
        3
        in_reach
        all_caught
        prefixed
        some_turns
        (started first_day never 3 in_reach all_caught prefixed, []))
run_writer-Delivers_example =
    run_writer-Delivers first_day never 3 in_reach all_caught prefixed some_turns
