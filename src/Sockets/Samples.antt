-- ===== src/Sockets/Samples.antt =====
-- A connection whose queue saturates, and one that is refused.
use binance_algo.Base.{List, arith, ℕ, String, false, Option, none, some, [], ◌∷◌, Result}
use binance_algo.Streams.Json.{StreamError}
use binance_algo.Streams.Fields.{CanonicalStreamEvent}
use binance_algo.Streams.Samples.{sample_library}
use binance_algo.Streams.Parsers.{parse_combined_message, Receipt}
use binance_algo.Recorder.Sequence.{StreamEvent}
use binance_algo.Sockets.Client.{Socket, Turn, text_frame, client_failure}
use binance_algo.Sockets.Session.{Attempt, Settings, run_from}
use binance_algo.Sockets.Backoff.{IsRecorded, run-IsRecorded}

abbrev trade : ℕ → StreamEvent
trade n = record { event_type = "aggregate_trades"; symbol = "BTCUSDT"; aggregate_trade_id = n }

-- The parser of the streams, with a library for which every message is the trade 7.
abbrev parse_trade : Receipt → String → Result StreamError (Option (CanonicalStreamEvent ℕ))
parse_trade = parse_combined_message sample_library

abbrev view : CanonicalStreamEvent ℕ → StreamEvent
view e = trade 7

abbrev settings : Settings
settings = record {
  capacity = 1;
  connection_max_ns = 1_000;
  stable_after_ns = 100;
  reconnect_base_ns = 10;
  reconnect_max_ns = 40;
  message = λ e. "error";
}

abbrev fresh_socket : Socket (CanonicalStreamEvent ℕ)
fresh_socket = record {
  queue = [];
  taken = [];
  observed = record {
    messages_by_stream = λ k. 0;
    messages_by_symbol = λ k. 0;
    sequence_gaps_by_symbol = λ k. 0;
    sequence_regressions_by_symbol = λ k. 0;
    last_aggregate_trade_id = λ k. none;
  };
  connections = 0;
  reconnects = 0;
  disconnects = [];
  dropped_events = 0;
  queue_peak = 0;
  queue_saturated = false;
  last_error = none;
  last_event_ns = none;
  pauses = [];
}

abbrev receipt : Receipt
receipt = record {
  received_time_ns = 5;
  connection_id = "c2";
  ingestion_run_id = "r1";
  processed_time_ns = none;
  processed_at = 6;
}

abbrev turn : ℕ → Turn
turn served = record {
  stopped = false;
  age_ns = 5;
  message = text_frame receipt "trade";
  served = served;
  marked_at_ns = 7;
}

abbrev refused_attempt : Attempt
refused_attempt = record {
  stopped = false;
  connection_id = "c1";
  opened_at_ns = 1;
  refused = some (client_failure "refused");
  turns = [];
  elapsed_ns = 2;
  closed_at_ns = 3;
  stopped_after = false;
  jitter = λ n. n;
}

abbrev saturated_attempt : Attempt
saturated_attempt = record {
  stopped = false;
  connection_id = "c2";
  opened_at_ns = 4;
  refused = none;
  turns = turn 0 ∷ turn 1 ∷ turn 0 ∷ [];
  elapsed_ns = 20;
  closed_at_ns = 24;
  stopped_after = false;
  jitter = λ n. n;
}

abbrev two_attempts : List Attempt
two_attempts = refused_attempt ∷ saturated_attempt ∷ []

run-IsRecorded_example :
    IsRecorded view parse_trade settings two_attempts fresh_socket
      (run_from view parse_trade settings 0 two_attempts fresh_socket)
run-IsRecorded_example =
    run-IsRecorded view parse_trade settings 0 two_attempts fresh_socket
      ((λ n. omega arith), ((λ n. omega arith), tt))
