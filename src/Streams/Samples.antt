-- ===== src/Streams/Samples.antt =====
-- A message of a stream of aggregate trades.
use binance_algo.Base.{ℕ, true, none, some, [], ◌∷◌, ok, ◌≡◌, refl}
use binance_algo.Streams.Json.{
  Members, member, no_members, object, text, integer, pos, boolean, get, ◌>>=◌,
}
use binance_algo.Streams.Schemas.{written, whole, real, flag, aggregate_trades, Row}
use binance_algo.Streams.Fields.{
  Library, CanonicalStreamEvent, event, column_of, required, integer_at, string_at, flag_at,
  decimal_at,
}
use binance_algo.Streams.Parsers.{
  Receipt, parse_combined_message, parse_payload, parse_event, parse_aggregate_trade, before_at,
  endswith,
}
use binance_algo.Streams.Conformance.{parse_combined_message-IsEventOf, IsEventOf}

abbrev pub trade_payload : Members
trade_payload = member "e" (text "aggTrade") (
    member "E" (integer (pos 1_700)) (
      member "s" (text "BTCUSDT") (
        member "a" (integer (pos 7)) (
          member "p" (text "10.5") (
            member "q" (text "2") (
              member "f" (integer (pos 70)) (
                member "l" (integer (pos 72))
                  (member "T" (integer (pos 1_699)) (member "m" (boolean true) no_members)))))))))

abbrev pub trade_message : Members
trade_message =
    member "stream" (text "btcusdt@aggTrade") (member "data" (object trade_payload) no_members)

-- Decimals are read as their number of tenths.
abbrev pub sample_library : Library
sample_library = record {
  Float = ℕ;
  float = λ s. some 105;
  is_finite = λ x. true;
  upper = λ s. "BTCUSDT";
  loads = λ s. some (object trade_message);
  dumps = λ m. "{}";
  sha256 = λ s. s;
}

abbrev sample_receipt : Receipt
sample_receipt = record {
  received_time_ns = 5;
  connection_id = "c1";
  ingestion_run_id = "r1";
  processed_time_ns = none;
  processed_at = 6;
}

abbrev trade_row : Row ℕ
trade_row =
    ("event_id", written "btcusdt@aggTrade\u{1f}{}")
    ∷ ("symbol", written "BTCUSDT")
    ∷ ("aggregate_trade_id", whole (pos 7))
    ∷ ("price_str", written "10.5")
    ∷ ("quantity_str", written "2")
    ∷ ("price", real 105)
    ∷ ("quantity", real 105)
    ∷ ("first_trade_id", whole (pos 70))
    ∷ ("last_trade_id", whole (pos 72))
    ∷ ("trade_time_ms", whole (pos 1_699))
    ∷ ("buyer_is_maker", flag true)
    ∷ ("event_time_ms", whole (pos 1_700))
    ∷ ("received_time_ns", whole (pos 5))
    ∷ ("processed_time_ns", whole (pos 6))
    ∷ ("connection_id", written "c1")
    ∷ ("ingestion_run_id", written "r1")
    ∷ ("source", written "binance_market_stream")
    ∷ ("schema_version", whole (pos 1))
    ∷ ("payload_json", written "{}")
    ∷ []

abbrev trade_event : CanonicalStreamEvent ℕ
trade_event = event aggregate_trades "btcusdt@aggTrade" trade_row

parses_trade :
    parse_combined_message sample_library sample_receipt "message" ≡ ok (some trade_event)
unfolding parse_combined_message parse_payload parse_event parse_aggregate_trade before_at endswith
    get required integer_at string_at flag_at decimal_at ◌>>=◌ column_of
parses_trade = refl

parse_combined_message-IsEventOf_example :
    (document : Members) × (sample_library.loads "message" ≡ some (object document))
    × IsEventOf sample_library sample_receipt document trade_event
parse_combined_message-IsEventOf_example =
    parse_combined_message-IsEventOf sample_library sample_receipt "message" parses_trade
