-- ===== src/Streams/Parsers.antt =====
-- `_book_ticker`, `_aggregate_trade`, `_mark_price`, `_kline` and `parse_combined_message` of
-- exchange/binance_usdm/public_streams.py.
use Prim.Native.Char.{code}
use Prim.Native.String
use binance_algo.Base.{
  ℕ, String, Bool, Option, none, some, ◌∷◌, Result, ok, err, if◌then◌else◌, not, ◌&&◌, ◌||◌, str_eq,
  is_some, ◌==◌,
}
use binance_algo.Streams.Json.{
  Json, Members, StreamError, ◌>>=◌, ◌>>◌, fail_if, get, is_text, text, invalid_json, not_an_object,
  missing_stream_or_data, server_shutdown, symbol_mismatch, unsupported_stream,
  unexpected_event_type, different_interval, pos,
}
use binance_algo.Streams.Schemas.{
  written, whole, real, flag, book_ticker, aggregate_trades, mark_price, kline_1m,
}
use binance_algo.Streams.Fields.{
  Library, Common, CanonicalStreamEvent, event, trailing, integer_at, string_at, flag_at, dict_at,
  decimal_at,
}

-- `name.partition("@")[0]`
unfoldable pub before_at : String → String
before_at String.[] = String.[]
before_at (String.◌∷◌ c s) = if code c == b'@' then String.[] else String.◌∷◌ c (before_at s)

-- `name.endswith(suffix)`
unfoldable pub endswith : String → String → Bool
endswith suffix String.[] = str_eq String.[] suffix
endswith suffix (String.◌∷◌ c s) = str_eq (String.◌∷◌ c s) suffix || endswith suffix s

-- When and on which connection a message arrived; `processed_at` is the clock's reading.
pub record Receipt : Type 0 where
  pub received_time_ns : ℕ
  pub connection_id : String
  pub ingestion_run_id : String
  pub processed_time_ns : Option ℕ
  pub processed_at : ℕ

module _ (lib : Library) where
  abbrev pub Parsed : Type 0
  Parsed = Result StreamError (CanonicalStreamEvent lib.Float)

  unfoldable pub parse_book_ticker : String → Members → Common → Parsed
  parse_book_ticker name payload common = do
    fail_if (not (is_text "bookTicker" (get "e" payload))) (unexpected_event_type "bookTicker")
    event_time ← integer_at payload "E"
    bid_price ← decimal_at lib payload "b"
    bid_qty ← decimal_at lib payload "B"
    ask_price ← decimal_at lib payload "a"
    ask_qty ← decimal_at lib payload "A"
    symbol ← string_at payload "s"
    update_id ← integer_at payload "u"
    transaction_time ← integer_at payload "T"
    ok (
        event book_ticker name (
          ("event_id", written common.event_id)
          ∷ ("symbol", written symbol)
          ∷ ("update_id", whole update_id)
          ∷ ("bid_price_str", written bid_price.0)
          ∷ ("bid_qty_str", written bid_qty.0)
          ∷ ("ask_price_str", written ask_price.0)
          ∷ ("ask_qty_str", written ask_qty.0)
          ∷ ("bid_price", real bid_price.1)
          ∷ ("bid_qty", real bid_qty.1)
          ∷ ("ask_price", real ask_price.1)
          ∷ ("ask_qty", real ask_qty.1)
          ∷ ("event_time_ms", whole event_time)
          ∷ ("transaction_time_ms", whole transaction_time)
          ∷ trailing common))

  unfoldable pub parse_aggregate_trade : String → Members → Common → Parsed
  parse_aggregate_trade name payload common = do
    fail_if (not (is_text "aggTrade" (get "e" payload))) (unexpected_event_type "aggTrade")
    event_time ← integer_at payload "E"
    buyer_is_maker ← flag_at payload "m"
    price ← decimal_at lib payload "p"
    quantity ← decimal_at lib payload "q"
    symbol ← string_at payload "s"
    trade_id ← integer_at payload "a"
    first_id ← integer_at payload "f"
    last_id ← integer_at payload "l"
    trade_time ← integer_at payload "T"
    ok (
        event aggregate_trades name (
          ("event_id", written common.event_id)
          ∷ ("symbol", written symbol)
          ∷ ("aggregate_trade_id", whole trade_id)
          ∷ ("price_str", written price.0)
          ∷ ("quantity_str", written quantity.0)
          ∷ ("price", real price.1)
          ∷ ("quantity", real quantity.1)
          ∷ ("first_trade_id", whole first_id)
          ∷ ("last_trade_id", whole last_id)
          ∷ ("trade_time_ms", whole trade_time)
          ∷ ("buyer_is_maker", flag buyer_is_maker)
          ∷ ("event_time_ms", whole event_time)
          ∷ trailing common))

  unfoldable pub parse_mark_price : String → Members → Common → Parsed
  parse_mark_price name payload common = do
    fail_if (not (is_text "markPriceUpdate" (get "e" payload))) (unexpected_event_type "markPrice")
    event_time ← integer_at payload "E"
    mark ← decimal_at lib payload "p"
    index ← decimal_at lib payload "i"
    settle ← decimal_at lib payload "P"
    funding ← decimal_at lib payload "r"
    symbol ← string_at payload "s"
    next_funding ← integer_at payload "T"
    ok (
        event mark_price name (
          ("event_id", written common.event_id)
          ∷ ("symbol", written symbol)
          ∷ ("mark_price_str", written mark.0)
          ∷ ("index_price_str", written index.0)
          ∷ ("estimated_settle_price_str", written settle.0)
          ∷ ("funding_rate_str", written funding.0)
          ∷ ("mark_price", real mark.1)
          ∷ ("index_price", real index.1)
          ∷ ("estimated_settle_price", real settle.1)
          ∷ ("funding_rate", real funding.1)
          ∷ ("next_funding_time_ms", whole next_funding)
          ∷ ("event_time_ms", whole event_time)
          ∷ trailing common))

  unfoldable pub parse_kline : String → Members → Common → Parsed
  parse_kline name payload common = do
    fail_if (not (is_text "kline" (get "e" payload))) (unexpected_event_type "kline")
    event_time ← integer_at payload "E"
    kline ← dict_at payload "k"
    fail_if (not (is_text "1m" (get "i" kline))) (different_interval "kline_1m")
    closed ← flag_at kline "x"
    open_price ← decimal_at lib kline "o"
    high_price ← decimal_at lib kline "h"
    low_price ← decimal_at lib kline "l"
    close_price ← decimal_at lib kline "c"
    base_volume ← decimal_at lib kline "v"
    quote_volume ← decimal_at lib kline "q"
    taker_base ← decimal_at lib kline "V"
    taker_quote ← decimal_at lib kline "Q"
    symbol ← string_at payload "s"
    interval ← string_at kline "i"
    open_time ← integer_at kline "t"
    close_time ← integer_at kline "T"
    trade_count ← integer_at kline "n"
    ok (
        event kline_1m name (
          ("event_id", written common.event_id)
          ∷ ("symbol", written symbol)
          ∷ ("interval", written interval)
          ∷ ("open_time_ms", whole open_time)
          ∷ ("close_time_ms", whole close_time)
          ∷ ("open", real open_price.1)
          ∷ ("high", real high_price.1)
          ∷ ("low", real low_price.1)
          ∷ ("close", real close_price.1)
          ∷ ("base_volume", real base_volume.1)
          ∷ ("quote_volume", real quote_volume.1)
          ∷ ("trade_count", whole trade_count)
          ∷ ("taker_buy_base_volume", real taker_base.1)
          ∷ ("taker_buy_quote_volume", real taker_quote.1)
          ∷ ("is_closed", flag closed)
          ∷ ("event_time_ms", whole event_time)
          ∷ ("ingested_at_ns", whole (pos common.received_time_ns))
          ∷ trailing common))

  -- The choice of a parser by the suffix of the stream's name.
  unfoldable pub parse_event : String → Members → Common → Parsed
  parse_event name payload common =
      if endswith "@bookTicker" name
      then parse_book_ticker name payload common
      else if endswith "@aggTrade" name
      then parse_aggregate_trade name payload common
      else if endswith "@markPrice" name || endswith "@markPrice@1s" name
      then parse_mark_price name payload common
      else if endswith "@kline_1m" name
      then parse_kline name payload common
      else err (unsupported_stream name)

  abbrev pub processed : Receipt → ℕ
  processed r = elim r.processed_time_ns [ none ↦ r.processed_at | some t ↦ t ]

  -- `sha256(f"{stream_name}\x1f{canonical_payload}")`
  abbrev pub event_id_of : String → Members → String
  event_id_of name payload =
      lib.sha256 (String.◌++◌ name (String.◌++◌ "\u{1f}" (lib.dumps payload)))

  abbrev pub common_of : Receipt → String → Members → Common
  common_of r name payload = record {
    event_id = event_id_of name payload;
    received_time_ns = r.received_time_ns;
    processed_time_ns = processed r;
    connection_id = r.connection_id;
    ingestion_run_id = r.ingestion_run_id;
    source = "binance_market_stream";
    schema_version = 1;
    payload_json = lib.dumps payload;
  }

  -- A payload of a stream.
  unfoldable pub parse_payload : Receipt → String → Members → Parsed
  parse_payload r name payload = do
    fail_if (is_text "serverShutdown" (get "e" payload)) server_shutdown
    let symbol = lib.upper (before_at name)
    fail_if (str_eq symbol "" || not (is_text symbol (get "s" payload))) symbol_mismatch
    parse_event name payload (common_of r name payload)

  abbrev pub parse_stream : Receipt → Option Json → Option Json → Parsed
  parse_stream r (some (text name)) (some (Json.object payload)) = parse_payload r name payload
  parse_stream r _ _ = err missing_stream_or_data

  abbrev pub parse_document :
      Receipt → Json → Result StreamError (Option (CanonicalStreamEvent lib.Float))
  parse_document r (Json.object document) =
      if is_some (get "result" document) && is_some (get "id" document)
      then ok none
      else (parse_stream r (get "stream" document) (get "data" document) >>= λ e. ok (some e))
  parse_document r _ = err not_an_object

  -- `parse_combined_message`
  unfoldable pub parse_combined_message :
      Receipt → String → Result StreamError (Option (CanonicalStreamEvent lib.Float))
  parse_combined_message r message = elim (lib.loads message) [
    | none ↦ err invalid_json
    | some document ↦ parse_document r document
  ]
