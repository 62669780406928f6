-- ===== src/Streams/Schemas.antt =====
-- The schemas of exchange/binance_usdm/public_streams.py, and rows that conform to one.
use binance_algo.Base.{String, Bool, List, [], ◌∷◌, ◌++◌, ◌≡◌}
use binance_algo.Streams.Json.{ℤ}

-- `StreamEventType`
pub data StreamEventType : Type 0 where
  book_ticker aggregate_trades mark_price kline_1m : StreamEventType

-- `STREAM_EVENT_TYPES`
abbrev pub stream_event_types : List StreamEventType
stream_event_types = book_ticker ∷ aggregate_trades ∷ mark_price ∷ kline_1m ∷ []

-- The data types of polars that the schemas use.
pub data Dtype : Type 0 where
  string int64 int32 float64 boolean : Dtype

abbrev pub Schema : Type 0
Schema = List (String × Dtype)

abbrev pub common_schema : Schema
common_schema = ("event_id", string) ∷ ("symbol", string) ∷ []

abbrev pub trailing_schema : Schema
trailing_schema =
    ("received_time_ns", int64)
    ∷ ("processed_time_ns", int64)
    ∷ ("connection_id", string)
    ∷ ("ingestion_run_id", string)
    ∷ ("source", string)
    ∷ ("schema_version", int32)
    ∷ ("payload_json", string)
    ∷ []

abbrev pub own_schema : StreamEventType → Schema
own_schema book_ticker =
    ("update_id", int64)
    ∷ ("bid_price_str", string)
    ∷ ("bid_qty_str", string)
    ∷ ("ask_price_str", string)
    ∷ ("ask_qty_str", string)
    ∷ ("bid_price", float64)
    ∷ ("bid_qty", float64)
    ∷ ("ask_price", float64)
    ∷ ("ask_qty", float64)
    ∷ ("event_time_ms", int64)
    ∷ ("transaction_time_ms", int64)
    ∷ []
own_schema aggregate_trades =
    ("aggregate_trade_id", int64)
    ∷ ("price_str", string)
    ∷ ("quantity_str", string)
    ∷ ("price", float64)
    ∷ ("quantity", float64)
    ∷ ("first_trade_id", int64)
    ∷ ("last_trade_id", int64)
    ∷ ("trade_time_ms", int64)
    ∷ ("buyer_is_maker", boolean)
    ∷ ("event_time_ms", int64)
    ∷ []
own_schema mark_price =
    ("mark_price_str", string)
    ∷ ("index_price_str", string)
    ∷ ("estimated_settle_price_str", string)
    ∷ ("funding_rate_str", string)
    ∷ ("mark_price", float64)
    ∷ ("index_price", float64)
    ∷ ("estimated_settle_price", float64)
    ∷ ("funding_rate", float64)
    ∷ ("next_funding_time_ms", int64)
    ∷ ("event_time_ms", int64)
    ∷ []
own_schema kline_1m =
    ("interval", string)
    ∷ ("open_time_ms", int64)
    ∷ ("close_time_ms", int64)
    ∷ ("open", float64)
    ∷ ("high", float64)
    ∷ ("low", float64)
    ∷ ("close", float64)
    ∷ ("base_volume", float64)
    ∷ ("quote_volume", float64)
    ∷ ("trade_count", int64)
    ∷ ("taker_buy_base_volume", float64)
    ∷ ("taker_buy_quote_volume", float64)
    ∷ ("is_closed", boolean)
    ∷ ("event_time_ms", int64)
    ∷ ("ingested_at_ns", int64)
    ∷ []

-- `STREAM_SCHEMAS`
unfoldable pub stream_schema : StreamEventType → Schema
stream_schema t = common_schema ++ (own_schema t ++ trailing_schema)

-- The values of a row; `Float` is the type of Python's floats.
pub data Value (Float : Type 0) : Type 0 where
  whole : ℤ → Value Float
  real : Float → Value Float
  written : String → Value Float
  flag : Bool → Value Float

abbrev pub Row : Type 0 → Type 0
Row Float = List (String × Value Float)

-- The kind of a value is that of a column; the parsers do not test whether an integer fits its width.
abbrev pub HasKind : {Float : Type 0} → Value Float → Dtype → Type 0
HasKind (written s) string = Unit
HasKind (whole n) int64 = Unit
HasKind (whole n) int32 = Unit
HasKind (real x) float64 = Unit
HasKind (flag b) boolean = Unit
HasKind _ _ = ⊥

-- The columns of the schema in its order, each with a value of its kind.
abbrev pub Conforms : {Float : Type 0} → Row Float → Schema → Type 0
Conforms [] [] = Unit
Conforms ((k, v) ∷ row) ((c, t) ∷ schema) = (k ≡ c) × HasKind v t × Conforms row schema
Conforms _ _ = ⊥
