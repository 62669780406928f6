-- ===== src/Streams/Fields.antt =====
-- `_required`, `_integer`, `_string` and `_decimal` of exchange/binance_usdm/public_streams.py, what
-- the parsers use of other packages, and the values that the parsers share.
use binance_algo.Base.{
  ℕ, String, Bool, true, false, Option, none, some, [], ◌∷◌, Result, ok, err, if◌then◌else◌, str_eq,
}
use binance_algo.Streams.Json.{
  ℤ, pos, Json, Members, StreamError, ◌>>=◌, get, invalid_type, not_an_integer, not_numeric,
  not_finite, text, integer,
}
use binance_algo.Streams.Schemas.{Value, Row, written, whole, StreamEventType}

-- Python's floats with `float` of a text (`none` where it raises `ValueError`) and `math.isfinite`,
-- `str.upper`, orjson, and hashlib's SHA-256 of a text.
pub record Library : Type 1 where
  pub Float : Type 0
  pub float : String → Option Float
  pub is_finite : Float → Bool
  pub upper : String → String
  pub loads : String → Option Json
  pub dumps : Members → String
  pub sha256 : String → String

-- The classes that `_required` is asked for.
pub data Class : Type 0 where
  int_class str_class bool_class dict_class : Class

-- `isinstance(value, expected)`: a `bool` is an `int`.
abbrev pub isinstance : Json → Class → Bool
isinstance (Json.boolean b) int_class = true
isinstance (Json.boolean b) bool_class = true
isinstance (integer n) int_class = true
isinstance (text s) str_class = true
isinstance (Json.object m) dict_class = true
isinstance _ _ = false

abbrev checked : String → Class → Option Json → Result StreamError Json
checked k c none = err (invalid_type k)
checked k c (some v) = if isinstance v c then ok v else err (invalid_type k)

-- `_required`
unfoldable pub required : Members → String → Class → Result StreamError Json
unfolding get
required payload k c = checked k c (get k payload)

-- The casts after `_required`.
abbrev as_integer : String → Json → Result StreamError ℤ
as_integer k (integer n) = ok n
as_integer k _ = err (not_an_integer k)

abbrev as_text : String → Json → Result StreamError String
as_text k (text s) = ok s
as_text k _ = err (invalid_type k)

abbrev as_flag : String → Json → Result StreamError Bool
as_flag k (Json.boolean b) = ok b
as_flag k _ = err (invalid_type k)

abbrev as_dict : String → Json → Result StreamError Members
as_dict k (Json.object m) = ok m
as_dict k _ = err (invalid_type k)

-- `_integer`
unfoldable pub integer_at : Members → String → Result StreamError ℤ
unfolding required
integer_at payload k = do value ← required payload k int_class; as_integer k value

-- `_string`
unfoldable pub string_at : Members → String → Result StreamError String
unfolding required
string_at payload k = do value ← required payload k str_class; as_text k value

-- `_required(payload, key, bool)`
unfoldable pub flag_at : Members → String → Result StreamError Bool
unfolding required
flag_at payload k = do value ← required payload k bool_class; as_flag k value

-- `_required(payload, key, dict)`
unfoldable pub dict_at : Members → String → Result StreamError Members
unfolding required
dict_at payload k = do value ← required payload k dict_class; as_dict k value

module _ (lib : Library) where
  abbrev finite : String → String → Option lib.Float → Result StreamError (String × lib.Float)
  finite k raw none = err (not_numeric k)
  finite k raw (some x) = if lib.is_finite x then ok (raw, x) else err (not_finite k)

  -- `_decimal`
  unfoldable pub decimal_at : Members → String → Result StreamError (String × lib.Float)
  unfolding string_at
  decimal_at payload k = do raw ← string_at payload k; finite k raw (lib.float raw)

-- The dictionary `common`.
pub record Common : Type 0 where
  pub event_id : String
  pub received_time_ns : ℕ
  pub processed_time_ns : ℕ
  pub connection_id : String
  pub ingestion_run_id : String
  pub source : String
  pub schema_version : ℕ
  pub payload_json : String

-- `{key: value for key, value in common.items() if key != "event_id"}`
abbrev pub trailing : {Float : Type 0} → Common → Row Float
trailing c =
    ("received_time_ns", whole (pos c.received_time_ns))
    ∷ ("processed_time_ns", whole (pos c.processed_time_ns))
    ∷ ("connection_id", written c.connection_id)
    ∷ ("ingestion_run_id", written c.ingestion_run_id)
    ∷ ("source", written c.source)
    ∷ ("schema_version", whole (pos c.schema_version))
    ∷ ("payload_json", written c.payload_json)
    ∷ []

-- The fields that `_event` reads back from the row.
pub record CanonicalStreamEvent (Float : Type 0) : Type 0 where
  pub event_type : StreamEventType
  pub stream_name : String
  pub symbol : Option (Value Float)
  pub event_time_ms : Option (Value Float)
  pub received_time_ns : Option (Value Float)
  pub processed_time_ns : Option (Value Float)
  pub connection_id : Option (Value Float)
  pub ingestion_run_id : Option (Value Float)
  pub event_id : Option (Value Float)
  pub row : Row Float

-- `row[key]`, `none` where it raises `KeyError`.
unfoldable pub column_of : {Float : Type 0} → String → Row Float → Option (Value Float)
column_of k [] = none
column_of k ((j, v) ∷ row) = if str_eq j k then some v else column_of k row

-- `_event`
abbrev pub event :
    {Float : Type 0} → StreamEventType → String → Row Float → CanonicalStreamEvent Float
unfolding column_of
event t name row = record {
  event_type = t;
  stream_name = name;
  symbol = column_of "symbol" row;
  event_time_ms = column_of "event_time_ms" row;
  received_time_ns = column_of "received_time_ns" row;
  processed_time_ns = column_of "processed_time_ns" row;
  connection_id = column_of "connection_id" row;
  ingestion_run_id = column_of "ingestion_run_id" row;
  event_id = column_of "event_id" row;
  row = row;
}
