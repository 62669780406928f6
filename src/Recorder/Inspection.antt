-- ===== src/Recorder/Inspection.antt =====
-- `_inspect_recorder_parquet` and `_checkpoint` of data/writer.py.
use binance_algo.Base.{
  ℕ, String, Bool, true, false, Option, none, some, List, [], ◌∷◌, map, Result, ok, err, ◌&&◌, not,
  leb, ◌==◌, str_eq, if◌then◌else◌, contains,
}
use Prim.Native.Nat.{min, max}
use Prim.Native.String
use binance_algo.Streams.Json.{◌>>=◌, ◌>>◌, fail_if}
use binance_algo.Streams.Schemas.{
  StreamEventType, Schema, Dtype, stream_schema, book_ticker, aggregate_trades, mark_price,
  kline_1m, string, int64, int32, float64, boolean,
}

-- The columns of a row of recorded events that recovery reads.
pub record FrameRow : Type 0 where
  pub event_id : String
  pub symbol : String
  pub event_time_ms : ℕ
  pub received_time_ns : ℕ
  pub ingestion_run_id : String

-- A frame: its columns with their types, and its rows.
pub record Frame : Type 0 where
  pub schema : Schema
  pub rows : List FrameRow

-- RecorderError and DataContractError, by what the message says.
pub data InspectError : Type 0 where
  unidentified unreadable bad_schema mixed_contents other_symbol other_run : InspectError
  unsupported : String → InspectError

abbrev pub name_of : StreamEventType → String
name_of book_ticker = "book_ticker"
name_of aggregate_trades = "aggregate_trades"
name_of mark_price = "mark_price"
name_of kline_1m = "kline_1m"

-- `name in STREAM_EVENT_TYPES`
unfoldable pub event_type_of : String → Option StreamEventType
event_type_of name =
    if str_eq name "book_ticker"
    then some book_ticker
    else if str_eq name "aggregate_trades"
    then some aggregate_trades
    else if str_eq name "mark_price"
    then some mark_price
    else if str_eq name "kline_1m"
    then some kline_1m
    else none

abbrev dtype_index : Dtype → ℕ
dtype_index string = 0
dtype_index int64 = 1
dtype_index int32 = 2
dtype_index float64 = 3
dtype_index boolean = 4

-- The same columns in the same order, with the same types.
unfoldable pub same_schema : Schema → Schema → Bool
same_schema [] [] = true
same_schema ((k, t) ∷ s) ((j, u) ∷ r) =
    str_eq k j && dtype_index t == dtype_index u && same_schema s r
same_schema _ _ = false

-- `unique()`
unfoldable pub distinct : List String → List String
distinct [] = []
distinct (s ∷ ss) = let rest = distinct ss in if contains s ss then rest else s ∷ rest

-- The part after the first `usdm`.
abbrev first_of : List String → Option String
first_of [] = none
first_of (p ∷ ps) = some p

unfoldable pub after_usdm : List String → Option String
after_usdm [] = none
after_usdm (p ∷ ps) = if str_eq p "usdm" then first_of ps else after_usdm ps

-- What a recorder file was found to be, with the rows of its frame, of which there is one at least.
pub record Inspected : Type 0 where
  pub first : FrameRow
  pub rest : List FrameRow
  pub event_type : StreamEventType
  pub symbol : String
  pub run_id : String

abbrev or_fail {ℓ} : {A : Type ℓ} → Option A → InspectError → Result InspectError A
or_fail none e = err e
or_fail (some a) e = ok a

abbrev single : List String → Option String
single (s ∷ []) = some s
single _ = none

-- The rows, if there are any.
abbrev some_rows : List FrameRow → Option (FrameRow × List FrameRow)
some_rows [] = none
some_rows (r ∷ rs) = some (r, rs)

-- `expected is not None and expected != observed`
abbrev differs : Option String → String → Bool
differs none observed = false
differs (some expected) observed = not (str_eq expected observed)

-- `parts` is `parquet.parts`, and `read` is `pl.read_parquet`, `none` where it raises.
module _ (parts : String → List String) (read : String → Option Frame) where
  abbrev candidate : String → Option String → Option String
  candidate parquet (some event_type) = some event_type
  candidate parquet none = after_usdm (parts parquet)

  -- `_inspect_recorder_parquet`
  unfoldable pub inspect :
      String → Option String → Option String → Option String → Result InspectError Inspected
  unfolding after_usdm event_type_of same_schema distinct stream_schema ◌>>=◌
  inspect parquet event_type symbol run_id = do
    name ← or_fail (candidate parquet event_type) unidentified
    found_type ← or_fail (event_type_of name) (unsupported name)
    frame ← or_fail (read parquet) unreadable
    rows ← or_fail (some_rows frame.rows) bad_schema
    fail_if (not (same_schema frame.schema (stream_schema found_type))) bad_schema
    found_symbol ← or_fail (single (distinct (map (λ r. r.symbol) frame.rows))) mixed_contents
    found_run ←
        or_fail (single (distinct (map (λ r. r.ingestion_run_id) frame.rows))) mixed_contents
    fail_if (differs symbol found_symbol) other_symbol
    fail_if (differs run_id found_run) other_run
    ok (record {
      first = rows.0;
      rest = rows.1;
      event_type = found_type;
      symbol = found_symbol;
      run_id = found_run;
    })

-- The last row by `received_time_ns`; of equal ones, the last of the frame.
unfoldable pub last_row : FrameRow → List FrameRow → FrameRow
last_row best [] = best
last_row best (r ∷ rs) =
    last_row (if leb best.received_time_ns r.received_time_ns then r else best) rs

-- `frame["event_time_ms"].min()` and `.max()`
unfoldable pub first_time : FrameRow → List FrameRow → ℕ
first_time r [] = r.event_time_ms
first_time r (s ∷ rs) = min r.event_time_ms (first_time s rs)

unfoldable pub last_time : FrameRow → List FrameRow → ℕ
last_time r [] = r.event_time_ms
last_time r (s ∷ rs) = max r.event_time_ms (last_time s rs)

-- The document of a checkpoint.
pub record Checkpoint : Type 0 where
  pub event_id : String
  pub event_time_ms : ℕ
  pub received_time_ns : ℕ
  pub file_id : String
  pub ingestion_run_id : String

abbrev checkpoint_of_row : FrameRow → String → String → Checkpoint
checkpoint_of_row r run_id file_id = record {
  event_id = r.event_id;
  event_time_ms = r.event_time_ms;
  received_time_ns = r.received_time_ns;
  file_id = file_id;
  ingestion_run_id = run_id;
}

-- `dumps` is `orjson.dumps` with sorted keys.
module _ (dumps : Checkpoint → String) where
  unfoldable pub checkpoint_text : Inspected → String → String
  unfolding last_row
  checkpoint_text i file_id = dumps (checkpoint_of_row (last_row i.first i.rest) i.run_id file_id)

unfoldable pub stream_key_of : Inspected → String
stream_key_of i = String.◌++◌ (name_of i.event_type) (String.◌++◌ ":" i.symbol)
