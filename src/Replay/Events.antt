-- ===== src/Replay/Events.antt =====
-- `_replay_event` and `events` of data/replay.py: the rows of the query as events.
use binance_algo.Base.{ℕ, String, Option, none, some, List, [], ◌∷◌, Result, ok, err}
use binance_algo.Streams.Schemas.{StreamEventType}
use binance_algo.Recorder.Inspection.{event_type_of}

-- A row of the query: its columns, where a missing value is `None`. `Data` is the other columns.
pub record ReplayRow (Data : Type 0) : Type 0 where
  pub replay_event_type : String
  pub event_id : Option String
  pub symbol : Option String
  pub event_time_ms : Option ℕ
  pub received_time_ns : Option ℕ
  pub connection_id : Option String
  pub ingestion_run_id : Option String
  pub payload_json : Option String
  pub columns : Data

pub record ReplayEvent (Data : Type 0) : Type 0 where
  pub event_type : StreamEventType
  pub event_id : String
  pub symbol : String
  pub event_time_ms : ℕ
  pub received_time_ns : ℕ
  pub connection_id : String
  pub ingestion_run_id : String
  pub payload_json : String
  pub columns : Data

-- ReplayError, by what its message says.
pub data ReplayError : Type 0 where
  unexpected_event_type missing_fields unsupported_dataset : String → ReplayError
  unreadable : String → ReplayError
  bad_speed bad_window backward_clock not_deterministic : ReplayError
  no_files no_input no_datasets duplicate_datasets : ReplayError
  missing_datasets unsupported_datasets : List String → ReplayError

infixl 5 ◌>>=◌
abbrev pub ◌>>=◌ {ℓ κ} :
    {A : Type ℓ} {B : Type κ}
    → Result ReplayError A
    → (A → Result ReplayError B)
    → Result ReplayError B
ok a >>= f = f a
err e >>= f = err e

infixl 5 ◌>>◌
abbrev pub ◌>>◌ {ℓ κ} :
    {A : Type ℓ} {B : Type κ} → Result ReplayError A → Result ReplayError B → Result ReplayError B
m >> k = m >>= λ _. k

-- `any(row.get(column) is None for column in required)`
abbrev present {ℓ} : {A : Type ℓ} → String → Option A → Result ReplayError A
present event_type none = err (missing_fields event_type)
present event_type (some a) = ok a

abbrev known_type : String → Option StreamEventType → Result ReplayError StreamEventType
known_type name none = err (unexpected_event_type name)
known_type name (some t) = ok t

-- What a generator yields before it ends, or raises.
pub data Yielded (Data : Type 0) : Type 0 where
  exhausted : Yielded Data
  raised : ReplayError → Yielded Data
  yielded : ReplayEvent Data → Yielded Data → Yielded Data

module _ {Data : Type 0} where
  -- `_replay_event`
  unfoldable pub replay_event : ReplayRow Data → Result ReplayError (ReplayEvent Data)
  unfolding event_type_of
  replay_event r = do
    event_type ← known_type r.replay_event_type (event_type_of r.replay_event_type)
    event_id ← present r.replay_event_type r.event_id
    symbol ← present r.replay_event_type r.symbol
    event_time ← present r.replay_event_type r.event_time_ms
    received_time ← present r.replay_event_type r.received_time_ns
    connection_id ← present r.replay_event_type r.connection_id
    ingestion_run_id ← present r.replay_event_type r.ingestion_run_id
    payload ← present r.replay_event_type r.payload_json
    ok (record {
      event_type = event_type;
      event_id = event_id;
      symbol = symbol;
      event_time_ms = event_time;
      received_time_ns = received_time;
      connection_id = connection_id;
      ingestion_run_id = ingestion_run_id;
      payload_json = payload;
      columns = r.columns;
    })

  abbrev yield_next : Result ReplayError (ReplayEvent Data) → Yielded Data → Yielded Data
  yield_next (ok e) rest = yielded e rest
  yield_next (err e) rest = raised e

  -- The loop of `events` over the rows; `failure` is an error of DuckDB after them.
  unfoldable pub events : List (ReplayRow Data) → Option String → Yielded Data
  unfolding replay_event
  events [] none = exhausted
  events [] (some failure) = raised (unreadable failure)
  events (r ∷ rs) failure = yield_next (replay_event r) (events rs failure)
