-- ===== src/Recorder/Sequence.antt =====
-- `_observe` of exchange/binance_usdm/websocket.py: counters of messages, and of gaps and regressions
-- in the ids of aggregate trades.
use binance_algo.Base.{
  leb, ◌-◌, ◌+◌, ltb, str_eq, not, if◌then◌else◌, ℕ, String, Option, none, some, List, [], ◌∷◌,
}

-- A `Counter`: a missing key counts zero.
abbrev pub Counter : Type 0
Counter = String → ℕ

abbrev pub add : String → ℕ → Counter → Counter
add k n c j = if str_eq k j then c j + n else c j

-- CanonicalStreamEvent: the fields that `_observe` reads; the id is read of aggregate trades only.
pub record StreamEvent : Type 0 where
  pub event_type : String
  pub symbol : String
  pub aggregate_trade_id : ℕ

-- WebSocketRunStats, and `_last_aggregate_trade_id`.
pub record Observed : Type 0 where
  pub messages_by_stream : Counter
  pub messages_by_symbol : Counter
  pub sequence_gaps_by_symbol : Counter
  pub sequence_regressions_by_symbol : Counter
  pub last_aggregate_trade_id : String → Option ℕ

abbrev counted : StreamEvent → Observed → Observed
counted e s = record s {
  messages_by_stream = add e.event_type 1 s.messages_by_stream;
  messages_by_symbol = add e.symbol 1 s.messages_by_symbol;
}

-- `current > previous + 1`, then `current <= previous`
abbrev compared : StreamEvent → Option ℕ → Observed → Observed
compared e none s = s
compared e (some previous) s =
    if ltb (previous + 1) e.aggregate_trade_id
    then record s {
      sequence_gaps_by_symbol =
          add e.symbol (e.aggregate_trade_id - previous - 1) s.sequence_gaps_by_symbol;
    }
    else if leb e.aggregate_trade_id previous
    then record s {
      sequence_regressions_by_symbol = add e.symbol 1 s.sequence_regressions_by_symbol;
    }
    else s

unfoldable pub observe : StreamEvent → Observed → Observed
observe e s =
    let s₁ = counted e s in
    if not (str_eq e.event_type "aggregate_trades")
    then s₁
    else let s₂ = compared e (s.last_aggregate_trade_id e.symbol) s₁ in
      record s₂ {
        last_aggregate_trade_id = λ k.
            if str_eq e.symbol k then some e.aggregate_trade_id else s.last_aggregate_trade_id k;
      }

unfoldable pub observe_all : List StreamEvent → Observed → Observed
observe_all [] s = s
observe_all (e ∷ es) s = observe_all es (observe e s)
