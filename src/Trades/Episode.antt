-- ===== src/Trades/Episode.antt =====
-- The loop of `reconstruct_trade_events` in research/trades.py over the rows of one fold and symbol,
-- in the order of their execution times. float64 is a type with the operations that the code uses.
use binance_algo.Base.{
  if◌then◌else◌, is_empty, ◌++◌, not, ◌==◌, ℕ, Bool, true, Option, none, some, List, [], ◌∷◌,
  Result, ok, err,
}

pub data Sign : Type 0 where
  short flat long : Sign

abbrev sign_index : Sign → ℕ
sign_index short = 0
sign_index flat = 1
sign_index long = 2

abbrev pub sign_eq : Sign → Sign → Bool
sign_eq a b = sign_index a == sign_index b

-- `above` is `x > 1e-15`, and `below` is `x < -1e-15`.
pub record Floats (F : Type 0) : Type 0 where
  pub zero_value : F
  pub plus : F → F → F
  pub minus : F → F → F
  pub times : F → F → F
  pub divided : F → F → F
  pub absolute : F → F
  pub maximum : F → F → F
  pub above : F → Bool
  pub below : F → Bool

-- The columns of a row of positions that the loop reads.
pub record PositionRow (F : Type 0) : Type 0 where
  pub execution_time_ms : ℕ
  pub label_end_time_ms : ℕ
  pub previous_weight : F
  pub target_weight : F
  pub trade_weight : F
  pub price_pnl : F
  pub funding_pnl : F
  pub allocated_fee : F
  pub allocated_spread_cost : F
  pub allocated_slippage_cost : F

-- `_OpenTrade`
pub record OpenTrade (F : Type 0) : Type 0 where
  pub entry_time_ms : ℕ
  pub side : Sign
  pub entry_weight : F
  pub maximum_weight : F
  pub price_return : F
  pub funding_return : F
  pub explicit_cost : F
  pub turnover : F

pub data ExitReason : Type 0 where
  direction_flip signal_exit fold_close : ExitReason

-- What `_closed_event` writes.
pub record TradeEvent (F : Type 0) : Type 0 where
  pub entry_time_ms : ℕ
  pub exit_time_ms : ℕ
  pub side : Sign
  pub entry_weight : F
  pub maximum_weight : F
  pub exit_reason : ExitReason
  pub price_return : F
  pub gross_return : F
  pub funding_return : F
  pub explicit_cost : F
  pub net_return : F
  pub turnover : F

-- `trade reconstruction left an open episode at fold end`
pub data TradeError : Type 0 where
  open_episode : TradeError

module _ {F : Type 0} (o : Floats F) where
  -- `_sign`
  unfoldable pub sign_of : F → Sign
  sign_of x = if o.above x then long else if o.below x then short else flat

  abbrev pub target_sign : PositionRow F → Sign
  target_sign r = sign_of r.target_weight

  abbrev pub is_flat : PositionRow F → Bool
  is_flat r = sign_eq (target_sign r) flat

  abbrev explicit : PositionRow F → F
  explicit r = o.plus (o.plus r.allocated_fee r.allocated_spread_cost) r.allocated_slippage_cost

  abbrev rate : PositionRow F → F
  rate r = if o.above r.trade_weight then o.divided (explicit r) r.trade_weight else o.zero_value

  -- Cost and turnover of a traded weight.
  abbrev charged : PositionRow F → F → OpenTrade F → OpenTrade F
  charged r weight t = record t {
    explicit_cost = o.plus t.explicit_cost (o.times weight (rate r));
    turnover = o.plus t.turnover weight;
  }

  -- `_closed_event`
  unfoldable pub closed_event : OpenTrade F → ℕ → ExitReason → TradeEvent F
  closed_event t exit_time_ms reason =
      let gross = o.plus t.price_return t.funding_return in
      record {
        entry_time_ms = t.entry_time_ms;
        exit_time_ms = exit_time_ms;
        side = t.side;
        entry_weight = t.entry_weight;
        maximum_weight = t.maximum_weight;
        exit_reason = reason;
        price_return = t.price_return;
        gross_return = gross;
        funding_return = t.funding_return;
        explicit_cost = t.explicit_cost;
        net_return = o.minus gross t.explicit_cost;
        turnover = t.turnover;
      }

  -- The exit on a row of another direction.
  unfoldable pub exited : OpenTrade F → PositionRow F → TradeEvent F
  exited t r =
      closed_event (charged r (o.absolute r.previous_weight) t) r.execution_time_ms
        (if is_flat r then signal_exit else direction_flip)

  -- The exit at the last row of the fold.
  unfoldable pub fold_closed : OpenTrade F → PositionRow F → TradeEvent F
  fold_closed t r =
      closed_event (charged r (o.absolute r.target_weight) t) r.label_end_time_ms fold_close

  unfoldable pub entered : PositionRow F → OpenTrade F
  entered r = record {
    entry_time_ms = r.execution_time_ms;
    side = target_sign r;
    entry_weight = r.target_weight;
    maximum_weight = o.absolute r.target_weight;
    price_return = o.zero_value;
    funding_return = o.zero_value;
    explicit_cost = o.times (o.absolute r.target_weight) (rate r);
    turnover = o.absolute r.target_weight;
  }

  unfoldable pub rebalanced : PositionRow F → OpenTrade F → OpenTrade F
  rebalanced r t = record (charged r (o.absolute (o.minus r.target_weight r.previous_weight)) t) {
    maximum_weight = o.maximum t.maximum_weight (o.absolute r.target_weight);
  }

  -- Price and funding of the hour that the row stands for.
  unfoldable pub held : PositionRow F → OpenTrade F → OpenTrade F
  held r t = record t {
    price_return = o.plus t.price_return r.price_pnl;
    funding_return = o.plus t.funding_return r.funding_pnl;
  }

  abbrev pub turned : PositionRow F → Bool
  turned r = not (sign_eq (sign_of r.previous_weight) (target_sign r))

  -- `if active is not None and previous_sign != target_sign`
  unfoldable pub leave :
      Option (OpenTrade F) → PositionRow F → Option (OpenTrade F) × List (TradeEvent F)
  leave none r = (none, [])
  leave (some t) r = if turned r then (none, exited t r ∷ []) else (some t, [])

  -- `if target_sign and active is None … elif active is not None and previous_sign == target_sign`
  unfoldable pub enter : Option (OpenTrade F) → PositionRow F → Option (OpenTrade F)
  enter none r = if is_flat r then none else some (entered r)
  enter (some t) r = if turned r then some t else some (rebalanced r t)

  -- `if active is not None and target_sign`
  unfoldable pub hold : Option (OpenTrade F) → PositionRow F → Option (OpenTrade F)
  hold none r = none
  hold (some t) r = if is_flat r then some t else some (held r t)

  -- `if index == rows.height - 1 and active is not None`
  unfoldable pub finish :
      Bool → Option (OpenTrade F) → PositionRow F → Option (OpenTrade F) × List (TradeEvent F)
  finish true (some t) r = (none, fold_closed t r ∷ [])
  finish _ active r = (active, [])

  abbrev pub prepended :
      List (TradeEvent F)
      → Result TradeError (List (TradeEvent F))
      → Result TradeError (List (TradeEvent F))
  prepended events (ok more) = ok (events ++ more)
  prepended events (err e) = err e

  -- The rows from the top, with the trade that is open before them.
  unfoldable pub episodes :
      Option (OpenTrade F) → List (PositionRow F) → Result TradeError (List (TradeEvent F))
  episodes none [] = ok []
  episodes (some t) [] = err open_episode
  episodes active (r ∷ rs) =
      let (left, exits) = leave active r in
      let (next, closes) = finish (is_empty rs) (hold (enter left r) r) r in
      prepended exits (prepended closes (episodes next rs))
