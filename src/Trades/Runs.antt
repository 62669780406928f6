-- ===== src/Trades/Runs.antt =====
-- An independent description of the episodes of research/trades.py: the runs of rows with one sign of
-- the target weight.
use binance_algo.Base.{◌≡◌, if◌then◌else◌, Bool, Option, none, some, List, [], ◌∷◌}
use binance_algo.Trades.Episode.{
  rebalanced, fold_closed, entered, held, target_sign, sign_of, exited, is_flat, TradeEvent,
  OpenTrade, sign_eq, Sign, Floats, PositionRow,
}

-- A run: its first row, its other rows, and the row that follows it, if it is not at the end.
pub record Run (F : Type 0) : Type 0 where
  pub first : PositionRow F
  pub more : List (PositionRow F)
  pub next : Option (PositionRow F)

module _ {F : Type 0} (o : Floats F) where
  abbrev pub same_sign : PositionRow F → PositionRow F → Bool
  same_sign r s = sign_eq (target_sign o r) (target_sign o s)

  -- A row before the runs of the rows below it joins the run at their top, if it has its sign.
  unfoldable pub joined : PositionRow F → List (PositionRow F) → List (Run F) → List (Run F)
  joined r (s ∷ rs) (u ∷ us) =
      if same_sign r s
      then record u { first = r; more = u.first ∷ u.more } ∷ us
      else record { first = r; more = []; next = some s } ∷ u ∷ us
  joined r (s ∷ rs) [] = record { first = r; more = []; next = some s } ∷ []
  joined r [] us = record { first = r; more = []; next = none } ∷ us

  -- The runs of long or short rows, from the top; flat rows belong to none.
  unfoldable pub runs : List (PositionRow F) → List (Run F)
  runs [] = []
  runs (r ∷ rs) = let below = runs rs in if is_flat o r then below else joined r rs below

  -- The trade and its last row, over the further rows of a run.
  abbrev pub carried :
      OpenTrade F → PositionRow F → List (PositionRow F) → OpenTrade F × PositionRow F
  carried t r [] = (t, r)
  carried t r (s ∷ rs) = carried (held o s (rebalanced o s t)) s rs

  abbrev pub closed_by : Option (PositionRow F) → OpenTrade F × PositionRow F → TradeEvent F
  closed_by (some s) (t, r) = exited o t s
  closed_by none (t, r) = fold_closed o t r

  -- The event of a run: entered at its first row, carried over the others, closed by what follows.
  unfoldable pub event_of : Run F → TradeEvent F
  event_of u = closed_by u.next (carried (held o u.first (entered o u.first)) u.first u.more)

  -- The previous weights have the signs of the target weights above them, from the sign given.
  abbrev pub IsChained : Sign → List (PositionRow F) → Type 0
  IsChained s [] = Unit
  IsChained s (r ∷ rs) = (sign_of o r.previous_weight ≡ s) × IsChained (target_sign o r) rs
