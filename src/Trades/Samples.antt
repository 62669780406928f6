-- ===== src/Trades/Samples.antt =====
-- Sample positions for research/trades.py, and the theorem on them.
use binance_algo.Base.{
  ltb, if◌then◌else◌, ◌*◌, ◌-◌, ◌≡◌, ◌+◌, refl, ℕ, none, List, [], ◌∷◌, ok, map,
}
use Prim.Native.Nat.{max}
use binance_algo.Trades.Reconstruction.{episodes-runs}
use binance_algo.Trades.Runs.{event_of, Run, joined, runs}
use binance_algo.Trades.Episode.{episodes, Floats, sign_of, PositionRow}

-- Weights in percent above 100, which is flat.
abbrev percents : Floats ℕ
percents = record {
  zero_value = 0;
  plus = λ a b. a + b;
  minus = λ a b. a - b;
  times = λ a b. a * b;
  divided = λ a b. a;
  absolute = λ a. if ltb a 100 then 100 - a else a - 100;
  maximum = max;
  above = λ a. ltb 100 a;
  below = λ a. ltb a 100;
}

abbrev hour_row : ℕ → ℕ → ℕ → PositionRow ℕ
hour_row hour previous target = record {
  execution_time_ms = hour;
  label_end_time_ms = hour + 1;
  previous_weight = previous;
  target_weight = target;
  trade_weight = 120;
  price_pnl = 3;
  funding_pnl = 1;
  allocated_fee = 1;
  allocated_spread_cost = 1;
  allocated_slippage_cost = 1;
}

-- Long for two hours, short for one, flat, and long to the end.
abbrev five_hours : List (PositionRow ℕ)
five_hours =
    hour_row 1 100 150
    ∷ hour_row 2 150 160
    ∷ hour_row 3 160 50
    ∷ hour_row 4 50 100
    ∷ hour_row 5 100 110
    ∷ []

episodes-runs_example :
    episodes percents none five_hours ≡ ok (map (event_of percents) (runs percents five_hours))
unfolding sign_of
episodes-runs_example = episodes-runs percents five_hours (refl, (refl, (refl, (refl, (refl, tt)))))

-- Three episodes, the first of which ends with a change of direction.
three_episodes :
    map (λ (u : Run ℕ). u.first.execution_time_ms) (runs percents five_hours) ≡ 1 ∷ 3 ∷ 5 ∷ []
unfolding sign_of runs joined
three_episodes = refl
