-- ===== src/SparseState/Column.antt =====
-- The body of the loops of `causal_sparse_state` (research/state_machine.py), for one column.
use binance_algo.Base.{ℕ, Bool, List, [], ◌∷◌, ◌&&◌, ◌||◌, not, leb, ◌-◌, if◌then◌else◌}

-- `state[column]` and `remaining[column]`
pub record Cell (V : Type 0) : Type 0 where
  pub state : V
  pub remaining : ℕ

-- What one row writes into the four result matrices.
pub record Mark (V : Type 0) : Type 0 where
  pub value : V
  pub entry : Bool
  pub exit : Bool
  pub forced : Bool

module _ {V : Type 0} (zero_value : V) (is_zero : V → Bool) (hold_hours : ℕ) where
  abbrev pub flat : Cell V
  flat = record { state = zero_value; remaining = 0 }

  abbrev leaves : Cell V → Bool → Bool
  leaves c exit_now = not (is_zero c.state) && (exit_now || leb c.remaining 0)

  abbrev enters : Cell V → Bool → V → Bool
  enters c exited_now signal = is_zero c.state && not exited_now && not (is_zero signal)

  -- `if state[column] != 0: remaining[column] -= 1`
  abbrev ticked : Cell V → Cell V
  ticked c = if is_zero c.state then c else record c { remaining = c.remaining - 1 }

  -- One pass of the inner loop: leave, then enter, then mark and count down.
  unfoldable pub step : Cell V → V → Bool → Cell V × Mark V
  step c signal exit_now =
      let exited_now = leaves c exit_now in
      let c₁ = if exited_now then flat else c in
      let entered = enters c₁ exited_now signal in
      let c₂ : Cell V = if entered then record { state = signal; remaining = hold_hours } else c₁ in
      (
        ticked c₂,
        record {
          value = c₂.state;
          entry = entered;
          exit = exited_now;
          forced = exited_now && leb c.remaining 0;
        },
      )

  -- The rows of one column, from the top.
  unfoldable pub column : Cell V → List (V × Bool) → List (Mark V)
  column c [] = []
  column c ((signal, exit_now) ∷ rows) =
      let (c', mark) = step c signal exit_now in mark ∷ column c' rows
