-- ===== src/SparseState/Samples.antt =====
-- Sample signals for research/state_machine.py, and the theorems on them.
use binance_algo.Base.{
  ◌↔◌, ◌≡◌, map, ◌<◌, ◌≤◌, arith, ◌==◌, refl, ℕ, Bool, true, false, some, List, [], ◌∷◌, ok,
}
use binance_algo.SparseState.Result.{accepted_iff, columns_independent}
use binance_algo.SparseState.Matrix.{
  shape_eq, replicate, all, loop, get_or, result, causal_sparse_state, SparseStateResult, column_of,
  Matrix,
}
use binance_algo.SparseState.Laws.{forced_exactly_on_time, Timed, holding_bounded, longest}
use binance_algo.SparseState.Column.{Mark, flat, column}

-- Values are weights in percent, and zero is flat.
abbrev is_flat : ℕ → Bool
is_flat v = v == 0

abbrev any_value : ℕ → Bool
any_value v = true

abbrev signals : List (ℕ × Bool)
signals = (5, false) ∷ (0, false) ∷ (7, false) ∷ (7, false) ∷ (0, true) ∷ []

abbrev values : Matrix ℕ
values = record { columns = 2; rows = (5 ∷ 0 ∷ []) ∷ (0 ∷ 3 ∷ []) ∷ (0 ∷ 0 ∷ []) ∷ [] }

abbrev no_exits : Matrix Bool
no_exits = record {
  columns = 2;
  rows = (false ∷ false ∷ []) ∷ (false ∷ true ∷ []) ∷ (false ∷ true ∷ []) ∷ [];
}

two_hours : 0 < 2
two_hours = ground arith

holding_bounded_example :
    longest 0 is_flat refl 2 two_hours 0 (column 0 is_flat 2 (flat 0 is_flat 2) signals) ≤ 2
holding_bounded_example = holding_bounded 0 is_flat refl 2 two_hours signals

forced_exactly_on_time_example :
    Timed 0 is_flat refl 2 two_hours 0 (column 0 is_flat 2 (flat 0 is_flat 2) signals)
forced_exactly_on_time_example = forced_exactly_on_time 0 is_flat refl 2 two_hours signals

abbrev values_result : SparseStateResult ℕ
values_result =
    result 0 is_flat (loop 0 is_flat 2 (replicate 2 (flat 0 is_flat 2)) values.rows no_exits.rows)

columns_independent_example :
    map (λ row. get_or row 1 0) values_result.values
    ≡ map
        (λ (k : Mark ℕ). k.value)
        (column 0 is_flat 2 (flat 0 is_flat 2) (column_of 0 is_flat 2 1 values.rows no_exits.rows))
unfolding causal_sparse_state
columns_independent_example =
    (columns_independent 0 is_flat any_value values 2 no_exits 1 refl (refl, (refl, (refl, tt)))
      (refl, (refl, (refl, tt))) (ground arith)).0

accepted_iff_example :
    ((res : SparseStateResult ℕ) × (causal_sparse_state 0 is_flat any_value values 0 (some no_exits)
        ≡ ok res))
    ↔ ((all (all any_value) values.rows ≡ true) × (0 < 0) × (shape_eq no_exits values ≡ true))
accepted_iff_example = accepted_iff 0 is_flat any_value values 0 (some no_exits)
