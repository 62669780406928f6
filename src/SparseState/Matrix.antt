-- ===== src/SparseState/Matrix.antt =====
-- `causal_sparse_state` of research/state_machine.py: its checks and its two loops, and that the
-- columns do not influence one another.
use binance_algo.Base.{
  ap, ◌∙◌, none, All, zero, ok, leb, err, not, if◌then◌else◌, ◌<◌, ◌==◌, map, some, Result, Option,
  ◌&&◌, suc, length, ℕ, Bool, true, false, List, [], ◌∷◌, ◌≡◌, refl, arith,
}
use binance_algo.SparseState.Column.{column, flat, step, Mark, Cell}
use mathlib.Core.Path.{ap₂}

-- An array with two dimensions: the number of its columns, and its rows.
pub record Matrix (A : Type 0) : Type 0 where
  pub columns : ℕ
  pub rows : List (List A)

pub data SparseStateError : Type 0 where
  not_finite holding_period_not_positive exit_shape_differs : SparseStateError

pub record SparseStateResult (V : Type 0) : Type 0 where
  pub values : List (List V)
  pub entries : List (List Bool)
  pub exits : List (List Bool)
  pub forced_time_exits : List (List Bool)

abbrev pub get_or : {A : Type 0} → List A → ℕ → A → A
get_or [] i d = d
get_or (x ∷ xs) zero d = x
get_or (x ∷ xs) (suc i) d = get_or xs i d

abbrev pub replicate : {A : Type 0} → ℕ → A → List A
replicate zero a = []
replicate (suc n) a = a ∷ replicate n a

abbrev pub all : {A : Type 0} → (A → Bool) → List A → Bool
all p [] = true
all p (x ∷ xs) = p x && all p xs

abbrev pub shape_eq : {A B : Type 0} → Matrix A → Matrix B → Bool
shape_eq a b = length a.rows == length b.rows && a.columns == b.columns

module _ {V : Type 0} (zero_value : V) (is_zero : V → Bool) where
  -- The inner loop: the cells after a row and the marks of the row.
  unfoldable pub row_step : ℕ → List (Cell V) → List V → List Bool → List (Cell V × Mark V)
  row_step hold_hours (c ∷ cs) (v ∷ vs) (e ∷ es) =
      step zero_value is_zero hold_hours c v e ∷ row_step hold_hours cs vs es
  row_step hold_hours _ _ _ = []

  -- The outer loop.
  unfoldable pub loop : ℕ → List (Cell V) → List (List V) → List (List Bool) → List (List (Mark V))
  loop hold_hours cs (vs ∷ rows) (es ∷ exits) =
      let out = row_step hold_hours cs vs es in
      map (λ (o : Cell V × Mark V). o.1) out
      ∷ loop hold_hours (map (λ (o : Cell V × Mark V). o.0) out) rows exits
  loop hold_hours cs _ _ = []

  -- `np.zeros(shape, dtype=bool)` where no exits are given.
  abbrev pub exits_source : Matrix V → Option (Matrix Bool) → Matrix Bool
  exits_source m none = record {
    columns = m.columns;
    rows = replicate (length m.rows) (replicate m.columns false);
  }
  exits_source m (some e) = e

  abbrev pub result : List (List (Mark V)) → SparseStateResult V
  result marks = record {
    values = map (map (λ (m : Mark V). m.value)) marks;
    entries = map (map (λ (m : Mark V). m.entry)) marks;
    exits = map (map (λ (m : Mark V). m.exit)) marks;
    forced_time_exits = map (map (λ (m : Mark V). m.forced)) marks;
  }

  unfoldable pub causal_sparse_state :
      (V → Bool)
      → Matrix V
      → ℕ
      → Option (Matrix Bool)
      → Result SparseStateError (SparseStateResult V)
  causal_sparse_state is_finite entry_values hold_hours explicit_exit =
      let exits = exits_source entry_values explicit_exit in
      if not (all (all is_finite) entry_values.rows)
      then err not_finite
      else if leb hold_hours 0
      then err holding_period_not_positive
      else if not (shape_eq exits entry_values)
      then err exit_shape_differs
      else ok (
          result (
            loop hold_hours (replicate entry_values.columns (flat zero_value is_zero hold_hours))
              entry_values.rows exits.rows))

  module _ (hold_hours : ℕ) where
    -- The j-th column of a pair of matrices.
    abbrev pub column_of : ℕ → List (List V) → List (List Bool) → List (V × Bool)
    column_of j (vs ∷ rows) (es ∷ exits) =
        (get_or vs j zero_value, get_or es j false) ∷ column_of j rows exits
    column_of j _ _ = []

    abbrev pub flat_mark : Mark V
    flat_mark = record { value = zero_value; entry = false; exit = false; forced = false }

    length-row_step :
        (cs : List (Cell V)) (vs : List V) (es : List Bool)
        → length vs ≡ length cs
        → length es ≡ length cs
        → length (map (λ (o : Cell V × Mark V). o.0) (row_step hold_hours cs vs es)) ≡ length cs
    unfolding row_step
    length-row_step [] vs es a b = refl
    length-row_step (c ∷ cs) [] es a b = absurd (omega arith)
    length-row_step (c ∷ cs) (v ∷ vs) [] a b = absurd (omega arith)
    length-row_step (c ∷ cs) (v ∷ vs) (e ∷ es) a b =
        omega (arith, length-row_step cs vs es (omega arith) (omega arith))

    -- The cell of a column after a row, and its mark, come from the column's own cell and inputs.
    pub row_step-at :
        (j : ℕ) (cs : List (Cell V)) (vs : List V) (es : List Bool)
        → j < length cs
        → length vs ≡ length cs
        → length es ≡ length cs
        → let out = row_step hold_hours cs vs es in
          let own =
            step zero_value is_zero hold_hours
              (get_or cs j (flat zero_value is_zero hold_hours))
              (get_or vs j zero_value)
              (get_or es j false) in
          (get_or (map (λ (o : Cell V × Mark V). o.0) out) j (flat zero_value is_zero hold_hours)
            ≡ own.0)
          × (get_or (map (λ (o : Cell V × Mark V). o.1) out) j flat_mark ≡ own.1)
    unfolding row_step
    row_step-at j [] vs es lt a b = absurd (omega arith)
    row_step-at j (c ∷ cs) [] es lt a b = absurd (omega arith)
    row_step-at j (c ∷ cs) (v ∷ vs) [] lt a b = absurd (omega arith)
    row_step-at zero (c ∷ cs) (v ∷ vs) (e ∷ es) lt a b = (refl, refl)
    row_step-at (suc j) (c ∷ cs) (v ∷ vs) (e ∷ es) lt a b =
        row_step-at j cs vs es (omega arith) (omega arith) (omega arith)

    -- Every row has the given length.
    abbrev pub AllLength : {A : Type 0} → ℕ → List (List A) → Type 0
    AllLength n rows = All (λ row. length row ≡ n) rows

    pub loop-column :
        (j : ℕ) (cs : List (Cell V)) (rows : List (List V)) (exits : List (List Bool))
        → j < length cs
        → AllLength (length cs) rows
        → AllLength (length cs) exits
        → map (λ (ms : List (Mark V)). get_or ms j flat_mark) (loop hold_hours cs rows exits)
          ≡ column zero_value is_zero hold_hours
              (get_or cs j (flat zero_value is_zero hold_hours))
              (column_of j rows exits)
    unfolding loop column
    loop-column j cs [] exits lt a b = refl
    loop-column j cs (vs ∷ rows) [] lt a b = refl
    loop-column j cs (vs ∷ rows) (es ∷ exits) lt a b =
        let out = row_step hold_hours cs vs es in
        let after = map (λ (o : Cell V × Mark V). o.0) out in
        let same : length after ≡ length cs = length-row_step cs vs es a.0 b.0 in
        let (next_cell, own_mark) = row_step-at j cs vs es lt a.0 b.0 in
        let rest : map (λ (ms : List (Mark V)). get_or ms j flat_mark)
              (loop hold_hours after rows exits)
            ≡ column zero_value is_zero hold_hours
                (get_or after j (flat zero_value is_zero hold_hours)) (column_of j rows exits) =
          loop-column j after rows exits (omega arith) (rw same a.1) (rw same b.1) in
        ap₂ (λ (m : Mark V) (ms : List (Mark V)). m ∷ ms) own_mark
          (rest
            ∙ ap (λ (c : Cell V). column zero_value is_zero hold_hours c (column_of j rows exits))
                next_cell)
