-- ===== src/SparseState/Result.antt =====
-- The result matrices of `causal_sparse_state` (research/state_machine.py), column by column.
use binance_algo.Base.{
  ◌∙◌, ◌<◌, ◌↔◌, zero, some, ok, ap, length, suc, Option, map, ℕ, Bool, true, false, List, [], ◌∷◌,
  ◌≡◌, refl, arith,
}
use binance_algo.SparseState.Matrix.{
  flat_mark, loop-column, exits_source, column_of, shape_eq, all, loop, result, AllLength,
  SparseStateResult, replicate, causal_sparse_state, Matrix, get_or,
}
use binance_algo.SparseState.Column.{Mark, column, flat, Cell}
use mathlib.Core.Path.{ap₂}

get_or-map :
    {A B : Type 0} (f : A → B) (xs : List A) (j : ℕ) (d : A)
    → get_or (map f xs) j (f d) ≡ f (get_or xs j d)
get_or-map f [] j d = refl
get_or-map f (x ∷ xs) zero d = refl
get_or-map f (x ∷ xs) (suc j) d = get_or-map f xs j d

-- Taking a column out of a matrix of fields is taking the fields of a column of marks.
pick_field :
    {A B : Type 0} (f : A → B) (rows : List (List A)) (j : ℕ) (d : A)
    → map (λ (r : List B). get_or r j (f d)) (map (map f) rows)
      ≡ map f (map (λ (r : List A). get_or r j d) rows)
pick_field f [] j d = refl
pick_field f (r ∷ rows) j d = ap₂ (λ x xs. x ∷ xs) (get_or-map f r j d) (pick_field f rows j d)

module _ {V : Type 0} (zero_value : V) (is_zero : V → Bool) where
  accepted :
      (is_finite : V → Bool) (m : Matrix V) (hold_hours : ℕ) (exits : Option (Matrix Bool))
      {res : SparseStateResult V}
      → causal_sparse_state zero_value is_zero is_finite m hold_hours exits ≡ ok res
      → (res
          ≡ result zero_value is_zero (
              loop zero_value is_zero hold_hours
                (replicate m.columns (flat zero_value is_zero hold_hours))
                m.rows
                (exits_source zero_value is_zero m exits).rows))
        × (0 < hold_hours)
  unfolding causal_sparse_state
  accepted is_finite m hold_hours exits h = ground arith

  length-replicate : (n : ℕ) (c : Cell V) → length (replicate n c) ≡ n
  length-replicate zero c = refl
  length-replicate (suc n) c = ap suc (length-replicate n c)

  get_or-replicate : (n j : ℕ) (c : Cell V) → get_or (replicate n c) j c ≡ c
  get_or-replicate zero j c = refl
  get_or-replicate (suc n) zero c = refl
  get_or-replicate (suc n) (suc j) c = get_or-replicate n j c

  -- On a rectangular matrix with explicit exits of its shape, an accepted call computes each column
  -- of its four results from that column of the inputs alone: the values, entries, exits and forced
  -- time exits are the marks of the column's own run from flat.
  pub columns_independent :
      (is_finite : V → Bool) (m : Matrix V) (hold_hours : ℕ) (exits : Matrix Bool) (j : ℕ)
      {res : SparseStateResult V}
      → causal_sparse_state zero_value is_zero is_finite m hold_hours (some exits) ≡ ok res
      → AllLength zero_value is_zero hold_hours m.columns m.rows
      → AllLength zero_value is_zero hold_hours m.columns exits.rows
      → j < m.columns
      → let marks =
          column zero_value is_zero hold_hours
            (flat zero_value is_zero hold_hours)
            (column_of zero_value is_zero hold_hours j m.rows exits.rows) in
        (map (λ row. get_or row j zero_value) res.values ≡ map (λ (k : Mark V). k.value) marks)
        × (map (λ row. get_or row j false) res.entries ≡ map (λ (k : Mark V). k.entry) marks)
        × (map (λ row. get_or row j false) res.exits ≡ map (λ (k : Mark V). k.exit) marks)
        × (map (λ row. get_or row j false) res.forced_time_exits
            ≡ map (λ (k : Mark V). k.forced) marks)
  columns_independent is_finite m hold_hours exits j {res} h a b lt =
      let start = replicate m.columns (flat zero_value is_zero hold_hours) in
      let size : length start ≡ m.columns = length-replicate m.columns _ in
      let marks = loop zero_value is_zero hold_hours start m.rows exits.rows in
      let same =
        loop-column zero_value is_zero hold_hours j start m.rows exits.rows (omega arith)
          (rw size a) (rw size b) in
      let own = rw (get_or-replicate m.columns j (flat zero_value is_zero hold_hours)) at same in
      rw ((accepted is_finite m hold_hours (some exits) h).0) (
        pick_field (λ (k : Mark V). k.value) marks j (flat_mark zero_value is_zero hold_hours)
            ∙ ap (map (λ (k : Mark V). k.value)) own,
        pick_field (λ (k : Mark V). k.entry) marks j (flat_mark zero_value is_zero hold_hours)
            ∙ ap (map (λ (k : Mark V). k.entry)) own,
        pick_field (λ (k : Mark V). k.exit) marks j (flat_mark zero_value is_zero hold_hours)
            ∙ ap (map (λ (k : Mark V). k.exit)) own,
        pick_field (λ (k : Mark V). k.forced) marks j (flat_mark zero_value is_zero hold_hours)
            ∙ ap (map (λ (k : Mark V). k.forced)) own,
      )

  -- A call is accepted exactly when every entry value is finite, the holding period is positive and
  -- the exits have the shape of the entry values.
  pub accepted_iff :
      (is_finite : V → Bool) (m : Matrix V) (hold_hours : ℕ) (exits : Option (Matrix Bool))
      → ((res : SparseStateResult V) × (causal_sparse_state zero_value is_zero is_finite m
              hold_hours exits
            ≡ ok res))
        ↔ ((all (all is_finite) m.rows ≡ true)
            × (0 < hold_hours)
            × (shape_eq (exits_source zero_value is_zero m exits) m ≡ true))
  unfolding causal_sparse_state
  accepted_iff is_finite m hold_hours exits = (
    λ r. (let (res, h) = r in ground arith),
    λ r. (
      result zero_value is_zero (
          loop zero_value is_zero hold_hours
            (replicate m.columns (flat zero_value is_zero hold_hours)) m.rows
            (exits_source zero_value is_zero m exits).rows),
      ground arith,
    ),
  )
