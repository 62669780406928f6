-- ===== src/SparseState/Laws.antt =====
-- What the state machine of research/state_machine.py promises for a column: it is causal, enters
-- only while flat, never changes a position in place, and holds none for longer than `hold_hours`.
use binance_algo.Base.{
  ap, ◌+◌, ◌≤◌, if◌then◌else◌, ◌<◌, ℕ, Bool, true, false, List, [], ◌∷◌, ◌++◌, ◌≡◌, refl, arith,
}
use binance_algo.SparseState.Column.{flat, column, Mark, Cell, step}
use Prim.Native.Nat.{max}

module _ {V : Type 0} (zero_value : V) (is_zero : V → Bool)
    (zero_is_zero : is_zero zero_value ≡ true) (hold_hours : ℕ) (positive : 0 < hold_hours) where
  -- What follows a cell after some rows.
  abbrev pub final : Cell V → List (V × Bool) → Cell V
  final c [] = c
  final c ((signal, exit_now) ∷ rows) =
      final (step zero_value is_zero hold_hours c signal exit_now).0 rows

  -- The marks of the first rows do not depend on later rows.
  pub column-append :
      (c : Cell V) (rows later : List (V × Bool))
      → column zero_value is_zero hold_hours c (rows ++ later)
        ≡ column zero_value is_zero hold_hours c rows
          ++ column zero_value is_zero hold_hours (final c rows) later
  unfolding column
  column-append c [] later = refl
  column-append c ((signal, exit_now) ∷ rows) later =
      let (c', mark) = step zero_value is_zero hold_hours c signal exit_now in
      ap (λ (ms : List (Mark V)). mark ∷ ms) (column-append c' rows later)

  -- A flat cell counts nothing, and an open one has at most `hold_hours` rows behind and before it.
  abbrev Aged : ℕ → Cell V → Type 0
  Aged age c =
      (is_zero c.state ≡ true → age ≡ 0)
      × (is_zero c.state ≡ false → age + c.remaining ≡ hold_hours)

  -- Rows in a row with a position, up to and with this one.
  abbrev next_age : ℕ → V → ℕ
  next_age age v = if is_zero v then 0 else age + 1

  step-Aged :
      (age : ℕ) (c : Cell V) (signal : V) (exit_now : Bool)
      → Aged age c
      → let (c', mark) = step zero_value is_zero hold_hours c signal exit_now in
        Aged (next_age age mark.value) c'
  unfolding step
  step-Aged age c signal exit_now h = ground (arith, h.0, h.1)

  -- The longest stretch of rows with a position, `age` rows of which lie above.
  abbrev pub longest : ℕ → List (Mark V) → ℕ
  longest age [] = age
  longest age (m ∷ ms) = max age (longest (next_age age m.value) ms)

  longest-le :
      (age : ℕ) (c : Cell V) (rows : List (V × Bool))
      → Aged age c
      → longest age (column zero_value is_zero hold_hours c rows) ≤ hold_hours
  unfolding column
  longest-le age c [] h = ground (arith, h.0, h.1)
  longest-le age c ((signal, exit_now) ∷ rows) h =
      let (c', mark) = step zero_value is_zero hold_hours c signal exit_now in
      let below : longest (next_age age mark.value) (column zero_value is_zero hold_hours c' rows)
          ≤ hold_hours =
        longest-le (next_age age mark.value) c' rows (step-Aged age c signal exit_now h) in
      let young : age ≤ hold_hours = ground (arith, h.0, h.1) in omega arith

  -- A column that starts flat never shows a position on more than `hold_hours` rows in a row.
  pub holding_bounded :
      (rows : List (V × Bool))
      → longest 0 (column zero_value is_zero hold_hours (flat zero_value is_zero hold_hours) rows)
        ≤ hold_hours
  holding_bounded rows = longest-le 0 _ rows (ground (arith, zero_is_zero))

  -- What may stand under a row that showed `v`.
  abbrev pub Continues : V → List (Mark V) → Type 0
  Continues v [] = Unit
  Continues v (m ∷ ms) =
      ((is_zero v ≡ false)
        → (m.entry ≡ false)
          × ((m.exit ≡ false) → m.value ≡ v)
          × ((m.exit ≡ true) → is_zero m.value ≡ true))
      × ((is_zero v ≡ true) → (m.exit ≡ false) × (m.entry ≡ false → is_zero m.value ≡ true))
      × (m.forced ≡ true → m.exit ≡ true)
      × Continues m.value ms

  step-state :
      (c : Cell V) (signal : V) (exit_now : Bool)
      → (step zero_value is_zero hold_hours c signal exit_now).0.state
        ≡ (step zero_value is_zero hold_hours c signal exit_now).1.value
  unfolding step
  step-state c signal exit_now = ground arith

  row :
      (c : Cell V) (signal : V) (exit_now : Bool)
      → let m = (step zero_value is_zero hold_hours c signal exit_now).1 in
        ((is_zero c.state ≡ false)
          → (m.entry ≡ false)
            × ((m.exit ≡ false) → m.value ≡ c.state)
            × ((m.exit ≡ true) → is_zero m.value ≡ true))
        × ((is_zero c.state ≡ true) → (m.exit ≡ false) × (m.entry ≡ false → is_zero m.value ≡ true))
        × (m.forced ≡ true → m.exit ≡ true)
  unfolding step
  row c signal exit_now = (
    λ h. (
      ground (arith, zero_is_zero),
      λ e. ground (arith, zero_is_zero),
      λ e. ground (arith, zero_is_zero),
    ),
    λ h. (ground arith, λ e. ground (arith, zero_is_zero)),
    λ e. ground arith,
  )

  -- Row after row, an open position is carried over unchanged until an exit row, which is flat, and
  -- no entry is marked while a position is open; a flat column has no exit, and shows a position
  -- only where an entry is marked; every forced exit is an exit.
  pub column-Continues :
      (c : Cell V) (rows : List (V × Bool))
      → Continues c.state (column zero_value is_zero hold_hours c rows)
  unfolding column
  column-Continues c [] = tt
  column-Continues c ((signal, exit_now) ∷ rows) =
      let (c', mark) = step zero_value is_zero hold_hours c signal exit_now in
      let (open_row, flat_row, forced_row) = row c signal exit_now in
      (
        open_row,
        flat_row,
        forced_row,
        rw (step-state c signal exit_now) at (column-Continues c' rows),
      )

  -- A forced exit is marked on a row exactly when `hold_hours` rows in a row have shown a position.
  abbrev pub Timed : ℕ → List (Mark V) → Type 0
  Timed age [] = Unit
  Timed age (m ∷ ms) =
      (m.forced ≡ true → age ≡ hold_hours)
      × (age ≡ hold_hours → m.forced ≡ true)
      × Timed (next_age age m.value) ms

  forced-on-time :
      (age : ℕ) (c : Cell V) (signal : V) (exit_now : Bool)
      → Aged age c
      → let m = (step zero_value is_zero hold_hours c signal exit_now).1 in
        (m.forced ≡ true → age ≡ hold_hours) × (age ≡ hold_hours → m.forced ≡ true)
  unfolding step
  forced-on-time age c signal exit_now h =
      (λ e. ground (arith, h.0, h.1), λ e. ground (arith, h.0, h.1))

  column-Timed :
      (age : ℕ) (c : Cell V) (rows : List (V × Bool))
      → Aged age c
      → Timed age (column zero_value is_zero hold_hours c rows)
  unfolding column
  column-Timed age c [] h = tt
  column-Timed age c ((signal, exit_now) ∷ rows) h =
      let (c', mark) = step zero_value is_zero hold_hours c signal exit_now in
      let (sound, complete) = forced-on-time age c signal exit_now h in
      (
        sound,
        complete,
        column-Timed (next_age age mark.value) c' rows (step-Aged age c signal exit_now h),
      )

  -- In a column that starts flat, a row is marked as a forced time exit exactly when the
  -- `hold_hours` rows above it all showed a position.
  pub forced_exactly_on_time :
      (rows : List (V × Bool))
      → Timed 0 (column zero_value is_zero hold_hours (flat zero_value is_zero hold_hours) rows)
  forced_exactly_on_time rows = column-Timed 0 _ rows (ground (arith, zero_is_zero))
