-- ===== src/Table.antt =====
-- SQLite tables as lists of rows in rowid order, for data/state_store.py and
-- research/experiments/store.py: `SELECT` with `fetchone`, `UPDATE … WHERE`, `INSERT OR IGNORE`.
pub mod Laws
pub mod Marked
use binance_algo.Base.{
  ℕ, Bool, true, false, Option, none, some, List, [], ◌∷◌, ◌++◌, is_some, if◌then◌else◌,
}

module _ {ℓ} {Row : Type ℓ} where
  -- The first row that satisfies the `WHERE` clause.
  unfoldable pub select : (Row → Bool) → List Row → Option Row
  select p [] = none
  select p (r ∷ rs) = if p r then some r else select p rs

  -- Every row that satisfies the `WHERE` clause.
  unfoldable pub select_all : (Row → Bool) → List Row → List Row
  select_all p [] = []
  select_all p (r ∷ rs) = let rest = select_all p rs in if p r then r ∷ rest else rest

  -- `UPDATE … SET … WHERE …`: every row that satisfies the clause is rewritten.
  unfoldable pub update : (Row → Bool) → (Row → Row) → List Row → List Row
  update p f [] = []
  update p f (r ∷ rs) = (if p r then f r else r) ∷ update p f rs

  -- A row that would break a uniqueness constraint is dropped in silence.
  unfoldable pub insert_or_ignore : (Row → Row → Bool) → Row → List Row → List Row
  insert_or_ignore conflict r rs = if is_some (select (conflict r) rs) then rs else rs ++ (r ∷ [])
