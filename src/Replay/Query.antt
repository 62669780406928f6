-- ===== src/Replay/Query.antt =====
-- `_sql_string` of data/replay.py, and the list of paths in `_query`. A text is the list of its code
-- points.
use binance_algo.Base.{ℕ, List, [], ◌∷◌, ◌++◌, ◌==◌, if◌then◌else◌}

-- The code points of a quote, a comma and a space.
abbrev pub quote : ℕ
quote = 39

abbrev pub separator : List ℕ
separator = 44 ∷ 32 ∷ []

-- `value.replace("'", "''")`
unfoldable pub doubled : List ℕ → List ℕ
doubled [] = []
doubled (c ∷ cs) = let rest = doubled cs in if c == quote then quote ∷ quote ∷ rest else c ∷ rest

-- `_sql_string`
unfoldable pub sql_string : List ℕ → List ℕ
sql_string value = quote ∷ (doubled value ++ (quote ∷ []))

-- `", ".join(_sql_string(…) for record in records)`
unfoldable pub sql_list : List (List ℕ) → List ℕ
sql_list [] = []
sql_list (value ∷ []) = sql_string value
sql_list (value ∷ next ∷ rest) = sql_string value ++ (separator ++ sql_list (next ∷ rest))
