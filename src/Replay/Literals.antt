-- ===== src/Replay/Literals.antt =====
-- The literals of data/replay.py as SQL reads them.
use binance_algo.Base.{
  ◌&&◌, ℕ, false, Option, none, some, List, [], ◌∷◌, ◌++◌, ◌==◌, if◌then◌else◌, ◌≡◌, refl, ◌∙◌, ap,
  arith, inl, inr, Bool-cases, length, suc, zero,
}
use binance_algo.Replay.Query.{separator, sql_list, sql_string, quote, doubled}
use mathlib.Core.List.{append_assoc}

abbrev with_char : ℕ → Option (List ℕ × List ℕ) → Option (List ℕ × List ℕ)
with_char c none = none
with_char c (some (value, rest)) = some (c ∷ value, rest)

-- The rest of a literal after its first quote: two quotes stand for one, and one ends it.
unfoldable pub read_inside : List ℕ → Option (List ℕ × List ℕ)
read_inside [] = none
read_inside (c ∷ []) = if c == quote then some ([], []) else none
read_inside (c ∷ d ∷ cs) =
    let after = read_inside cs in
    let next = read_inside (d ∷ cs) in
    if c == quote
    then (if d == quote then with_char quote after else some ([], d ∷ cs))
    else with_char c next

unfoldable pub read_literal : List ℕ → Option (List ℕ × List ℕ)
read_literal [] = none
read_literal (c ∷ cs) = if c == quote then read_inside cs else none

abbrev with_value : List ℕ → Option (List (List ℕ) × List ℕ) → Option (List (List ℕ) × List ℕ)
with_value value none = none
with_value value (some (values, rest)) = some (value ∷ values, rest)

-- What follows a comma and a space.
abbrev after_separator : List ℕ → Option (List ℕ)
after_separator [] = none
after_separator (a ∷ []) = none
after_separator (a ∷ b ∷ cs) = if a == 44 && b == 32 then some cs else none

-- A first literal and a number of further ones, each after a separator.
unfoldable pub read_literals : ℕ → List ℕ → Option (List (List ℕ) × List ℕ)
read_literals zero text = elim (read_literal text) [
  | none ↦ none
  | some (value, rest) ↦ some (value ∷ [], rest)
]
read_literals (suc n) text = elim (read_literal text) [
  | none ↦ none
  | some (value, rest) ↦ elim (after_separator rest) [
    | none ↦ none
    | some more ↦ with_value value (read_literals n more)
  ]
]

-- A text that does not begin with a quote.
abbrev pub IsApart : List ℕ → Type 0
IsApart [] = Unit
IsApart (c ∷ cs) = (c == quote) ≡ false

read_inside-end : (rest : List ℕ) → IsApart rest → read_inside (quote ∷ rest) ≡ some ([], rest)
unfolding read_inside
read_inside-end [] apart = refl
read_inside-end (c ∷ cs) apart = ground (arith, apart)

-- A character that is no quote is read as it is.
read_inside-char :
    (c : ℕ) (cs : List ℕ)
    → (c == quote) ≡ false
    → read_inside (c ∷ cs) ≡ with_char c (read_inside cs)
unfolding read_inside
read_inside-char c [] plain = ground (arith, plain)
read_inside-char c (d ∷ cs) plain = rw plain refl

read_inside-quotes :
    (cs : List ℕ) → read_inside (quote ∷ quote ∷ cs) ≡ with_char quote (read_inside cs)
unfolding read_inside
read_inside-quotes cs = refl

read_inside-doubled :
    (value rest : List ℕ)
    → IsApart rest
    → read_inside (doubled value ++ (quote ∷ rest)) ≡ some (value, rest)
unfolding doubled
read_inside-doubled [] rest apart = read_inside-end rest apart
read_inside-doubled (c ∷ value) rest apart = elim (Bool-cases (c == quote)) [
  | inl quoted ↦
      let same : c ≡ quote = ground arith in
      rw (quoted, same)
        (read_inside-quotes (doubled value ++ (quote ∷ rest))
          ∙ ap (with_char quote) (read_inside-doubled value rest apart))
  | inr plain ↦ rw plain (
      read_inside-char c (doubled value ++ (quote ∷ rest)) plain
      ∙ ap (with_char c) (read_inside-doubled value rest apart))
]

read_literal-sql_string :
    (value rest : List ℕ)
    → IsApart rest
    → read_literal (sql_string value ++ rest) ≡ some (value, rest)
unfolding read_literal sql_string
read_literal-sql_string value rest apart =
    rw (append_assoc (doubled value) (quote ∷ []) rest) (read_inside-doubled value rest apart)

read_literals-step :
    (n : ℕ) (text value tail : List ℕ)
    → read_literal text ≡ some (value, separator ++ tail)
    → read_literals (suc n) text ≡ with_value value (read_literals n tail)
unfolding read_literals
read_literals-step n text value tail first = rw (first, read_literals) refl

-- Reading back as many literals as the query lists gives the paths, whatever quotes and commas are
-- in them, and leaves what follows the list, if that does not begin with a quote.
pub read_literals-sql_list :
    (value : List ℕ) (values : List (List ℕ)) (rest : List ℕ)
    → IsApart rest
    → read_literals (length values) (sql_list (value ∷ values) ++ rest)
      ≡ some (value ∷ values, rest)
unfolding read_literals sql_list
read_literals-sql_list value [] rest apart =
    rw (read_literal-sql_string value rest apart, read_literals) refl
read_literals-sql_list value (next ∷ values) rest apart =
    let more = separator ++ (sql_list (next ∷ values) ++ rest) in
    let shape : sql_list (value ∷ next ∷ values) ++ rest ≡ sql_string value ++ more =
      append_assoc (sql_string value) (separator ++ sql_list (next ∷ values)) rest in
    let first = read_literal-sql_string value more refl in
    ap (read_literals (suc (length values))) shape
    ∙ read_literals-step (length values) (sql_string value ++ more) value
        (sql_list (next ∷ values) ++ rest) first
    ∙ ap (with_value value) (read_literals-sql_list next values rest apart)
