-- ===== src/Table/Laws.antt =====
-- Reads after writes of tables, and the preservation of keys.
use binance_algo.Base.{
  map, String, str_eq, eq_iff, Bool, true, false, none, some, List, [], ◌∷◌, ◌++◌, ◌≡◌, refl, arith,
  is_some, if◌then◌else◌,
}
use binance_algo.Table.{select, select_all, update, insert_or_ignore}
use mathlib.Core.Option

module _ {ℓ} {Row : Type ℓ} where
  -- An update that keeps its own clause is read back by it.
  pub select-update_self :
      (p : Row → Bool) (f : Row → Row) (rs : List Row)
      → ((r : Row) → p r ≡ true → p (f r) ≡ true)
      → select p (update p f rs) ≡ Option.map f (select p rs)
  unfolding select update
  select-update_self p f [] keep = refl
  select-update_self p f (r ∷ rs) keep = ground (arith, keep r, select-update_self p f rs keep)

  -- An update of other rows is not seen.
  pub select-update_ne :
      (p q : Row → Bool) (f : Row → Row) (rs : List Row)
      → ((r : Row) → p r ≡ true → (q r ≡ false) × (q (f r) ≡ false))
      → select q (update p f rs) ≡ select q rs
  unfolding select update
  select-update_ne p q f [] apart = refl
  select-update_ne p q f (r ∷ rs) apart = ground (arith, apart r, select-update_ne p q f rs apart)

  pub select-append :
      (p : Row → Bool) (rs : List Row) (r : Row)
      → select p (rs ++ (r ∷ []))
        ≡ (if is_some (select p rs) then select p rs else if p r then some r else none)
  unfolding select
  select-append p [] r = ground arith
  select-append p (s ∷ rs) r = ground (arith, select-append p rs r)

  pub select_all-append :
      (p : Row → Bool) (rs : List Row) (r : Row)
      → select_all p (rs ++ (r ∷ [])) ≡ select_all p rs ++ (if p r then r ∷ [] else [])
  unfolding select_all
  select_all-append p [] r = ground arith
  select_all-append p (s ∷ rs) r = ground (arith, select_all-append p rs r)

  pub select-holds : (p : Row → Bool) (rs : List Row) (r : Row) → select p rs ≡ some r → p r ≡ true
  unfolding select
  select-holds p [] r e = ground arith
  select-holds p (s ∷ rs) r e = ground (arith, select-holds p rs r)

  -- What a clause finds after `INSERT OR IGNORE`.
  pub update-map :
      (p : Row → Bool) (f : Row → Row) (rs : List Row)
      → update p f rs ≡ map (λ r. if p r then f r else r) rs
  unfolding update
  update-map p f [] = refl
  update-map p f (r ∷ rs) = ground (arith, update-map p f rs)

  pub select-insert_or_ignore :
      (p : Row → Bool) (conflict : Row → Row → Bool) (r : Row) (rs : List Row)
      → select p (insert_or_ignore conflict r rs) ≡ (
          if is_some (select p rs)
          then select p rs
          else if is_some (select (conflict r) rs)
          then none
          else if p r
          then some r
          else none)
  unfolding insert_or_ignore
  select-insert_or_ignore p conflict r rs = ground (arith, select-append p rs r)

  -- Inserting a row a second time changes nothing.
  pub insert_or_ignore-twice :
      (conflict : Row → Row → Bool) (r : Row) (rs : List Row)
      → conflict r r ≡ true
      → insert_or_ignore conflict r (insert_or_ignore conflict r rs)
        ≡ insert_or_ignore conflict r rs
  unfolding insert_or_ignore
  insert_or_ignore-twice conflict r rs self = ground (arith, select-append (conflict r) rs r)

module _ {ℓ} {Row : Type ℓ} (key : Row → String) where
  -- `WHERE key = ?`
  abbrev pub by_key : String → Row → Bool
  by_key k r = str_eq (key r) k

  -- Rows with one key are rewritten; the others stay.
  pub select-update_key :
      (k j : String) (f : Row → Row) (rs : List Row)
      → ((r : Row) → key (f r) ≡ key r)
      → select (by_key j) (update (by_key k) f rs)
        ≡ (if str_eq k j then Option.map f (select (by_key j) rs) else select (by_key j) rs)
  unfolding select update
  select-update_key k j f [] keep = ground arith
  select-update_key k j f (r ∷ rs) keep = ground (
    arith,
    keep r,
    eq_iff (key r) k,
    eq_iff (key r) j,
    eq_iff (key (f r)) j,
    eq_iff k j,
    select-update_key k j f rs keep,
  )

  -- No two rows have one key.
  abbrev pub IsKeyed : List Row → Type ℓ
  IsKeyed [] = Unit
  IsKeyed (r ∷ rs) = (select (by_key (key r)) rs ≡ none) × IsKeyed rs

  pub update-IsKeyed :
      (k : String) (f : Row → Row) (rs : List Row)
      → ((r : Row) → key (f r) ≡ key r)
      → IsKeyed rs
      → IsKeyed (update (by_key k) f rs)
  unfolding update
  update-IsKeyed k f [] keep h = tt
  update-IsKeyed k f (r ∷ rs) keep h =
      ground (arith, keep r, select-update_key k (key r) f rs keep, update-IsKeyed k f rs keep h.1)

  pub append-IsKeyed :
      (r : Row) (rs : List Row)
      → select (by_key (key r)) rs ≡ none
      → IsKeyed rs
      → IsKeyed (rs ++ (r ∷ []))
  unfolding select
  append-IsKeyed r [] e h = ground arith
  append-IsKeyed r (s ∷ rs) e h = ground (
    arith,
    eq_iff (key s) (key r),
    eq_iff (key r) (key s),
    select-append (by_key (key s)) rs r,
    append-IsKeyed r rs,
  )

  -- If no row breaks a constraint that covers the key, no row has the key.
  pub no_conflict :
      (conflict : Row → Bool) (k : String) (rs : List Row)
      → ((s : Row) → by_key k s ≡ true → conflict s ≡ true)
      → select conflict rs ≡ none
      → select (by_key k) rs ≡ none
  unfolding select
  no_conflict conflict k [] covers e = refl
  no_conflict conflict k (s ∷ rs) covers e =
      ground (arith, covers s, no_conflict conflict k rs covers)

  -- A constraint that covers the key keeps it unique.
  pub insert_or_ignore-IsKeyed :
      (conflict : Row → Row → Bool) (r : Row) (rs : List Row)
      → ((s : Row) → by_key (key r) s ≡ true → conflict r s ≡ true)
      → IsKeyed rs
      → IsKeyed (insert_or_ignore conflict r rs)
  unfolding insert_or_ignore
  insert_or_ignore-IsKeyed conflict r rs covers h =
      ground (arith, no_conflict (conflict r) (key r) rs covers, append-IsKeyed r rs)
