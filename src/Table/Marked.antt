-- ===== src/Table/Marked.antt =====
-- `UPDATE … WHERE key IN (…)`, for the keys of rows selected before, as in `mark_stale_runs` of
-- research/experiments/store.py.
use mathlib.Core.Option
use binance_algo.Base.{
  if◌then◌else◌, ap, is_some, eq_refl, Bool-cases, eq_iff, ◌||◌, arith, insert_string, ◌≡◌, refl,
  inl, inr, String, Bool, false, none, List, [], ◌∷◌, str_eq, map, contains, sort_strings,
}
use binance_algo.Table.Laws.{IsKeyed, by_key}
use binance_algo.Table.{select_all, update, select}

contains-insert_string :
    (k s : String) (ss : List String)
    → contains k (insert_string s ss) ≡ (str_eq s k || contains k ss)
contains-insert_string k s [] = ground arith
contains-insert_string k s (t ∷ ss) = ground (arith, contains-insert_string k s ss)

-- Sorting keeps the keys.
pub contains-sort_strings :
    (k : String) (ss : List String) → contains k (sort_strings ss) ≡ contains k ss
unfolding sort_strings
contains-sort_strings k [] = refl
contains-sort_strings k (s ∷ ss) =
    ground (arith, contains-insert_string k s (sort_strings ss), contains-sort_strings k ss)

module _ {ℓ} {Row : Type ℓ} where
  pub update-cong :
      (p q : Row → Bool) (f : Row → Row) (rs : List Row)
      → ((r : Row) → p r ≡ q r)
      → update p f rs ≡ update q f rs
  unfolding update
  update-cong p q f [] same = refl
  update-cong p q f (r ∷ rs) same = ground (arith, same r, update-cong p q f rs same)

module _ {ℓ} {Row : Type ℓ} (key : Row → String) where
  keys_absent :
      (k : String) (p : Row → Bool) (rs : List Row)
      → select (by_key key k) rs ≡ none
      → contains k (map key (select_all p rs)) ≡ false
  unfolding select select_all
  keys_absent k p [] absent = refl
  keys_absent k p (r ∷ rs) absent = ground (arith, keys_absent k p rs)

  update-other :
      (k : String) (ks : List String) (f : Row → Row) (rs : List Row)
      → select (by_key key k) rs ≡ none
      → update (λ r. contains (key r) (k ∷ ks)) f rs ≡ update (λ r. contains (key r) ks) f rs
  unfolding update select
  update-other k ks f [] absent = refl
  update-other k ks f (r ∷ rs) absent =
      ground (arith, eq_iff k (key r), eq_iff (key r) k, update-other k ks f rs)

  -- With unique keys, the rows whose keys were selected are the rows selected.
  pub update-marked :
      (p : Row → Bool) (f : Row → Row) (rs : List Row)
      → IsKeyed key rs
      → update (λ r. contains (key r) (map key (select_all p rs))) f rs ≡ update p f rs
  unfolding update select_all
  update-marked p f [] h = refl
  update-marked p f (r ∷ rs) h = elim (Bool-cases (p r)) [
    | inl here ↦ ground (
      arith,
      eq_refl (key r),
      update-other (key r) (map key (select_all p rs)) f rs h.0,
      update-marked p f rs h.1,
    )
    | inr other ↦ ground (arith, keys_absent (key r) p rs h.0, update-marked p f rs h.1)
  ]

  select-update_any :
      (j : String) (p : Row → Bool) (f : Row → Row) (rs : List Row)
      → ((r : Row) → key (f r) ≡ key r)
      → is_some (select (by_key key j) (update p f rs)) ≡ is_some (select (by_key key j) rs)
  unfolding update select
  select-update_any j p f [] same = refl
  select-update_any j p f (r ∷ rs) same =
      ground (arith, ap (λ s. str_eq s j) (same r), select-update_any j p f rs same)

  -- No update that keeps the keys breaks their uniqueness.
  pub update_any-IsKeyed :
      (p : Row → Bool) (f : Row → Row) (rs : List Row)
      → ((r : Row) → key (f r) ≡ key r)
      → IsKeyed key rs
      → IsKeyed key (update p f rs)
  unfolding update
  update_any-IsKeyed p f [] same h = tt
  update_any-IsKeyed p f (r ∷ rs) same h =
      ground
        (arith, same r, select-update_any (key r) p f rs same, update_any-IsKeyed p f rs same h.1)

  -- What a key finds after an update that keeps the keys.
  pub select-update_first :
      (j : String) (p : Row → Bool) (f : Row → Row) (rs : List Row)
      → ((r : Row) → key (f r) ≡ key r)
      → select (by_key key j) (update p f rs)
        ≡ Option.map (λ r. if p r then f r else r) (select (by_key key j) rs)
  unfolding update select
  select-update_first j p f [] same = refl
  select-update_first j p f (r ∷ rs) same =
      ground (arith, ap (λ s. str_eq s j) (same r), select-update_first j p f rs same)
