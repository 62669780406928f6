-- ===== src/StateStore/Sorted.antt =====
-- What `list_data_files` of data/state_store.py returns, by the rows of the table.
use binance_algo.Base.{
  String, Bool, none, List, [], ◌∷◌, map, ◌||◌, eq_iff, ◌≡◌, refl, arith, inl, inr, ap, All,
  Bool-cases, is_some,
}
use binance_algo.Table.{select, select_all}
use binance_algo.Table.Laws.{by_key, IsKeyed}
use binance_algo.Manifest.{DataFileRecord}
use binance_algo.StateStore.Files.{data_file_from_row}
use binance_algo.StateStore.Integrity.{file_key}
use binance_algo.StateStore.Listing.{every_file, insert_file, sort_files, listed_before, matches}

-- Sorting keeps the rows and their keys.
pub insert_file-select :
    (p : DataFileRecord → Bool) (r : DataFileRecord) (rs : List DataFileRecord)
    → is_some (select p (insert_file r rs)) ≡ (p r || is_some (select p rs))
unfolding insert_file select
insert_file-select p r [] = ground arith
insert_file-select p r (s ∷ rs) = ground (arith, insert_file-select p r rs)

pub insert_file-IsKeyed :
    (r : DataFileRecord) (rs : List DataFileRecord)
    → select (by_key file_key r.file_id) rs ≡ none
    → IsKeyed file_key rs
    → IsKeyed file_key (insert_file r rs)
unfolding insert_file select
insert_file-IsKeyed r [] fresh keyed = (refl, tt)
insert_file-IsKeyed r (s ∷ rs) fresh keyed = ground (
  arith,
  eq_iff s.file_id r.file_id,
  eq_iff r.file_id s.file_id,
  insert_file-select (by_key file_key s.file_id) r rs,
  insert_file-IsKeyed r rs,
)

pub insert_file-All :
    (P : DataFileRecord → Type 0) (r : DataFileRecord) (rs : List DataFileRecord)
    → P r
    → All P rs
    → All P (insert_file r rs)
unfolding insert_file
insert_file-All P r [] h hs = (h, tt)
insert_file-All P r (s ∷ rs) h (k, ks) = elim (Bool-cases (listed_before r s)) [
  | inl before ↦ rw before (h, (k, ks))
  | inr after ↦ rw after (k, insert_file-All P r rs h ks)
]

pub insert_file-All_inv :
    (P : DataFileRecord → Type 0) (r : DataFileRecord) (rs : List DataFileRecord)
    → All P (insert_file r rs)
    → P r × All P rs
unfolding insert_file
insert_file-All_inv P r [] h = h
insert_file-All_inv P r (s ∷ rs) h = elim (Bool-cases (listed_before r s)) [
  | inl before ↦ rw before at h
  | inr after ↦
      let (k, hs) : P s × All P (insert_file r rs) = rw after at h in
      let (first, rest) = insert_file-All_inv P r rs hs in (first, (k, rest))
]

pub sort_files-All :
    (P : DataFileRecord → Type 0) (rs : List DataFileRecord) → All P rs → All P (sort_files rs)
unfolding sort_files
sort_files-All P [] h = tt
sort_files-All P (r ∷ rs) (h, hs) = insert_file-All P r (sort_files rs) h (sort_files-All P rs hs)

pub sort_files-All_inv :
    (P : DataFileRecord → Type 0) (rs : List DataFileRecord) → All P (sort_files rs) → All P rs
unfolding sort_files
sort_files-All_inv P [] h = tt
sort_files-All_inv P (r ∷ rs) h =
    let (first, rest) = insert_file-All_inv P r (sort_files rs) h in
    (first, sort_files-All_inv P rs rest)

pub sort_files-select :
    (p : DataFileRecord → Bool) (rs : List DataFileRecord)
    → is_some (select p (sort_files rs)) ≡ is_some (select p rs)
unfolding sort_files select
sort_files-select p [] = refl
sort_files-select p (r ∷ rs) =
    ground (arith, insert_file-select p r (sort_files rs), sort_files-select p rs)

pub sort_files-IsKeyed :
    (rs : List DataFileRecord) → IsKeyed file_key rs → IsKeyed file_key (sort_files rs)
unfolding sort_files
sort_files-IsKeyed [] keyed = tt
sort_files-IsKeyed (r ∷ rs) (fresh, keyed) =
    insert_file-IsKeyed r (sort_files rs)
      (ground (arith, fresh, sort_files-select (by_key file_key r.file_id) rs))
      (sort_files-IsKeyed rs keyed)

-- The rows as `_data_file_from_row` reads them.
pub read_rows-select :
    (k : String) (rs : List DataFileRecord)
    → is_some (select (by_key file_key k) (map data_file_from_row rs))
      ≡ is_some (select (by_key file_key k) rs)
unfolding select
read_rows-select k [] = refl
read_rows-select k (r ∷ rs) = ground (arith, read_rows-select k rs)

pub read_rows-IsKeyed :
    (rs : List DataFileRecord) → IsKeyed file_key rs → IsKeyed file_key (map data_file_from_row rs)
read_rows-IsKeyed [] keyed = tt
read_rows-IsKeyed (r ∷ rs) (fresh, keyed) =
    (ground (arith, fresh, read_rows-select r.file_id rs), read_rows-IsKeyed rs keyed)

pub read_rows-All :
    (P : DataFileRecord → Type 0) (rs : List DataFileRecord)
    → All (λ r. P (data_file_from_row r)) rs
    → All P (map data_file_from_row rs)
read_rows-All P [] h = tt
read_rows-All P (r ∷ rs) (h, hs) = (h, read_rows-All P rs hs)

pub read_rows-All_inv :
    (P : DataFileRecord → Type 0) (rs : List DataFileRecord)
    → All P (map data_file_from_row rs)
    → All (λ r. P (data_file_from_row r)) rs
read_rows-All_inv P [] h = tt
read_rows-All_inv P (r ∷ rs) (h, hs) = (h, read_rows-All_inv P rs hs)

pub every_file-all : (rs : List DataFileRecord) → select_all (matches every_file) rs ≡ rs
unfolding select_all matches
every_file-all [] = refl
every_file-all (r ∷ rs) = ap (λ l. r ∷ l) (every_file-all rs)
