-- ===== src/Recorder/Delivery.antt =====
-- The rows in the buffers of data/writer.py, by their keys.
use binance_algo.Base.{
  subst, eq_refl, ℕ, true, false, List, [], ◌∷◌, ◌++◌, if◌then◌else◌, ◌+◌, ◌≡◌, refl, sym, ◌∙◌, ap,
  arith, inl, inr, eq_iff, Bool-cases, length,
}
use binance_algo.Recorder.Buffers.{
  key_eq, insert_batch, PartitionKey, key_leb, Batch, sort_batches, add_row,
}
use text.Mathlib.TextPositions.{compare_refl}
use mathlib.Core.List.{append_assoc, append-nil}

key_eq_iff : (a b : PartitionKey) → key_eq a b ≡ true → a ≡ b
key_eq_iff a b same =
    let types = (eq_iff a.event_type b.event_type).0 (ground arith) in
    let days = (eq_iff a.day b.day).0 (ground arith) in
    let hours : a.hour ≡ b.hour = ground arith in
    let symbols = (eq_iff a.symbol b.symbol).0 (ground arith) in
    λ i. record { event_type = types i; day = days i; hour = hours i; symbol = symbols i }

key_leb_refl : (a : PartitionKey) → key_leb a a ≡ true
unfolding key_leb
key_leb_refl a = ground (arith, eq_refl a.event_type, eq_refl a.day, compare_refl a.symbol)

same_key : (i j k : PartitionKey) → key_eq i k ≡ true → key_eq j k ≡ true → i ≡ j
same_key i j k first second = key_eq_iff i k first ∙ sym (key_eq_iff j k second)

key_eq_refl : (a : PartitionKey) → key_eq a a ≡ true
key_eq_refl a = rw (eq_refl a.event_type, eq_refl a.day, eq_refl a.symbol) (ground arith)

key_eq_comm : (a b : PartitionKey) → key_eq a b ≡ false → key_eq b a ≡ false
key_eq_comm a b apart = elim (Bool-cases (key_eq b a)) [
  | inl same ↦
      let back : key_eq a b ≡ true = rw (key_eq_iff b a same) (key_eq_refl a) in ground arith
  | inr other ↦ other
]

module _ {Row : Type 0} where
  length_snoc : (rows : List Row) (row : Row) → length (rows ++ (row ∷ [])) ≡ length rows + 1
  length_snoc [] row = omega arith
  length_snoc (r ∷ rows) row = ground (arith, length_snoc rows row)

  -- The rows of the batches with a key, in their order.
  unfoldable pub rows_in : PartitionKey → List (Batch Row) → List Row
  rows_in k [] = []
  rows_in k ((j, rows) ∷ rest) =
      let below = rows_in k rest in if key_eq j k then rows ++ below else below

  -- The keys of a dictionary are apart.
  abbrev pub IsDict : List (Batch Row) → Type 0
  IsDict [] = Unit
  IsDict ((k, rows) ∷ rest) = (rows_in k rest ≡ []) × IsDict rest

  abbrev pub total : List (Batch Row) → ℕ
  total [] = 0
  total ((k, rows) ∷ rest) = length rows + total rest

  pub rows_in-append :
      (k : PartitionKey) (first bs : List (Batch Row))
      → rows_in k (first ++ bs) ≡ rows_in k first ++ rows_in k bs
  unfolding rows_in
  rows_in-append k [] bs = refl
  rows_in-append k ((j, rows) ∷ first) bs = elim (Bool-cases (key_eq j k)) [
    | inl here ↦
        rw (here, rows_in-append k first bs)
          (sym (append_assoc rows (rows_in k first) (rows_in k bs)))
    | inr other ↦ rw (other) (rows_in-append k first bs)
  ]

  rows_in-insert :
      (k j : PartitionKey) (rows : List Row) (bs : List (Batch Row))
      → rows_in k (insert_batch (j, rows) bs) ≡ rows_in k ((j, rows) ∷ bs)
  unfolding rows_in insert_batch
  rows_in-insert k j rows [] = refl
  rows_in-insert k j rows ((i, others) ∷ bs) = elim (Bool-cases (key_leb j i)) [
    | inl before ↦ rw before refl
    | inr after ↦
        rw (after, rows_in-insert k j rows bs)
          (elim (Bool-cases (key_eq i k)) [
            | inl below ↦ elim (Bool-cases (key_eq j k)) [
              | inl here ↦
                  let before : key_leb j i ≡ true =
                    rw (same_key i j k below here) (key_leb_refl j) in
                  ground arith
              | inr other ↦ rw (below, other) refl
            ]
            | inr missed ↦ rw missed refl
          ])
  ]

  pub rows_in-sort :
      (k : PartitionKey) (bs : List (Batch Row)) → rows_in k (sort_batches bs) ≡ rows_in k bs
  unfolding rows_in sort_batches
  rows_in-sort k [] = refl
  rows_in-sort k ((j, rows) ∷ bs) =
      rows_in-insert k j rows (sort_batches bs) ∙ rw (rows_in-sort k bs)

  pub rows_in-add :
      (k j : PartitionKey) (row : Row) (bs : List (Batch Row))
      → IsDict bs
      → rows_in k (add_row j row bs) ≡ rows_in k bs ++ (if key_eq j k then row ∷ [] else [])
  unfolding rows_in add_row
  rows_in-add k j row [] dict = refl
  rows_in-add k j row ((i, rows) ∷ bs) (apart, dict) = elim (Bool-cases (key_eq i j)) [
    | inl here ↦
        let equal = key_eq_iff i j here in
        rw here (elim (Bool-cases (key_eq i k)) [
          | inl mine ↦
              let mine' = subst (λ x. key_eq x k ≡ true) equal mine in
              let empty = subst (λ x. rows_in x bs ≡ []) (key_eq_iff i k mine) apart in
              rw (mine, mine', empty)
                (append-nil (rows ++ (row ∷ []))
                  ∙ ap (λ xs. xs ++ (row ∷ [])) (sym (append-nil rows)))
          | inr other ↦
              let other' = subst (λ x. key_eq x k ≡ false) equal other in
              rw (other, other') (sym (append-nil (rows_in k bs)))
        ])
    | inr other ↦
        rw (other, rows_in-add k j row bs dict)
          (elim (Bool-cases (key_eq i k)) [
            | inl mine ↦
                rw mine
                  (sym (append_assoc rows (rows_in k bs) (if key_eq j k then row ∷ [] else [])))
            | inr not_mine ↦ rw not_mine refl
          ])
  ]

  pub IsDict-add :
      (j : PartitionKey) (row : Row) (bs : List (Batch Row)) → IsDict bs → IsDict (add_row j row bs)
  unfolding rows_in add_row
  IsDict-add j row [] dict = (refl, tt)
  IsDict-add j row ((i, rows) ∷ bs) (apart, dict) = elim (Bool-cases (key_eq i j)) [
    | inl here ↦ rw here (apart, dict)
    | inr other ↦ rw other (
      rw (rows_in-add i j row bs dict, apart, key_eq_comm i j other) refl,
      IsDict-add j row bs dict,
    )
  ]

  pub total-add :
      (j : PartitionKey) (row : Row) (bs : List (Batch Row))
      → total (add_row j row bs) ≡ total bs + 1
  unfolding add_row
  total-add j row [] = omega arith
  total-add j row ((i, rows) ∷ bs) = ground (arith, total-add j row bs, length_snoc rows row)
