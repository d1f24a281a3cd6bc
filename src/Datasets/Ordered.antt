-- ===== src/Datasets/Ordered.antt =====
-- The entries of a key request in the order of their ordinals, and the rows that are numbered by it:
-- `sorted` and `enumerate` in app/modules/datasets/key_service.py and key_resolution.py.
use mathlib.Core.List.{Permᴰ}
use mathlib.Core.List.Permᴰ
use datacraft_backend.Prelude.{
  ℕ, ◌≤◌, ◌≡◌, ◌⊎◌, inl, inr, refl, ap, false, ◌&&◌, List, [], ◌∷◌, map, arith, Table, lookup,
  map_option, length, All, nat_eq, string_eq, option_eq, ◌==◌, eq_of_beq, Bool-cases, if◌then◌else◌,
  is_empty, member, ltb, suc, zero, pair_eq,
}
use datacraft_backend.Models.Rules.{Column, DatasetKeyColumn}
use datacraft_backend.Datasets.Keys.{
  KeyColumn, sort_keys, insert_key, key_rows, strategy_of, mark_columns, is_active_column_of,
  column_ids_of,
}

-- No entry has a greater ordinal than a later one.
abbrev pub IsOrdered : List KeyColumn → Type 0
IsOrdered [] = Unit {0}
IsOrdered (k ∷ entries) = All (λ j. k.ordinal ≤ j.ordinal) entries × IsOrdered entries

-- so many numbers in a row
abbrev pub numbers_from : ℕ → ℕ → List ℕ
numbers_from n zero = []
numbers_from n (suc m) = n ∷ numbers_from (suc n) m

insert_key-Permᴰ :
    (k : KeyColumn) (entries : List KeyColumn) → Permᴰ (k ∷ entries) (insert_key k entries)
insert_key-Permᴰ k [] = Permᴰ.cons refl Permᴰ.nil
insert_key-Permᴰ k (j ∷ entries) = elim (Bool-cases (ltb j.ordinal k.ordinal)) [
  | inl q ↦ rw q (Permᴰ.trans (Permᴰ.swap refl refl) (Permᴰ.cons refl (insert_key-Permᴰ k entries)))
  | inr q ↦ rw q (Permᴰ.refl (k ∷ j ∷ entries))
]

pub sort_keys-Permᴰ : (entries : List KeyColumn) → Permᴰ entries (sort_keys entries)
sort_keys-Permᴰ [] = Permᴰ.nil
sort_keys-Permᴰ (k ∷ entries) =
    Permᴰ.trans (Permᴰ.cons refl (sort_keys-Permᴰ entries)) (insert_key-Permᴰ k (sort_keys entries))

All-insert_key :
    (n : ℕ) (k : KeyColumn) (entries : List KeyColumn)
    → n ≤ k.ordinal
    → All (λ j. n ≤ j.ordinal) entries
    → All (λ j. n ≤ j.ordinal) (insert_key k entries)
All-insert_key n k [] h hs = (h, tt)
All-insert_key n k (j ∷ entries) h (hj, hs) = elim (Bool-cases (ltb j.ordinal k.ordinal)) [
  | inl q ↦ rw q (hj, All-insert_key n k entries h hs)
  | inr q ↦ rw q (h, (hj, hs))
]

All-le :
    (m n : ℕ) (entries : List KeyColumn)
    → m ≤ n
    → All (λ j. n ≤ j.ordinal) entries
    → All (λ j. m ≤ j.ordinal) entries
All-le m n [] h hs = tt
All-le m n (j ∷ entries) h (hj, hs) = (omega arith, All-le m n entries h hs)

insert_key-IsOrdered :
    (k : KeyColumn) (entries : List KeyColumn)
    → IsOrdered entries
    → IsOrdered (insert_key k entries)
insert_key-IsOrdered k [] h = (tt, tt)
insert_key-IsOrdered k (j ∷ entries) (hj, hs) = elim (Bool-cases (ltb j.ordinal k.ordinal)) [
  | inl q ↦
      rw q (
        All-insert_key j.ordinal k entries (ground (arith, q)) hj,
        insert_key-IsOrdered k entries hs,
      )
  | inr q ↦
      let le : k.ordinal ≤ j.ordinal = ground (arith, q) in
      rw q ((le, All-le k.ordinal j.ordinal entries le hj), (hj, hs))
]

pub sort_keys-IsOrdered : (entries : List KeyColumn) → IsOrdered (sort_keys entries)
sort_keys-IsOrdered [] = tt
sort_keys-IsOrdered (k ∷ entries) =
    insert_key-IsOrdered k (sort_keys entries) (sort_keys-IsOrdered entries)

length-insert_key :
    (k : KeyColumn) (entries : List KeyColumn)
    → length (insert_key k entries) ≡ suc (length entries)
length-insert_key k [] = refl
length-insert_key k (j ∷ entries) = ground (arith, length-insert_key k entries)

pub length-sort_keys : (entries : List KeyColumn) → length (sort_keys entries) ≡ length entries
length-sort_keys [] = refl
length-sort_keys (k ∷ entries) =
    ground (arith, length-insert_key k (sort_keys entries), length-sort_keys entries)

module _ (id : ℕ) where
  pub columns-key_rows :
      (n : ℕ) (ids : List ℕ) → map (λ (r : DatasetKeyColumn). r.column_id) (key_rows id n ids) ≡ ids
  columns-key_rows n [] = refl
  columns-key_rows n (k ∷ ids) = ap (λ x. k ∷ x) (columns-key_rows (suc n) ids)

  pub ordinals-key_rows :
      (n : ℕ) (entries : List KeyColumn)
      → map (λ (r : DatasetKeyColumn). r.ordinal) (key_rows id n (column_ids_of entries))
        ≡ numbers_from n (length entries)
  ordinals-key_rows n [] = refl
  ordinals-key_rows n (k ∷ entries) = ap (λ x. n ∷ x) (ordinals-key_rows (suc n) entries)

  -- an active column of the dataset is flagged by whether it is one of these
  abbrev pub flagged : List ℕ → ℕ → Column → Column
  flagged ids k col =
      if col.dataset_id == id && col.is_active
      then record col { is_primary_key = member k ids }
      else col

  pub lookup-mark_columns :
      (ids : List ℕ) (k : ℕ) (columns : Table Column)
      → lookup k (mark_columns id ids columns) ≡ map_option (flagged ids k) (lookup k columns)
  lookup-mark_columns ids k [] = refl
  lookup-mark_columns ids k ((j, col) ∷ columns) = elim (Bool-cases (j == k)) [
    | inl e ↦ elim (Bool-cases (is_active_column_of id (j, col))) [
      | inl q ↦ ground (arith, e, q, eq_of_beq j k e)
      | inr q ↦ ground (arith, e, q)
    ]
    | inr e ↦ elim (Bool-cases (is_active_column_of id (j, col))) [
      | inl q ↦ ground (arith, e, q, lookup-mark_columns ids k columns)
      | inr q ↦ ground (arith, e, q, lookup-mark_columns ids k columns)
    ]
  ]

pub strategy-cases :
    (entries sorted : List KeyColumn)
    → length sorted ≡ length entries
    → is_empty entries ≡ false
    → ((length entries ≡ 1) × (strategy_of (column_ids_of sorted) ≡ "SINGLE_COLUMN"))
      ⊎ ((2 ≤ length entries) × (strategy_of (column_ids_of sorted) ≡ "COMPOSITE"))
strategy-cases [] sorted same h = absurd (cc (h))
strategy-cases (k ∷ entries) [] same h = absurd (ground (arith, same))
strategy-cases (k ∷ entries) (i ∷ []) same h = inl (ground (arith, same), refl)
strategy-cases (k ∷ entries) (i ∷ j ∷ sorted) same h = inr (ground (arith, same), refl)
