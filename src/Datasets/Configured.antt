-- ===== src/Datasets/Configured.antt =====
-- After `set_key_columns` of app/modules/datasets/key_service.py the three records of a key agree.
use datacraft_backend.Prelude.{
  ℕ, ◌≤◌, ◌≡◌, ◌⊎◌, inl, inr, refl, ap, ◌∙◌, Bool, true, false, not, ◌&&◌, ◌||◌, List, [], ◌∷◌,
  ◌++◌, map, some, arith, lookup, map_option, lookup-update, length, nat_eq, string_eq, option_eq,
  ◌==◌, beq_refl, Bool-cases, Option-cases, keys, filter-append, filter, if◌then◌else◌, is_empty,
  member, nodup, subset, suc, pair_eq,
}
use mathlib.Core.List.{Permᴰ}
use datacraft_backend.Core.Database.{Database}
use datacraft_backend.Core.Exceptions.{
  Error, app, dataset_not_found, invalid_key_column_configuration,
}
use datacraft_backend.Core.Session.{Context, Result, ok, err, call}
use datacraft_backend.Models.Rules.{Dataset, DatasetKeyColumn}
use datacraft_backend.Datasets.Keys.{
  KeyColumn, column_ids_of, ordinals_of, sort_keys, insert_key, key_rows, strategy_of, mark_columns,
  is_active_column_of, set_key_columns,
}
use datacraft_backend.Datasets.Ordered.{
  IsOrdered, numbers_from, sort_keys-Permᴰ, sort_keys-IsOrdered, length-sort_keys, columns-key_rows,
  ordinals-key_rows, flagged, lookup-mark_columns, strategy-cases,
}

module _ {A : Type 0} (p : A → Bool) where
  filter-filter-not : (xs : List A) → filter p (filter (λ x. not (p x)) xs) ≡ []
  filter-filter-not [] = refl
  filter-filter-not (x ∷ xs) = ground (arith, filter-filter-not xs)

module _ (id : ℕ) where
  abbrev of_dataset : DatasetKeyColumn → Bool
  of_dataset r = r.dataset_id == id

  filter-key_rows :
      (n : ℕ) (ids : List ℕ) → filter of_dataset (key_rows id n ids) ≡ key_rows id n ids
  filter-key_rows n [] = refl
  filter-key_rows n (k ∷ ids) = ground (arith, filter-key_rows (suc n) ids, beq_refl id)

  filter-not-key_rows :
      (n : ℕ) (ids : List ℕ) → filter (λ r. not (of_dataset r)) (key_rows id n ids) ≡ []
  filter-not-key_rows n [] = refl
  filter-not-key_rows n (k ∷ ids) = ground (arith, filter-not-key_rows (suc n) ids, beq_refl id)

  filter_others :
      (ids : List ℕ) (rows : List DatasetKeyColumn)
      → filter
          (λ r. not (of_dataset r))
          (filter (λ r. not (of_dataset r)) rows ++ key_rows id 0 ids)
        ≡ filter (λ r. not (of_dataset r)) rows
  filter_others ids [] = filter-not-key_rows 0 ids
  filter_others ids (r ∷ rows) = ground (arith, filter_others ids rows)

member-insert_key :
    (i : ℕ) (k : KeyColumn) (entries : List KeyColumn)
    → member i (column_ids_of (insert_key k entries))
      ≡ (i == k.column_id || member i (column_ids_of entries))
member-insert_key i k [] = refl
member-insert_key i k (j ∷ entries) = ground (arith, member-insert_key i k entries)

member-sort_keys :
    (i : ℕ) (entries : List KeyColumn)
    → member i (column_ids_of (sort_keys entries)) ≡ member i (column_ids_of entries)
member-sort_keys i [] = refl
member-sort_keys i (k ∷ entries) =
    ground (arith, member-insert_key i k (sort_keys entries), member-sort_keys i entries)

module _ (c : Context) (id : ℕ) (entries : List KeyColumn) (db : Database) where
  abbrev pub configures : Result (Unit {0}) × Database
  configures = call (set_key_columns c id entries) db

  abbrev pub ordered : List ℕ
  ordered = column_ids_of (sort_keys entries)

  -- The request is the key now: its columns in the order of their ordinals, numbered from 0, the
  -- flags of the active columns of the dataset and the strategy.
  pub record Configured : Type 0 where
    pub dataset : Dataset
    pub known : lookup id db.datasets ≡ some dataset
    pub nonempty : is_empty entries ≡ false
    pub distinct : nodup (map (λ k. k.column_id) entries) ≡ true
    pub distinct_ordinals : nodup (map (λ k. k.ordinal) entries) ≡ true
    pub active :
        subset
          (map (λ k. k.column_id) entries)
          (keys (filter (λ (_, col). col.dataset_id == id && col.is_active) db.columns))
        ≡ true
    pub succeeded : configures.0 ≡ ok tt
    pub sorted : List KeyColumn
    pub permuted : Permᴰ entries sorted
    pub in_order : IsOrdered sorted
    pub key_columns :
        map (λ r. r.column_id) (filter (λ r. r.dataset_id == id) configures.1.dataset_key_columns)
        ≡ map (λ k. k.column_id) sorted
    pub numbered :
        map (λ r. r.ordinal) (filter (λ r. r.dataset_id == id) configures.1.dataset_key_columns)
        ≡ numbers_from 0 (length entries)
    pub others :
        filter (λ r. not (r.dataset_id == id)) configures.1.dataset_key_columns
        ≡ filter (λ r. not (r.dataset_id == id)) db.dataset_key_columns
    pub flags :
        (k : ℕ)
        → lookup k configures.1.columns
          ≡ map_option
              (λ col.
                if col.dataset_id == id && col.is_active
                then record col { is_primary_key = member k (map (λ e. e.column_id) entries) }
                else col)
              (lookup k db.columns)
    pub strategy :
        ((length entries ≡ 1)
          × (lookup id configures.1.datasets
              ≡ some (record dataset { key_strategy = "SINGLE_COLUMN" })))
        ⊎ ((2 ≤ length entries)
            × (lookup id configures.1.datasets
                ≡ some (record dataset { key_strategy = "COMPOSITE" })))

  module _ (d : Dataset) (known : lookup id db.datasets ≡ some d)
      (nonempty : is_empty entries ≡ false) (ordinals : nodup (ordinals_of entries) ≡ true)
      (distinct : nodup (column_ids_of entries) ≡ true)
      (valid : subset (column_ids_of entries) (keys (filter (is_active_column_of id) db.columns))
        ≡ true) where
    rows_after :
        configures.1.dataset_key_columns
        ≡ filter (λ r. not (of_dataset id r)) db.dataset_key_columns ++ key_rows id 0 ordered
    unfolding set_key_columns
    rows_after = ground arith

    columns_after : configures.1.columns ≡ mark_columns id ordered db.columns
    unfolding set_key_columns
    columns_after = ground arith

    others_stay :
        filter (λ r. not (of_dataset id r)) configures.1.dataset_key_columns
        ≡ filter (λ r. not (of_dataset id r)) db.dataset_key_columns
    others_stay =
        ap (filter (λ r. not (of_dataset id r))) rows_after
        ∙ filter_others id ordered db.dataset_key_columns

    key_rows_after : filter (of_dataset id) configures.1.dataset_key_columns ≡ key_rows id 0 ordered
    key_rows_after = rw (rows_after, filter-append, filter-filter-not, filter-key_rows) refl

    dataset_after :
        lookup id configures.1.datasets ≡ some (record d { key_strategy = strategy_of ordered })
    unfolding set_key_columns
    dataset_after = ground (
      arith,
      lookup-update id id (λ x. record x { key_strategy = strategy_of ordered }) db.datasets,
      beq_refl id,
    )

    strategy_after :
        ((length entries ≡ 1)
          × (lookup id configures.1.datasets ≡ some (record d { key_strategy = "SINGLE_COLUMN" })))
        ⊎ ((2 ≤ length entries)
            × (lookup id configures.1.datasets ≡ some (record d { key_strategy = "COMPOSITE" })))
    strategy_after =
        elim (strategy-cases entries (sort_keys entries) (length-sort_keys entries) nonempty) [
          | inl (n, e) ↦ inl (n, dataset_after ∙ ap (λ x. some (record d { key_strategy = x })) e)
          | inr (n, e) ↦ inr (n, dataset_after ∙ ap (λ x. some (record d { key_strategy = x })) e)
        ]

    flags_after :
        (k : ℕ)
        → lookup k configures.1.columns
          ≡ map_option (flagged id (column_ids_of entries) k) (lookup k db.columns)
    flags_after k =
        ap (lookup k) columns_after
        ∙ lookup-mark_columns id ordered k db.columns
        ∙ ap
            (λ b.
              map_option
                (λ col.
                  if col.dataset_id == id && col.is_active
                  then record col { is_primary_key = b }
                  else col)
                (lookup k db.columns))
            (member-sort_keys k entries)

    configured : Configured
    unfolding set_key_columns
    configured = record {
      dataset = d;
      known = known;
      nonempty = nonempty;
      distinct = distinct;
      distinct_ordinals = ordinals;
      active = valid;
      succeeded = ground arith;
      sorted = sort_keys entries;
      permuted = sort_keys-Permᴰ entries;
      in_order = sort_keys-IsOrdered entries;
      key_columns = ap (map (λ r. r.column_id)) key_rows_after ∙ columns-key_rows id 0 ordered;
      numbered =
          ap (map (λ r. r.ordinal)) key_rows_after
          ∙ ordinals-key_rows id 0 (sort_keys entries)
          ∙ ap (numbers_from 0) (length-sort_keys entries);
      others = others_stay;
      flags = flags_after;
      strategy = strategy_after;
    }

  -- Configuring the key of a dataset either raises and leaves the database as it was, or the dataset
  -- exists, the request names active columns of it, at least one, with distinct columns and
  -- ordinals, the key columns of the dataset are those columns in the order of the given ordinals,
  -- numbered from 0, those of other datasets stay, an active column of the dataset is flagged
  -- exactly when the request names it, other columns stay, and the strategy is SINGLE_COLUMN for one
  -- column and COMPOSITE for more.
  pub set_key_columns_effect : ((e : Error) × (configures ≡ (err e, db))) ⊎ Configured
  unfolding set_key_columns
  set_key_columns_effect = elim (Option-cases (lookup id db.datasets)) [
    | inl e ↦ inl (app dataset_not_found, ground (arith, e))
    | inr (d, known) ↦ elim (Bool-cases (is_empty entries)) [
      | inl e ↦ inl (app invalid_key_column_configuration, ground (arith, known, e))
      | inr nonempty ↦ elim (Bool-cases (nodup (ordinals_of entries))) [
        | inr e ↦ inl (app invalid_key_column_configuration, ground (arith, known, nonempty, e))
        | inl ordinals ↦ elim (Bool-cases (nodup (column_ids_of entries))) [
          | inr e ↦
              inl
                (app invalid_key_column_configuration, ground (arith, known, nonempty, ordinals, e))
          | inl distinct ↦
              elim (Bool-cases (
                subset (column_ids_of entries)
                  (keys (filter (is_active_column_of id) db.columns)))) [
                    | inr e ↦ inl (
                      app invalid_key_column_configuration,
                      ground (arith, known, nonempty, ordinals, distinct, e),
                    )
                    | inl valid ↦ inr (configured d known nonempty ordinals distinct valid)
                  ]
        ]
      ]
    ]
  ]
