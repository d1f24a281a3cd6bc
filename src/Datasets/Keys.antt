-- ===== src/Datasets/Keys.antt =====
-- app/modules/datasets/key_service.py and key_resolution.py
use datacraft_backend.Prelude.{
  ℕ, Bool, not, ◌&&◌, List, [], ◌∷◌, ◌++◌, map, some, Table, lookup, update, nat_eq, string_eq,
  option_eq, ◌==◌, keys, String, filter, if◌then◌else◌, is_empty, member, nodup, subset, ltb, suc,
  pair_eq,
}
use datacraft_backend.Core.Exceptions.{app, dataset_not_found, invalid_key_column_configuration}
use datacraft_backend.Core.Session.{
  Transaction, Context, gets, modify, commit, or_raise, raise_if, ◌>>=◌, ◌>>◌,
}
use datacraft_backend.Models.Rules.{Column, DatasetKeyColumn}
use datacraft_backend.Models.Trail.{MetaValue, ActorType}
use datacraft_backend.Trail.Audit.{record_change}

-- an entry of the request
pub record KeyColumn : Type 0 where
  pub column_id : ℕ
  pub ordinal : ℕ

abbrev pub column_ids_of : List KeyColumn → List ℕ
column_ids_of entries = map (λ k. k.column_id) entries

abbrev pub ordinals_of : List KeyColumn → List ℕ
ordinals_of entries = map (λ k. k.ordinal) entries

-- `sorted(key_columns, key=lambda kc: kc["ordinal"])`
abbrev pub insert_key : KeyColumn → List KeyColumn → List KeyColumn
insert_key k [] = k ∷ []
insert_key k (j ∷ rest) =
    let later = insert_key k rest in if ltb j.ordinal k.ordinal then j ∷ later else k ∷ j ∷ rest

abbrev pub sort_keys : List KeyColumn → List KeyColumn
sort_keys [] = []
sort_keys (k ∷ rest) = insert_key k (sort_keys rest)

-- the active columns of the dataset
abbrev pub is_active_column_of : ℕ → ℕ × Column → Bool
is_active_column_of dataset_id (_, col) = col.dataset_id == dataset_id && col.is_active

abbrev pub key_rows : ℕ → ℕ → List ℕ → List DatasetKeyColumn
key_rows dataset_id ordinal [] = []
key_rows dataset_id ordinal (id ∷ ids) =
    record { dataset_id = dataset_id; column_id = id; ordinal = ordinal }
    ∷ key_rows dataset_id (suc ordinal) ids

abbrev pub strategy_of : List ℕ → String
strategy_of (id ∷ []) = "SINGLE_COLUMN"
strategy_of _ = "COMPOSITE"

-- `col.is_primary_key = col.id in key_column_ids`
abbrev pub mark_columns : ℕ → List ℕ → Table Column → Table Column
mark_columns dataset_id ids [] = []
mark_columns dataset_id ids ((id, col) ∷ columns) =
    (if is_active_column_of dataset_id (id, col)
      then (id, record col { is_primary_key = member id ids })
      else (id, col))
    ∷ mark_columns dataset_id ids columns

-- The callers give it at least one column.
unfoldable pub apply_key_columns : ℕ → List ℕ → Transaction (Unit {0})
apply_key_columns dataset_id ids = modify (λ db. record db {
  dataset_key_columns =
      filter (λ r. not (r.dataset_id == dataset_id)) db.dataset_key_columns
      ++ key_rows dataset_id 0 ids;
  columns = mark_columns dataset_id ids db.columns;
  datasets = update dataset_id (λ d. record d { key_strategy = strategy_of ids }) db.datasets;
})

unfoldable pub set_key_columns : Context → ℕ → List KeyColumn → Transaction (Unit {0})
unfolding apply_key_columns record_change
set_key_columns c dataset_id entries = do
  found ← gets (λ db. lookup dataset_id db.datasets)
  dataset ← or_raise (app dataset_not_found) found
  raise_if (is_empty entries) (app invalid_key_column_configuration)
  raise_if (not (nodup (ordinals_of entries))) (app invalid_key_column_configuration)
  raise_if (not (nodup (column_ids_of entries))) (app invalid_key_column_configuration)
  valid ← gets (λ db. keys (filter (is_active_column_of dataset_id) db.columns))
  raise_if (not (subset (column_ids_of entries) valid)) (app invalid_key_column_configuration)
  let ordered = column_ids_of (sort_keys entries)
  apply_key_columns dataset_id ordered
  record_change (some c.actor) ActorType.user "dataset.key_columns_configured" "DATASET" dataset_id
      (("key_strategy", MetaValue.tag dataset.key_strategy) ∷ [])
      (("key_strategy", MetaValue.tag (strategy_of ordered))
        ∷ ("column_ids", MetaValue.ids ordered)
        ∷ [])
      []
  commit
