-- ===== src/Examples/Datasets.antt =====
-- A dataset with three columns, of which one is inactive, and the key of another dataset.
use datacraft_backend.Prelude.{
  ℕ, ◌≡◌, ◌⊎◌, refl, Bool, true, false, List, [], ◌∷◌, none, some, nat_eq, string_eq, option_eq,
  String, pair_eq,
}
use datacraft_backend.Core.Database.{Database}
use datacraft_backend.Core.Exceptions.{Error, app, invalid_key_column_configuration}
use datacraft_backend.Core.Session.{ok, err}
use datacraft_backend.Core.Text.{codes, text_eq}
use datacraft_backend.Models.Rules.{Column}
use datacraft_backend.Datasets.Keys.{KeyColumn, set_key_columns}
use datacraft_backend.Datasets.Configured.{configures, Configured, set_key_columns_effect}
use datacraft_backend.Datasets.Evidence.{
  CandidateEvidence, verified_unique, sample_candidate, SampleRow, evaluate_combo,
}
use datacraft_backend.Datasets.Discovery.{ColumnMeta, discover_business_key_candidates}
use datacraft_backend.Datasets.Verified.{IsKey, discover_verified}
use datacraft_backend.Examples.Data.{reviewer, empty_db}

abbrev column : String → Bool → Column
column name is_active = record {
  dataset_id = 3;
  name = codes name;
  is_active = is_active;
  is_primary_key = false;
}

abbrev keyed_db : Database
keyed_db = record empty_db {
  datasets =
      (
        3,
        record {
          schema_id = 1;
          name = codes "orders";
          is_active = true;
          key_strategy = "ROW_INDEX_FALLBACK";
          updated_at = none;
        },
      )
      ∷ [];
  columns = (5, column "region" true) ∷ (6, column "number" true) ∷ (7, column "old" false) ∷ [];
  dataset_key_columns = record { dataset_id = 4; column_id = 9; ordinal = 0 } ∷ [];
}

-- the number first, then the region
abbrev request : List KeyColumn
request = record { column_id = 5; ordinal = 20 } ∷ record { column_id = 6; ordinal = 10 } ∷ []

configures_both : (configures reviewer 3 request keyed_db).0 ≡ ok tt
unfolding set_key_columns
configures_both = refl

numbers_them :
    (configures reviewer 3 request keyed_db).1.dataset_key_columns
    ≡ record { dataset_id = 4; column_id = 9; ordinal = 0 }
      ∷ record { dataset_id = 3; column_id = 6; ordinal = 0 }
      ∷ record { dataset_id = 3; column_id = 5; ordinal = 1 }
      ∷ []
unfolding set_key_columns
numbers_them = refl

-- column 7 is inactive
refuses :
    (configures reviewer 3 (record { column_id = 7; ordinal = 0 } ∷ []) keyed_db).0
    ≡ err (app invalid_key_column_configuration)
unfolding set_key_columns
refuses = refl

set_key_columns_effect_example :
    ((e : Error) × (configures reviewer 3 request keyed_db ≡ (err e, keyed_db)))
    ⊎ Configured reviewer 3 request keyed_db
set_key_columns_effect_example = set_key_columns_effect reviewer 3 request keyed_db

abbrev order : ℕ → ℕ → SampleRow ℕ
order number region = (codes "number", some number) ∷ (codes "region", some region) ∷ []

abbrev orders : List (SampleRow ℕ)
orders = order 1 4 ∷ order 2 4 ∷ order 3 5 ∷ []

abbrev metas : List ColumnMeta
metas =
    record { name = codes "number"; normalized_data_type = some "INTEGER" }
    ∷ record { name = codes "region"; normalized_data_type = some "STRING" }
    ∷ []

-- upper case letters only
abbrev same : String → String
same name = name

-- the number alone is unique, so no pair of columns is tried
finds_number : (discover_business_key_candidates same metas orders true).widths_searched ≡ 1 ∷ []
unfolding discover_business_key_candidates evaluate_combo
finds_number = refl

-- a sample proves nothing
samples : (discover_business_key_candidates same metas orders false).status ≡ some sample_candidate
unfolding discover_business_key_candidates evaluate_combo
samples = refl

verifies : (discover_business_key_candidates same metas orders true).status ≡ some verified_unique
unfolding discover_business_key_candidates evaluate_combo
verifies = refl

discover_verified_example :
    (one : CandidateEvidence) × ((discover_business_key_candidates same metas orders
        true).recommended
      ≡ some one)
    × (true ≡ true)
    × IsKey one.columns orders
discover_verified_example = discover_verified orders true same metas verifies
