-- ===== src/Validation/Engine.antt =====
-- app/modules/validation/engine.py
use datacraft_backend.Prelude.{
  ℕ, ◌-◌, Bool, true, false, not, ◌&&◌, ◌||◌, List, [], ◌∷◌, map, Option, none, some, nat_eq,
  string_eq, option_eq, ◌==◌, Equality, all, keys, String, if◌then◌else◌, Dict, dict_get, pair_eq,
  list_eq,
}
use datacraft_backend.Core.Text.{Text, text_eq, codes}
use datacraft_backend.Rules.Assignments.{text_lt}
use datacraft_backend.Validation.Failures.{RowFailure, fail_rows, fail_repeated}

-- `ColumnExactStats` of app/source_adapters/base.py
pub record ColumnExactStats : Type 0 where
  pub total_row_count : ℕ
  pub null_count : ℕ
  pub distinct_count : ℕ

-- What Python does with the values of a driver: their hashable form and how it compares, `str` and
-- `float`, which fails on a value that is no number, `re`, and the arithmetic of floats, of which the
-- evaluators ask whether 100.0 * a / b is at most a threshold.
pub record Python : Type 1 where
  pub Value : Type 0
  pub Key : Type 0
  pub Number : Type 0
  pub Regex : Type 0
  pub key_eq : Equality Key
  pub hashable : Value → Key
  pub str : Value → Text
  pub str_key : Key → Text
  pub str_all : List (Option Value) → Text
  pub float : Value → Option Number
  pub lt : Number → Number → Bool
  pub str_range : Option Number → Option Number → Text
  pub matches : Regex → Text → Bool
  pub pattern : Regex → Text
  pub is_percentage_at_most : ℕ → ℕ → Number → Bool

module _ (python : Python) where
  abbrev pub Row : Type 0
  Row = Dict Text (Option python.Value)

  -- `row.get(column_name)`, None where the column is missing
  abbrev pub flatten : Option (Option python.Value) → Option python.Value
  flatten none = none
  flatten (some v) = v

  abbrev pub value_of : Text → Row → Option python.Value
  value_of column_name row = flatten (dict_get column_name row)

  abbrev pub null_failure : Option python.Value → Option RowFailure
  null_failure none =
      some (record { failed_value = none; expected_value = some (codes "NOT NULL") })
  null_failure (some v) = none

  -- the push-down statistics say that the rule holds
  abbrev pub is_complete_enough : Option ColumnExactStats → python.Number → Bool
  is_complete_enough none limit = false
  is_complete_enough (some s) limit =
      not (s.total_row_count == 0)
      && python.is_percentage_at_most s.null_count s.total_row_count limit

  unfoldable pub evaluate_completeness :
      List Row → Text → python.Number → Option ColumnExactStats → Dict ℕ RowFailure
  unfolding fail_rows
  evaluate_completeness rows column_name max_null_percentage exact_stats =
      if is_complete_enough exact_stats max_null_percentage
      then []
      else fail_rows (λ row. null_failure (value_of column_name row)) 0 rows []

  -- `max(0, non_null - distinct_count)`, where the differences of ℕ stop at 0: the null count is at
  -- most the total, and a negative difference is 0.
  abbrev pub duplicate_count : ColumnExactStats → ℕ
  duplicate_count s = s.total_row_count - s.null_count - s.distinct_count

  abbrev pub is_unique_enough : Option ColumnExactStats → python.Number → Bool
  is_unique_enough none limit = false
  is_unique_enough (some s) limit =
      not (s.total_row_count == 0)
      && python.is_percentage_at_most (duplicate_count s) s.total_row_count limit

  abbrev pub key_of : Option python.Value → Option python.Key
  key_of none = none
  key_of (some v) = some (python.hashable v)

  abbrev pub unique_failure : python.Key → RowFailure
  unique_failure k = record {
    failed_value = some (python.str_key k);
    expected_value = some (codes "UNIQUE");
  }

  unfoldable pub evaluate_uniqueness :
      List Row → Text → python.Number → Option ColumnExactStats → Dict ℕ RowFailure
  unfolding fail_repeated
  evaluate_uniqueness rows column_name max_duplicate_percentage exact_stats =
      if is_unique_enough exact_stats max_duplicate_percentage
      then []
      else fail_repeated ⦃e = python.key_eq⦄ unique_failure
          (map (λ row. key_of (value_of column_name row)) rows)

  -- `sorted` of the entries, whose names differ
  abbrev pub insert_entry :
      Text × Option python.Key → List (Text × Option python.Key) → List (Text × Option python.Key)
  insert_entry entry [] = entry ∷ []
  insert_entry entry (other ∷ rest) =
      let later = insert_entry entry rest in
      if text_lt other.0 entry.0 then other ∷ later else entry ∷ other ∷ rest

  abbrev pub row_key : Row → List (Text × Option python.Key)
  row_key [] = []
  row_key ((name, v) ∷ row) = insert_entry (name, key_of v) (row_key row)

  abbrev pub row_key_eq : Equality (List (Text × Option python.Key))
  row_key_eq = list_eq ⦃ea = pair_eq ⦃ea = text_eq⦄ ⦃eb = option_eq ⦃e = python.key_eq⦄⦄⦄

  abbrev pub duplicate_failure : List (Text × Option python.Key) → RowFailure
  duplicate_failure k = record { failed_value = none; expected_value = some (codes "UNIQUE row") }

  unfoldable pub evaluate_duplicate : List Row → Dict ℕ RowFailure
  unfolding fail_repeated
  evaluate_duplicate rows =
      fail_repeated ⦃e = row_key_eq⦄ duplicate_failure (map (λ row. some (row_key row)) rows)

  abbrev pub is_below : Option python.Number → python.Number → Bool
  is_below none n = false
  is_below (some low) n = python.lt n low

  abbrev pub is_above : Option python.Number → python.Number → Bool
  is_above none n = false
  is_above (some high) n = python.lt high n

  -- A value that is null or no number passes.
  abbrev pub range_failure :
      Option python.Number → Option python.Number → Option python.Value → Option RowFailure
  range_failure low high none = none
  range_failure low high (some v) = elim (python.float v) [
    | none ↦ none
    | some n ↦
        if is_below low n || is_above high n
        then some (record {
          failed_value = some (python.str v);
          expected_value = some (python.str_range low high);
        })
        else none
  ]

  unfoldable pub evaluate_range :
      List Row → Text → Option python.Number → Option python.Number → Dict ℕ RowFailure
  unfolding fail_rows
  evaluate_range rows column_name low high =
      fail_rows (λ row. range_failure low high (value_of column_name row)) 0 rows []

  abbrev pub pattern_failure : python.Regex → Option python.Value → Option RowFailure
  pattern_failure regex none = none
  pattern_failure regex (some v) =
      if python.matches regex (python.str v)
      then none
      else some (record {
        failed_value = some (python.str v);
        expected_value = some (python.pattern regex);
      })

  -- without a pattern, or with an empty one, every row passes
  unfoldable pub evaluate_pattern : List Row → Text → Option python.Regex → Dict ℕ RowFailure
  unfolding fail_rows
  evaluate_pattern rows column_name none = []
  evaluate_pattern rows column_name (some regex) =
      fail_rows (λ row. pattern_failure regex (value_of column_name row)) 0 rows []

  -- `len(set(...)) > 1`
  abbrev pub are_all_equal : List (Option python.Key) → Bool
  are_all_equal [] = true
  are_all_equal (k ∷ keys) = all (λ j. ◌==◌ ⦃e = option_eq ⦃e = python.key_eq⦄⦄ k j) keys

  abbrev pub cross_column_failure : List Text → Row → Option RowFailure
  cross_column_failure names row =
      let values = map (λ name. value_of name row) names in
      if are_all_equal (map key_of values)
      then none
      else some (record {
        failed_value = some (python.str_all values);
        expected_value = some (codes "all equal");
      })

  -- `definition.get("check", "all_equal")`; any other check finds no failure.
  unfoldable pub evaluate_cross_column : List Row → List Text → String → Dict ℕ RowFailure
  unfolding fail_rows
  evaluate_cross_column rows names check =
      if check == "all_equal" then fail_rows (cross_column_failure names) 0 rows [] else []
