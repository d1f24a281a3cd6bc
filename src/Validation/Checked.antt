-- ===== src/Validation/Checked.antt =====
-- Which rows the evaluators of app/modules/validation/engine.py that test each row alone fail.
use datacraft_backend.Prelude.{
  ℕ, ◌+◌, ◌<◌, ◌≤◌, ◌≡◌, inl, inr, refl, ap, ◌∙◌, List, [], ◌∷◌, Option, none, some, arith, nat_eq,
  string_eq, option_eq, ◌==◌, beq_refl, Bool-cases, Option-cases, String, if◌then◌else◌, suc, zero,
  Dict, dict_get, dict_set, dict_get-dict_set, pair_eq,
}
use datacraft_backend.Core.Text.{Text}
use datacraft_backend.Validation.Engine.{
  Python, Row, value_of, null_failure, range_failure, pattern_failure, cross_column_failure,
  evaluate_completeness, evaluate_range, evaluate_pattern, evaluate_cross_column,
}
use datacraft_backend.Validation.Failures.{RowFailure, set_failure, fail_rows}

module _ {R : Type 0} (check : R → Option RowFailure) where
  -- what the test says of the row at a place
  abbrev pub check_at : ℕ → List R → Option RowFailure
  check_at i [] = none
  check_at zero (row ∷ rows) = check row
  check_at (suc i) (row ∷ rows) = check_at i rows

  earlier_kept :
      (i idx : ℕ) (rows : List R) (failures : Dict ℕ RowFailure)
      → i < idx
      → dict_get i (fail_rows check idx rows failures) ≡ dict_get i failures
  unfolding fail_rows
  earlier_kept i idx [] failures lt = refl
  earlier_kept i idx (row ∷ rows) failures lt = elim (Option-cases (check row)) [
    | inl e ↦ rw e (earlier_kept i (suc idx) rows failures (omega arith))
    | inr (f, e) ↦ rw e (
        earlier_kept i (suc idx) rows (dict_set idx f failures) (omega arith)
        ∙ ground (arith, dict_get-dict_set i idx f failures))
  ]

  later_checked :
      (i idx : ℕ) (rows : List R) (failures : Dict ℕ RowFailure)
      → ((j : ℕ) → idx ≤ j → dict_get j failures ≡ none)
      → dict_get (idx + i) (fail_rows check idx rows failures) ≡ check_at i rows
  unfolding fail_rows
  later_checked i idx [] failures fresh = fresh (idx + i) (omega arith)
  later_checked zero idx (row ∷ rows) failures fresh =
      let here : idx + zero ≡ idx = omega arith in
      ap (λ n. dict_get n (fail_rows check (suc idx) rows (set_failure idx (check row) failures)))
        here
      ∙ earlier_kept idx (suc idx) rows (set_failure idx (check row) failures) (omega arith)
      ∙ elim (Option-cases (check row)) [
        | inl e ↦ rw e (fresh idx (omega arith))
        | inr (f, e) ↦ rw e (ground (arith, dict_get-dict_set idx idx f failures, beq_refl idx))
      ]
  later_checked (suc i) idx (row ∷ rows) failures fresh =
      let next : idx + suc i ≡ suc idx + i = omega arith in
      ap (λ n. dict_get n (fail_rows check (suc idx) rows (set_failure idx (check row) failures)))
        next
      ∙ later_checked i (suc idx) rows (set_failure idx (check row) failures) (λ j le.
        elim (Option-cases (check row)) [
          | inl e ↦ rw e (fresh j (omega arith))
          | inr (f, e) ↦
              rw e (ground (arith, dict_get-dict_set j idx f failures, fresh j (omega arith)))
        ])

  -- The failure under an index is what the test says of the row there.
  pub dict_get-fail_rows :
      (i : ℕ) (rows : List R) → dict_get i (fail_rows check 0 rows []) ≡ check_at i rows
  dict_get-fail_rows i rows =
      let start : i ≡ 0 + i = omega arith in
      ap (λ n. dict_get n (fail_rows check 0 rows [])) start
      ∙ later_checked i 0 rows [] (λ j le. refl)

module _ (python : Python) (rows : List (Row python)) (i : ℕ) where
  -- Without push-down statistics, the failure of a row under the completeness rule of a column says
  -- NOT NULL where the value is null or missing; otherwise there is none. Under the range, the pattern
  -- and the all_equal rule, the failure of a row is what the test says of it, and under any other
  -- cross-column check there is none.
  pub evaluators_lem :
      (column_name : Text) (names : List Text) (limit : python.Number)
      (low high : Option python.Number) (regex : python.Regex) (check : String)
      → (dict_get i (evaluate_completeness python rows column_name limit none)
          ≡ check_at (λ row. null_failure python (value_of python column_name row)) i rows)
        × (dict_get i (evaluate_range python rows column_name low high)
            ≡ check_at
                (λ row. range_failure python low high (value_of python column_name row))
                i
                rows)
        × (dict_get i (evaluate_pattern python rows column_name (some regex))
            ≡ check_at
                (λ row. pattern_failure python regex (value_of python column_name row))
                i
                rows)
        × (dict_get i (evaluate_cross_column python rows names check) ≡ (
            if check == "all_equal"
            then check_at (cross_column_failure python names) i rows
            else none))
  unfolding evaluate_completeness evaluate_range evaluate_pattern evaluate_cross_column
  evaluators_lem column_name names limit low high regex check = (
    dict_get-fail_rows _ i rows,
    dict_get-fail_rows _ i rows,
    dict_get-fail_rows _ i rows,
    elim (Bool-cases (check == "all_equal")) [
      | inl e ↦ rw e (dict_get-fail_rows _ i rows)
      | inr e ↦ rw e refl
    ],
  )
