-- ===== src/Validation/Failures.antt =====
-- The loops that the evaluators of app/modules/validation/engine.py share.
use datacraft_backend.Prelude.{
  ℕ, Bool, true, false, List, [], ◌∷◌, ◌++◌, Option, none, some, nat_eq, string_eq, option_eq,
  Equality, keys, if◌then◌else◌, suc, Dict, dict_get, dict_set,
}
use datacraft_backend.Core.Text.{Text}

-- Of the reason, which is a text for a reader, nothing is kept.
pub record RowFailure : Type 0 where
  pub failed_value : Option Text
  pub expected_value : Option Text

-- `if ...: failures[idx] = ...`
abbrev pub set_failure : ℕ → Option RowFailure → Dict ℕ RowFailure → Dict ℕ RowFailure
set_failure idx none failures = failures
set_failure idx (some f) failures = dict_set idx f failures

-- `for idx, row in enumerate(rows)` with a test of the row alone
unfoldable pub fail_rows :
    {R : Type 0} → (R → Option RowFailure) → ℕ → List R → Dict ℕ RowFailure → Dict ℕ RowFailure
fail_rows check idx [] failures = failures
fail_rows check idx (row ∷ rows) failures =
    fail_rows check (suc idx) rows (set_failure idx (check row) failures)

abbrev pub or_no_indices : Option (List ℕ) → List ℕ
or_no_indices none = []
or_no_indices (some indices) = indices

abbrev pub fail_indices : List ℕ → RowFailure → Dict ℕ RowFailure → Dict ℕ RowFailure
fail_indices [] f failures = failures
fail_indices (idx ∷ indices) f failures = fail_indices indices f (dict_set idx f failures)

-- two indices at least
abbrev pub is_repeated : List ℕ → Bool
is_repeated [] = false
is_repeated (i ∷ []) = false
is_repeated (i ∷ j ∷ indices) = true

module _ {K : Type 0} ⦃e : Equality K⦄ where
  -- `seen.setdefault(key, []).append(idx)` for every row that has a key
  abbrev pub see : ℕ → Option K → Dict K (List ℕ) → Dict K (List ℕ)
  see idx none seen = seen
  see idx (some k) seen = dict_set k (or_no_indices (dict_get k seen) ++ idx ∷ []) seen

  abbrev pub see_rows : ℕ → List (Option K) → Dict K (List ℕ) → Dict K (List ℕ)
  see_rows idx [] seen = seen
  see_rows idx (key ∷ keys) seen = see_rows (suc idx) keys (see idx key seen)

  -- `for value, indices in seen.items(): if len(indices) > 1: ...`
  abbrev pub fail_groups :
      (K → RowFailure) → Dict K (List ℕ) → Dict ℕ RowFailure → Dict ℕ RowFailure
  fail_groups failure [] failures = failures
  fail_groups failure ((k, indices) ∷ seen) failures =
      fail_groups failure seen
        (if is_repeated indices then fail_indices indices (failure k) failures else failures)

  unfoldable pub fail_repeated : (K → RowFailure) → List (Option K) → Dict ℕ RowFailure
  fail_repeated failure keys = fail_groups failure (see_rows 0 keys []) []
