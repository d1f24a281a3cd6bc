-- ===== src/Datasets/Evidence.antt =====
-- The evaluation of one set of columns, of app/modules/datasets/business_key_discovery.py.
use datacraft_backend.Prelude.{
  ℕ, Bool, not, ◌&&◌, List, [], ◌∷◌, map, Option, none, some, length, nat_eq, string_eq, option_eq,
  ◌==◌, Equality, any, String, filter, if◌then◌else◌, is_some, ltb, suc, zero, Dict, dict_get,
  dict_set, pair_eq, list_eq,
}
use datacraft_backend.Core.Text.{Text, text_eq}

pub data DiscoveryStatus : Type 0 where
  verified_unique : DiscoveryStatus
  sample_candidate : DiscoveryStatus
  ambiguous : DiscoveryStatus
  no_candidate : DiscoveryStatus

pub data EvidenceStatus : Type 0 where
  candidate : EvidenceStatus
  rejected : EvidenceStatus

pub record CandidateEvidence : Type 0 where
  pub columns : List Text
  pub width : ℕ
  pub status : EvidenceStatus
  pub reason : Option String
  pub total_rows_evaluated : ℕ
  pub null_key_rows : ℕ
  pub distinct_key_count : ℕ
  pub duplicate_key_groups : ℕ
  pub verification_level : Option DiscoveryStatus

abbrev pub or_zero : Option ℕ → ℕ
or_zero none = 0
or_zero (some n) = n

-- the reason of a rejection, from the rows with a null and the groups of duplicates
abbrev pub reason_of : ℕ → ℕ → String
reason_of zero zero = "no_rows_evaluated"
reason_of zero (suc groups) = "duplicate_values"
reason_of (suc nulls) zero = "contains_null_values"
reason_of (suc nulls) (suc groups) = "contains_null_values_and_duplicate_values"

-- `row.get(c)`, None where the column is missing
abbrev pub or_null : {A : Type 0} → Option (Option A) → Option A
or_null none = none
or_null (some v) = v

-- a row, by the names of its columns
abbrev pub SampleRow : Type 0 → Type 0
SampleRow Value = Dict Text (Option Value)

-- how often a tuple of values was met
abbrev pub Seen : Type 0 → Type 0
Seen Value = Dict (List (Option Value)) ℕ

module _ {Value : Type 0} ⦃value_eq : Equality Value⦄ where
  abbrev pub component : SampleRow Value → Text → Option Value
  component row name = or_null (dict_get name row)

  -- `tuple(row.get(c) for c in combo_columns)`
  abbrev pub values_of : List Text → SampleRow Value → List (Option Value)
  values_of columns row = map (component row) columns

  abbrev pub has_null : List (Option Value) → Bool
  has_null values = any (λ v. not (is_some v)) values

  abbrev pub count : List Text → List (SampleRow Value) → ℕ × Seen Value → ℕ × Seen Value
  count columns [] tally = tally
  count columns (row ∷ rows) (nulls, seen) =
      let values = values_of columns row in
      count columns rows (
        if has_null values then (suc nulls, seen) else (
          nulls,
          dict_set ⦃e = list_eq⦄ values (suc (or_zero (dict_get ⦃e = list_eq⦄ values seen))) seen,
        ))

  abbrev pub groups_of : Seen Value → ℕ
  groups_of seen = length (filter (λ entry. ltb 1 entry.1) seen)

  abbrev pub passes : ℕ → ℕ × Seen Value → Bool
  passes total (nulls, seen) =
      nulls == 0 && groups_of seen == 0 && length seen == total && ltb 0 total

  abbrev pub evidence_of : List Text → ℕ → Bool → ℕ × Seen Value → CandidateEvidence
  evidence_of columns total is_full_scan (nulls, seen) =
      let accepted = passes total (nulls, seen) in
      record {
        columns = columns;
        width = length columns;
        status = if accepted then candidate else rejected;
        reason = if accepted then none else some (reason_of nulls (groups_of seen));
        total_rows_evaluated = total;
        null_key_rows = nulls;
        distinct_key_count = length seen;
        duplicate_key_groups = groups_of seen;
        verification_level =
            if accepted
            then some (if is_full_scan then verified_unique else sample_candidate)
            else none;
      }

  unfoldable pub evaluate_combo : List (SampleRow Value) → Bool → List Text → CandidateEvidence
  evaluate_combo rows is_full_scan columns =
      evidence_of columns (length rows) is_full_scan (count columns rows (0, []))
