-- ===== src/Datasets/Discovery.antt =====
-- app/modules/datasets/business_key_discovery.py
use datacraft_backend.Prelude.{
  ℕ, Bool, true, false, not, ◌&&◌, ◌||◌, List, [], ◌∷◌, ◌++◌, map, Option, none, some, length,
  nat_eq, string_eq, option_eq, ◌==◌, Equality, String, filter, if◌then◌else◌, is_empty, member,
  ltb, leb, suc, zero, pair_eq,
}
use datacraft_backend.Core.Text.{Text, text_eq}
use datacraft_backend.Rules.Assignments.{text_lt}
use datacraft_backend.Datasets.Evidence.{
  DiscoveryStatus, ambiguous, no_candidate, EvidenceStatus, candidate, rejected, CandidateEvidence,
  SampleRow, evaluate_combo,
}

pub record ColumnMeta : Type 0 where
  pub name : Text
  pub normalized_data_type : Option String

pub record RejectedColumn : Type 0 where
  pub name : Text
  pub normalized_data_type : Option String
  pub reason : String

-- The status of a result with one candidate is its verification level, which is None of a rejected one.
pub record BusinessKeyDiscoveryResult : Type 0 where
  pub status : Option DiscoveryStatus
  pub recommended : Option CandidateEvidence
  pub candidates : List CandidateEvidence
  pub evaluated : List CandidateEvidence
  pub rejected_columns : List RejectedColumn
  pub widths_searched : List ℕ
  pub total_rows_evaluated : ℕ
  pub is_full_scan : Bool
  pub reason : Option String

-- `itertools.combinations`
abbrev pub combinations : {A : Type 0} → List A → ℕ → List (List A)
combinations xs zero = [] ∷ []
combinations [] (suc width) = []
combinations (x ∷ xs) (suc width) =
    map (λ rest. x ∷ rest) (combinations xs width) ++ combinations xs (suc width)

-- `<` of tuples of names
abbrev pub columns_lt : List Text → List Text → Bool
columns_lt [] [] = false
columns_lt [] (b ∷ q) = true
columns_lt (a ∷ p) [] = false
columns_lt (a ∷ p) (b ∷ q) = if a == b then columns_lt p q else text_lt a b

-- `_display_sort_key` of the one is below that of the other
abbrev pub is_displayed_before : CandidateEvidence → CandidateEvidence → Bool
is_displayed_before a b =
    ltb a.width b.width || (a.width == b.width && columns_lt a.columns b.columns)

abbrev pub insert_evidence : CandidateEvidence → List CandidateEvidence → List CandidateEvidence
insert_evidence e [] = e ∷ []
insert_evidence e (other ∷ rest) =
    let later = insert_evidence e rest in
    if is_displayed_before other e then other ∷ later else e ∷ other ∷ rest

abbrev pub sort_evidence : List CandidateEvidence → List CandidateEvidence
sort_evidence [] = []
sort_evidence (e ∷ rest) = insert_evidence e (sort_evidence rest)

abbrev pub is_candidate_status : EvidenceStatus → Bool
is_candidate_status candidate = true
is_candidate_status rejected = false

abbrev pub is_candidate : CandidateEvidence → Bool
is_candidate e = is_candidate_status e.status

-- `str.upper` is a parameter
module _ (upper : String → String) where
  abbrev pub or_empty_type : Option String → String
  or_empty_type none = ""
  or_empty_type (some name) = name

  abbrev pub is_eligible_type : ColumnMeta → Bool
  is_eligible_type c =
      member (upper (or_empty_type c.normalized_data_type))
        ("STRING" ∷ "INTEGER" ∷ "DATE" ∷ "DATETIME" ∷ [])

  abbrev pub rejected_of : List ColumnMeta → List RejectedColumn
  rejected_of columns =
      map
        (λ c. record {
          name = c.name;
          normalized_data_type = c.normalized_data_type;
          reason = "unsupported_type";
        })
        (filter (λ c. not (is_eligible_type c)) columns)

  module _ {Value : Type 0} ⦃value_eq : Equality Value⦄ (columns : List ColumnMeta)
      (rows : List (SampleRow Value)) (is_full_scan : Bool) where
    -- the fields that every result of one call has
    abbrev pub result :
        Option DiscoveryStatus
        → Option CandidateEvidence
        → List CandidateEvidence
        → List CandidateEvidence
        → List ℕ
        → Option String
        → BusinessKeyDiscoveryResult
    result status recommended candidates evaluated widths reason = record {
      status = status;
      recommended = recommended;
      candidates = candidates;
      evaluated = evaluated;
      rejected_columns = rejected_of columns;
      widths_searched = widths;
      total_rows_evaluated = length rows;
      is_full_scan = is_full_scan;
      reason = reason;
    }

    abbrev pub eligible_names : List Text
    eligible_names = map (λ c. c.name) (filter is_eligible_type columns)

    -- the sorted candidates of one width, what was evaluated and the widths up to it, and the result of
    -- the wider ones
    abbrev pub choose :
        List CandidateEvidence
        → List CandidateEvidence
        → List ℕ
        → BusinessKeyDiscoveryResult
        → BusinessKeyDiscoveryResult
    choose [] evaluated widths wider = wider
    choose (one ∷ []) evaluated widths wider =
        result one.verification_level (some one) (one ∷ []) evaluated widths none
    choose (one ∷ other ∷ more) evaluated widths wider =
        result (some ambiguous) none (one ∷ other ∷ more) evaluated widths
          (some "multiple_equally_minimal_verified_candidates")

    abbrev pub evidence_at : ℕ → List CandidateEvidence
    evidence_at width = map (evaluate_combo rows is_full_scan) (combinations eligible_names width)

    -- The loop over the widths, of which so many are left from the given one on.
    abbrev pub search : ℕ → ℕ → List CandidateEvidence → List ℕ → BusinessKeyDiscoveryResult
    search zero width evaluated widths =
        result (some no_candidate) none [] evaluated widths
          (some "no_defensible_candidate_up_to_max_width")
    search (suc left) width evaluated widths =
        choose (sort_evidence (filter is_candidate (evidence_at width)))
          (evaluated ++ evidence_at width) (widths ++ width ∷ [])
          (search left (suc width) (evaluated ++ evidence_at width) (widths ++ width ∷ []))

    abbrev pub max_width : ℕ
    max_width = if leb 3 (length eligible_names) then 3 else length eligible_names

    unfoldable pub discover_business_key_candidates : BusinessKeyDiscoveryResult
    discover_business_key_candidates =
        if ltb (length rows) 2
        then result (some no_candidate) none [] [] [] (some "insufficient_row_count")
        else if is_empty eligible_names
        then result (some no_candidate) none [] [] [] (some "no_eligible_columns")
        else search max_width 1 [] []
