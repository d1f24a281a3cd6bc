-- ===== src/Models/Review.antt =====
-- app/db/models/review.py
use datacraft_backend.Prelude.{ℕ, String, Bool, true, false, Option}
use datacraft_backend.Core.Text.{Text}

-- the CHECK constraints of migration 0010 name the values
pub data ReviewStatus : Type 0 where
  draft in_review ready_for_approval archived : ReviewStatus

pub data IssueStatus : Type 0 where
  pending in_progress resolved skipped : IssueStatus

pub data CorrectionStatus : Type 0 where
  suggested accepted edited rejected skipped : CorrectionStatus

-- `correction_suggestions.source` and `corrections.value_source`
pub data ValueSource : Type 0 where
  rule_based ai human : ValueSource

pub record ReviewRun : Type 0 where
  pub validation_run_id : ℕ
  pub name : Option String
  pub status : ReviewStatus
  pub created_by : Option ℕ
  pub updated_at : Option ℕ
  pub archived_at : Option ℕ

pub record Issue : Type 0 where
  pub review_run_id : ℕ
  pub validation_failure_id : ℕ
  pub column_id : Option ℕ
  pub record_ref : Text
  pub row_index : ℕ
  pub original_value : Option Text
  pub severity : String
  pub status : IssueStatus
  pub updated_at : Option ℕ

pub record CorrectionSuggestion : Type 0 where
  pub issue_id : ℕ
  pub source : ValueSource
  pub suggested_value : Text
  pub category : String
  pub fix_type : String
  pub reasoning : Option String
  pub is_selected : Bool
  pub selected_by : Option ℕ
  pub selected_at : Option ℕ

pub record Correction : Type 0 where
  pub issue_id : ℕ
  pub correction_suggestion_id : Option ℕ
  pub final_value : Option Text
  pub value_source : Option ValueSource
  pub status : CorrectionStatus
  pub decided_by : Option ℕ
  pub decided_at : Option ℕ
  pub updated_at : Option ℕ

abbrev pub is_in_review : ReviewStatus → Bool
is_in_review ReviewStatus.in_review = true
is_in_review _ = false

abbrev pub is_ready_for_approval : ReviewStatus → Bool
is_ready_for_approval ReviewStatus.ready_for_approval = true
is_ready_for_approval _ = false
