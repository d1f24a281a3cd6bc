-- ===== src/Examples/Data.antt =====
-- A review run with three issues: two resolved, on one record, and one that is still pending.
use datacraft_backend.Prelude.{
  ℕ, true, false, [], ◌∷◌, Option, none, some, Table, nat_eq, string_eq, option_eq, String, pair_eq,
}
use datacraft_backend.Core.Database.{Database}
use datacraft_backend.Core.Session.{Context}
use datacraft_backend.Core.Text.{Text, codes}
use datacraft_backend.Models.Review.{
  ReviewStatus, ReviewRun, IssueStatus, Issue, CorrectionStatus, Correction, CorrectionSuggestion,
  ValueSource,
}
use datacraft_backend.Models.Approval.{ApprovalStatus, Decision, ApprovalRequest}
use datacraft_backend.Models.Validation.{ValidationFailure}
use datacraft_backend.Models.Rules.{RuleStatus, Rule, RuleVersion, RuleAssignment}

abbrev pub reviewer : Context
reviewer = record { actor = 7; now = 1000 }

abbrev pub review_run : ReviewStatus → ReviewRun
review_run status = record {
  validation_run_id = 1;
  name = none;
  status = status;
  created_by = some 7;
  updated_at = none;
  archived_at = none;
}

abbrev pub issue_on : ℕ → String → IssueStatus → Issue
issue_on failure ref status = record {
  review_run_id = 10;
  validation_failure_id = failure;
  column_id = some 5;
  record_ref = codes ref;
  row_index = 0;
  original_value = none;
  severity = "HIGH";
  status = status;
  updated_at = none;
}

abbrev pub correction_on : ℕ → CorrectionStatus → Option Text → Correction
correction_on issue_id status value = record {
  issue_id = issue_id;
  correction_suggestion_id = none;
  final_value = value;
  value_source = some ValueSource.human;
  status = status;
  decided_by = some 7;
  decided_at = some 900;
  updated_at = none;
}

abbrev pub suggestion_on : ℕ → Text → CorrectionSuggestion
suggestion_on issue_id value = record {
  issue_id = issue_id;
  source = ValueSource.rule_based;
  suggested_value = value;
  category = "DETERMINISTIC";
  fix_type = "mode_fill";
  reasoning = none;
  is_selected = false;
  selected_by = none;
  selected_at = none;
}

abbrev failure_on : ValidationFailure
failure_on = record {
  validation_result_id = 60;
  validation_run_id = 1;
  rule_assignment_id = 70;
  column_id = some 5;
  severity = "HIGH";
  failed_value = none;
}

abbrev pub completeness : Rule
completeness = record {
  name = codes "no empty city";
  description = none;
  category = none;
  rule_type = "COMPLETENESS";
  origin = "BUILT_IN";
  status = RuleStatus.active;
  created_by = some 7;
  updated_at = none;
}

abbrev pub first_version : RuleVersion
first_version = record {
  rule_id = 90;
  version_number = 1;
  definition = record { detected_for = none; parameters = codes "{}" };
  severity = "HIGH";
  error_message_template = none;
  is_current = true;
  created_by = some 7;
}

abbrev on_column : RuleAssignment
on_column = record {
  rule_version_id = 80;
  dataset_id = 3;
  assignment_scope = "SINGLE_COLUMN";
  column_id = some 5;
  cross_column_key = none;
  template_id = none;
  is_enabled = true;
  assigned_by = some 7;
  updated_at = none;
}

abbrev pub empty_db : Database
empty_db = record {
  next_id = 100;
  review_runs = [];
  issues = [];
  correction_suggestions = [];
  corrections = [];
  approval_requests = [];
  approval_decisions = [];
  approval_decision_issues = [];
  validation_runs = [];
  validation_results = [];
  validation_failures = (50, failure_on) ∷ (51, failure_on) ∷ (52, failure_on) ∷ [];
  rules = (90, completeness) ∷ [];
  rule_versions = (80, first_version) ∷ [];
  rule_assignments = (70, on_column) ∷ [];
  rule_assignment_columns = [];
  datasets =
      (
        3,
        record {
          schema_id = 2;
          name = codes "customers";
          is_active = true;
          key_strategy = "SINGLE_COLUMN";
          updated_at = none;
        },
      )
      ∷ [];
  columns =
      (5, record { dataset_id = 3; name = codes "city"; is_active = true; is_primary_key = true })
      ∷ (
        6,
        record { dataset_id = 3; name = codes "region"; is_active = true; is_primary_key = false },
      )
      ∷ [];
  dataset_key_columns = record { dataset_id = 3; column_id = 5; ordinal = 0 } ∷ [];
  users = [];
  user_roles = [];
  staging_runs = [];
  staging_records = [];
  jobs = [];
  profile_runs = [];
  publish_runs = [];
  audit_events = [];
  lineage_records = [];
}

abbrev pub two_corrections : Table Correction
two_corrections =
    (30, correction_on 20 CorrectionStatus.accepted (some (codes "ACME")))
    ∷ (31, correction_on 21 CorrectionStatus.edited (some (codes "Bonn")))
    ∷ []

abbrev pub approved_request : ApprovalRequest
approved_request = record {
  review_run_id = 10;
  status = ApprovalStatus.approved;
  affected_issue_count = 2;
  affected_record_count = 1;
  requested_by = some 7;
  decided_at = some 950;
  updated_at = some 950;
}

-- the review run 10 with the given status
abbrev pub review_db : ReviewStatus → Database
review_db status = record empty_db {
  review_runs = (10, review_run status) ∷ [];
  issues =
      (20, issue_on 50 "r1" IssueStatus.resolved)
      ∷ (21, issue_on 51 "r1" IssueStatus.resolved)
      ∷ (22, issue_on 52 "r2" IssueStatus.pending)
      ∷ [];
  correction_suggestions = (40, suggestion_on 22 (codes "Paris")) ∷ [];
  corrections = two_corrections;
}

-- Issues 20 and 21 were approved under request 41. Then the run was archived and restored, and issues
-- 22 and 23 were resolved.
abbrev pub restored_db : Database
restored_db = record empty_db {
  review_runs = (10, review_run ReviewStatus.in_review) ∷ [];
  issues =
      (20, issue_on 50 "r1" IssueStatus.resolved)
      ∷ (21, issue_on 51 "r1" IssueStatus.resolved)
      ∷ (22, issue_on 52 "r2" IssueStatus.resolved)
      ∷ (23, issue_on 50 "r3" IssueStatus.resolved)
      ∷ [];
  corrections =
      (30, correction_on 20 CorrectionStatus.accepted (some (codes "ACME")))
      ∷ (31, correction_on 21 CorrectionStatus.edited (some (codes "Bonn")))
      ∷ (32, correction_on 22 CorrectionStatus.edited (some (codes "Oslo")))
      ∷ (33, correction_on 23 CorrectionStatus.edited (some (codes "Rome")))
      ∷ [];
  approval_requests = (41, approved_request) ∷ [];
  approval_decisions =
      (
        42,
        record {
          approval_request_id = 41;
          decision = Decision.approve;
          comment = none;
          decided_by = 8;
        },
      )
      ∷ [];
  approval_decision_issues =
      record { approval_decision_id = 42; issue_id = 20 }
      ∷ record { approval_decision_id = 42; issue_id = 21 }
      ∷ [];
}
