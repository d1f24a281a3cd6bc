-- ===== src/Review/Decisions.antt =====
-- app/modules/review/decision_service.py: `CorrectionDecisionService`, the only writer of corrections.
use datacraft_backend.Prelude.{ℕ, String, List, [], ◌∷◌, ◌++◌, Option, none, some}
use datacraft_backend.Core.Exceptions.{app, empty_final_value}
use datacraft_backend.Core.Session.{Transaction, Context, pure, raise_if, commit, ◌>>=◌, ◌>>◌}
use datacraft_backend.Core.Text.{Text}
use datacraft_backend.Models.Review.{IssueStatus, CorrectionStatus, ValueSource}
use datacraft_backend.Models.Trail.{MetaValue, ActorType}
use datacraft_backend.Trail.Audit.{record_event}
use datacraft_backend.Review.Writes.{
  is_blank, get_suggestion, get_issue, existing_correction, check_not_terminal, check_run_open,
  audit_metadata, skipped_outcome, upsert_correction, clear_other_selections, select_suggestion,
  set_issue_status,
}

unfoldable pub accept : Context → ℕ → Transaction ℕ
unfolding get_suggestion get_issue check_run_open check_not_terminal existing_correction is_blank
    upsert_correction clear_other_selections audit_metadata record_event
accept c suggestion_id = do
  suggestion ← get_suggestion suggestion_id
  issue ← get_issue suggestion.issue_id
  check_run_open issue.review_run_id
  before ← existing_correction suggestion.issue_id
  check_not_terminal before
  raise_if (is_blank (some suggestion.suggested_value)) (app empty_final_value)
  id ← upsert_correction c suggestion.issue_id (record {
    suggestion = some suggestion_id;
    final_value = some suggestion.suggested_value;
    value_source = some suggestion.source;
    status = CorrectionStatus.accepted;
  })
  clear_other_selections suggestion.issue_id suggestion_id
  select_suggestion c suggestion_id
  set_issue_status c suggestion.issue_id IssueStatus.resolved
  metadata ← audit_metadata suggestion.issue_id issue "ACCEPTED"
  record_event (some c.actor) ActorType.user "issue.accepted" "ISSUE" suggestion.issue_id metadata
  commit
  pure id

unfoldable pub edit : Context → ℕ → Text → Transaction ℕ
unfolding get_suggestion get_issue check_run_open check_not_terminal existing_correction is_blank
    upsert_correction clear_other_selections audit_metadata record_event
edit c suggestion_id final_value = do
  suggestion ← get_suggestion suggestion_id
  issue ← get_issue suggestion.issue_id
  check_run_open issue.review_run_id
  before ← existing_correction suggestion.issue_id
  check_not_terminal before
  raise_if (is_blank (some final_value)) (app empty_final_value)
  id ← upsert_correction c suggestion.issue_id (record {
    suggestion = some suggestion_id;
    final_value = some final_value;
    value_source = some ValueSource.human;
    status = CorrectionStatus.edited;
  })
  clear_other_selections suggestion.issue_id suggestion_id
  select_suggestion c suggestion_id
  set_issue_status c suggestion.issue_id IssueStatus.resolved
  metadata ← audit_metadata suggestion.issue_id issue "EDITED"
  record_event (some c.actor) ActorType.user "issue.edited" "ISSUE" suggestion.issue_id metadata
  commit
  pure id

-- An empty reason is no reason.
abbrev with_reason : Option Text → List (String × MetaValue) → List (String × MetaValue)
with_reason none m = m
with_reason (some []) m = m
with_reason (some (x ∷ s)) m = m ++ ("reason", MetaValue.text (x ∷ s)) ∷ []

unfoldable pub reject : Context → ℕ → Option Text → Transaction ℕ
unfolding get_suggestion get_issue check_run_open check_not_terminal existing_correction
    upsert_correction audit_metadata record_event
reject c suggestion_id reason = do
  suggestion ← get_suggestion suggestion_id
  issue ← get_issue suggestion.issue_id
  check_run_open issue.review_run_id
  before ← existing_correction suggestion.issue_id
  check_not_terminal before
  id ← upsert_correction c suggestion.issue_id (record {
    suggestion = some suggestion_id;
    final_value = none;
    value_source = some suggestion.source;
    status = CorrectionStatus.rejected;
  })
  set_issue_status c suggestion.issue_id IssueStatus.resolved
  metadata ← audit_metadata suggestion.issue_id issue "REJECTED"
  record_event (some c.actor) ActorType.user "issue.rejected" "ISSUE" suggestion.issue_id
      (with_reason reason metadata)
  commit
  pure id

unfoldable pub skip : Context → ℕ → Transaction ℕ
unfolding get_issue check_run_open check_not_terminal existing_correction upsert_correction
    audit_metadata record_event
skip c issue_id = do
  issue ← get_issue issue_id
  check_run_open issue.review_run_id
  before ← existing_correction issue_id
  check_not_terminal before
  id ← upsert_correction c issue_id skipped_outcome
  set_issue_status c issue_id IssueStatus.skipped
  metadata ← audit_metadata issue_id issue "SKIPPED"
  record_event (some c.actor) ActorType.user "issue.skipped" "ISSUE" issue_id metadata
  commit
  pure id

unfoldable pub correct_directly : Context → ℕ → Text → Transaction ℕ
unfolding get_issue check_run_open check_not_terminal existing_correction is_blank upsert_correction
    audit_metadata record_event
correct_directly c issue_id final_value = do
  issue ← get_issue issue_id
  check_run_open issue.review_run_id
  before ← existing_correction issue_id
  check_not_terminal before
  raise_if (is_blank (some final_value)) (app empty_final_value)
  id ← upsert_correction c issue_id (record {
    suggestion = none;
    final_value = some final_value;
    value_source = some ValueSource.human;
    status = CorrectionStatus.edited;
  })
  set_issue_status c issue_id IssueStatus.resolved
  metadata ← audit_metadata issue_id issue "CORRECTED_DIRECTLY"
  record_event (some c.actor) ActorType.user "issue.corrected_directly" "ISSUE" issue_id metadata
  commit
  pure id
