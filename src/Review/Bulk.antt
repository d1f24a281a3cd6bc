-- ===== src/Review/Bulk.antt =====
-- app/modules/review/decision_service.py: `bulk_action`
use datacraft_backend.Prelude.{ℕ, String, List, [], ◌∷◌, none, some, lookup, length}
use datacraft_backend.Core.Exceptions.{app, invalid_review_status_transition, review_run_not_found}
use datacraft_backend.Core.Session.{
  Transaction, Context, pure, gets, or_raise, raise_if, commit, ◌>>=◌, ◌>>◌,
}
use datacraft_backend.Models.Review.{IssueStatus, CorrectionStatus, is_ready_for_approval}
use datacraft_backend.Models.Trail.{MetaValue, ActorType}
use datacraft_backend.Trail.Audit.{record_event}
use datacraft_backend.Review.Writes.{
  get_issue, existing_correction, check_not_terminal, Outcome, skipped_outcome, upsert_correction,
  set_issue_status,
}

-- The request schema lets through "skip" and "reject" alone.
pub data BulkAction : Type 0 where
  skip reject : BulkAction

-- The first loop: every issue is looked up and checked before any is written.
unfoldable pub check_issues : List ℕ → Transaction (Unit {0})
unfolding get_issue check_not_terminal existing_correction
check_issues [] = pure tt
check_issues (issue_id ∷ rest) = do
  get_issue issue_id
  before ← existing_correction issue_id
  check_not_terminal before
  check_issues rest

abbrev pub bulk_outcome : BulkAction → Outcome
bulk_outcome BulkAction.skip = skipped_outcome
bulk_outcome BulkAction.reject = record {
  suggestion = none;
  final_value = none;
  value_source = none;
  status = CorrectionStatus.rejected;
}

abbrev pub bulk_status : BulkAction → IssueStatus
bulk_status BulkAction.skip = IssueStatus.skipped
bulk_status BulkAction.reject = IssueStatus.resolved

abbrev pub bulk_name : BulkAction → String
bulk_name BulkAction.skip = "skip"
bulk_name BulkAction.reject = "reject"

-- The second loop.
unfoldable pub write_issues : Context → BulkAction → List ℕ → Transaction (Unit {0})
unfolding upsert_correction
write_issues c action [] = pure tt
write_issues c action (issue_id ∷ rest) = do
  upsert_correction c issue_id (bulk_outcome action)
  set_issue_status c issue_id (bulk_status action)
  write_issues c action rest

unfoldable pub bulk_action : Context → ℕ → List ℕ → BulkAction → Transaction ℕ
unfolding check_issues write_issues record_event
bulk_action c review_run_id issue_ids action = do
  found ← gets (λ db. lookup review_run_id db.review_runs)
  run ← or_raise (app review_run_not_found) found
  raise_if (is_ready_for_approval run.status) (app invalid_review_status_transition)
  check_issues issue_ids
  write_issues c action issue_ids
  record_event (some c.actor) ActorType.user "issue.bulk_action" "REVIEW_RUN" review_run_id (
      ("action", MetaValue.tag (bulk_name action))
      ∷ ("issue_count", MetaValue.count (length issue_ids))
      ∷ [])
  commit
  pure (length issue_ids)
