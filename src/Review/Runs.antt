-- ===== src/Review/Runs.antt =====
-- app/modules/review/state_machine.py and service.py
use datacraft_backend.Prelude.{
  ℕ, String, Bool, true, false, not, List, [], ◌∷◌, map, Option, none, some, Table, lookup, add,
  update, ◌==◌, nat_eq, if◌then◌else◌, filter, length, is_some,
}
use datacraft_backend.Core.Database.{Database}
use datacraft_backend.Core.Exceptions.{
  app, invalid_review_status_transition, review_run_not_found, source_validation_run_incomplete,
  validation_run_not_found,
}
use datacraft_backend.Core.Session.{
  Transaction, Context, pure, gets, or_raise, one_or_none, raise_if, modify, commit, new_id, ◌>>=◌,
  ◌>>◌,
}
use datacraft_backend.Models.Review.{ReviewStatus, ReviewRun, Issue, IssueStatus}
use datacraft_backend.Models.Validation.{ValidationFailure, ValidationResult, is_completed}
use datacraft_backend.Models.Approval.{ApprovalStatus, ApprovalRequest}
use datacraft_backend.Models.Trail.{MetaValue, ActorType}
use datacraft_backend.Trail.Audit.{record_event}
use datacraft_backend.Trail.Lineage.{edge, record_edge, record_edges_bulk}

unfoldable pub validate_archive_transition : ReviewStatus → Transaction (Unit {0})
validate_archive_transition ReviewStatus.archived =
    raise_if true (app invalid_review_status_transition)
validate_archive_transition _ = pure tt

unfoldable pub validate_restore_transition : ReviewStatus → Transaction (Unit {0})
validate_restore_transition ReviewStatus.archived = pure tt
validate_restore_transition _ = raise_if true (app invalid_review_status_transition)

-- `ApprovalRequest.status.in_(("PENDING", "PARTIALLY_APPROVED"))`
abbrev pub is_open : ApprovalStatus → Bool
is_open ApprovalStatus.pending = true
is_open ApprovalStatus.partially_approved = true
is_open _ = false

-- The open approval requests of a review run.
abbrev pub open_requests : ℕ → Database → Table ApprovalRequest
open_requests run_id db =
    filter (λ (_, r). if r.review_run_id == run_id then is_open r.status else false)
      db.approval_requests

unfoldable pub get : ℕ → Transaction ReviewRun
get id = do found ← gets (λ db. lookup id db.review_runs); or_raise (app review_run_not_found) found

abbrev pub set_review_run : ℕ → (ReviewRun → ReviewRun) → Transaction (Unit {0})
set_review_run id f = modify λ db. record db { review_runs = update id f db.review_runs }

unfoldable pub archive : Context → ℕ → Transaction (Unit {0})
unfolding get validate_archive_transition record_event
archive c id = do
  run ← get id
  validate_archive_transition run.status
  open_now ← gets (open_requests id)
  blocking ← one_or_none open_now
  raise_if (is_some blocking) (app invalid_review_status_transition)
  set_review_run id (λ r. record r {
    status = ReviewStatus.archived;
    archived_at = some c.now;
    updated_at = some c.now;
  })
  record_event (some c.actor) ActorType.user "review_run.archived" "REVIEW_RUN" id []
  commit

unfoldable pub restore : Context → ℕ → Transaction (Unit {0})
unfolding get validate_restore_transition record_event
restore c id = do
  run ← get id
  validate_restore_transition run.status
  set_review_run id (λ r. record r {
    status = ReviewStatus.in_review;
    archived_at = none;
    updated_at = some c.now;
  })
  record_event (some c.actor) ActorType.user "review_run.restored" "REVIEW_RUN" id []
  commit

-- The rows of `select(ValidationFailure, ValidationResult).join(...)`: each failure of the run with
-- the result that its foreign key names; a failure whose result is missing has no row.
unfoldable pub failures_with_results :
    ℕ
    → Table ValidationResult
    → Table ValidationFailure
    → List (ℕ × ValidationFailure × ValidationResult)
failures_with_results run_id results [] = []
failures_with_results run_id results ((id, f) ∷ rest) =
    let others = failures_with_results run_id results rest in
    if f.validation_run_id == run_id
    then elim (lookup f.validation_result_id results) [
      | none ↦ others
      | some r ↦ (id, f, r) ∷ others
    ]
    else others

abbrev pub issue_of : ℕ → ℕ × ValidationFailure × ValidationResult → Issue
issue_of run_id (failure_id, f, r) = record {
  review_run_id = run_id;
  validation_failure_id = failure_id;
  column_id = f.column_id;
  record_ref = r.record_ref;
  row_index = r.row_index;
  original_value = f.failed_value;
  severity = f.severity;
  status = IssueStatus.pending;
  updated_at = none;
}

-- `add_all(issues)`; the keys of the new rows
unfoldable pub add_issues :
    ℕ → List (ℕ × ValidationFailure × ValidationResult) → Transaction (List ℕ)
add_issues run_id [] = pure []
add_issues run_id (row ∷ rows) = do
  id ← new_id
  modify λ db. record db { issues = add id (issue_of run_id row) db.issues }
  ids ← add_issues run_id rows
  pure (id ∷ ids)

abbrev pub new_review_run : Context → ℕ → Option String → ReviewRun
new_review_run c validation_run_id name = record {
  validation_run_id = validation_run_id;
  name = name;
  status = ReviewStatus.draft;
  created_by = some c.actor;
  updated_at = none;
  archived_at = none;
}

unfoldable pub create_from_validation_run : Context → ℕ → Option String → Transaction ℕ
unfolding failures_with_results add_issues record_edge record_edges_bulk record_event
create_from_validation_run c validation_run_id name = do
  found ← gets (λ db. lookup validation_run_id db.validation_runs)
  validation_run ← or_raise (app validation_run_not_found) found
  raise_if (not (is_completed validation_run.status)) (app source_validation_run_incomplete)
  id ← new_id
  modify (λ db. record db {
    review_runs = add id (new_review_run c validation_run_id name) db.review_runs;
  })
  rows ←
      gets
        (λ db. failures_with_results validation_run_id db.validation_results db.validation_failures)
  issue_ids ← add_issues id rows
  record_edge (edge "VALIDATION_RUN" validation_run_id "REVIEW_RUN" id "DERIVED_FROM")
  record_edges_bulk (map (λ i. edge "REVIEW_RUN" id "ISSUE" i "DERIVED_FROM") issue_ids)
  record_event (some c.actor) ActorType.user "review_run.created" "REVIEW_RUN" id (
      ("validation_run_id", MetaValue.id validation_run_id)
      ∷ ("issue_count", MetaValue.count (length issue_ids))
      ∷ [])
  commit
  pure id
