-- ===== src/Approval/Service.antt =====
-- app/modules/approval/service.py: `ApprovalService`
use datacraft_backend.Prelude.{
  ℕ, String, not, ◌||◌, List, [], ◌∷◌, ◌++◌, map, Option, none, some, lookup, add, update, nat_eq,
  dedup, diff, subset, filter, length, is_empty, is_some, if◌then◌else◌, member, Table,
}
use datacraft_backend.Core.Database.{Database}
use datacraft_backend.Core.Exceptions.{
  app, approval_request_already_pending, approval_request_not_found, issue_not_in_approval_scope,
  no_resolved_issues, review_run_not_found, review_run_not_ready_for_submission,
}
use datacraft_backend.Core.Session.{
  Transaction, Context, pure, gets, or_raise, one_or_none, raise_if, modify, commit, new_id, ◌>>=◌,
  ◌>>◌,
}
use datacraft_backend.Core.Text.{Text}
use datacraft_backend.Models.Review.{ReviewStatus, Correction, is_in_review}
use datacraft_backend.Models.Approval.{
  ApprovalStatus, Decision, ApprovalRequest, ApprovalDecisionIssue,
}
use datacraft_backend.Models.Trail.{MetaValue, ActorType}
use datacraft_backend.Trail.Audit.{record_event}
use datacraft_backend.Trail.Lineage.{edge, record_edges_bulk}
use datacraft_backend.Review.Runs.{open_requests, set_review_run}
use datacraft_backend.Approval.Status.{recompute_approval_request_status}
use datacraft_backend.Approval.Scope.{resolved_scope, decided_issue_ids, decisions_of}

unfoldable pub get : ℕ → Transaction ApprovalRequest
get id = do
  found ← gets (λ db. lookup id db.approval_requests)
  or_raise (app approval_request_not_found) found

abbrev pub new_request : Context → ℕ → List ℕ × ℕ → ApprovalRequest
new_request c run_id (issue_ids, record_count) = record {
  review_run_id = run_id;
  status = ApprovalStatus.pending;
  affected_issue_count = length issue_ids;
  affected_record_count = record_count;
  requested_by = some c.actor;
  decided_at = none;
  updated_at = none;
}

-- `select(Correction.id).where(Correction.issue_id.in_(issue_ids))`
abbrev pub correction_ids : List ℕ → Table Correction → List ℕ
correction_ids issue_ids t = map (λ row. row.0) (filter (λ (_, r). member r.issue_id issue_ids) t)

unfoldable pub submit : Context → ℕ → Transaction ℕ
unfolding record_event
submit c run_id = do
  found ← gets (λ db. lookup run_id db.review_runs)
  run ← or_raise (app review_run_not_found) found
  raise_if (not (is_in_review run.status)) (app review_run_not_ready_for_submission)
  open_now ← gets (open_requests run_id)
  existing ← one_or_none open_now
  raise_if (is_some existing) (app approval_request_already_pending)
  scope ← gets (resolved_scope run_id)
  raise_if (is_empty scope.0) (app no_resolved_issues)
  id ← new_id
  modify (λ db. record db {
    approval_requests = add id (new_request c run_id scope) db.approval_requests;
  })
  set_review_run run_id
      (λ r. record r { status = ReviewStatus.ready_for_approval; updated_at = some c.now })
  corrections ← gets (λ db. correction_ids scope.0 db.corrections)
  record_edges_bulk (map (λ i. edge "CORRECTION" i "APPROVAL_REQUEST" id "APPROVED_BY") corrections)
  record_event (some c.actor) ActorType.user "approval_request.submitted" "APPROVAL_REQUEST" id (
      ("review_run_id", MetaValue.id run_id)
      ∷ ("affected_issue_count", MetaValue.count (length scope.0))
      ∷ ("affected_record_count", MetaValue.count scope.1)
      ∷ [])
  commit
  pure id

-- the assignments to the request after a decision
abbrev pub decided_request : Context → List Decision → List ℕ → ApprovalRequest → ApprovalRequest
decided_request c all_decisions new_remaining r = record r {
  status = recompute_approval_request_status all_decisions new_remaining;
  decided_at = if is_empty new_remaining then some c.now else r.decided_at;
  updated_at = some c.now;
}

abbrev pub comment_metadata : Option Text → List (String × MetaValue)
comment_metadata none = []
comment_metadata (some []) = []
comment_metadata (some (x ∷ s)) = ("comment", MetaValue.text (x ∷ s)) ∷ []

abbrev pub decision_name : Decision → String
decision_name Decision.approve = "APPROVE"
decision_name Decision.reject = "REJECT"

abbrev pub decision_issue : ℕ → ℕ → ApprovalDecisionIssue
decision_issue decision_id issue_id = record {
  approval_decision_id = decision_id;
  issue_id = issue_id;
}

-- `set(resolved_issue_ids) - already_decided`
unfoldable pub remaining_scope : ℕ → ℕ → Database → List ℕ
remaining_scope request_id run_id db =
    diff (dedup (resolved_scope run_id db).0) (decided_issue_ids request_id db)

-- The row lock serialises the calls on one request: a call is one step of the model.
unfoldable pub decide : Context → ℕ → Decision → List ℕ → Option Text → Transaction (Unit {0})
unfolding get record_event
decide c id decision issue_ids comment = do
  request ← get id
  remaining ← gets (remaining_scope id request.review_run_id)
  let requested = dedup issue_ids
  raise_if (is_empty requested || not (subset requested remaining))
      (app issue_not_in_approval_scope)
  decision_id ← new_id
  modify (λ db. record db {
    approval_decisions =
        add decision_id
          (record {
            approval_request_id = id;
            decision = decision;
            comment = comment;
            decided_by = c.actor;
          })
          db.approval_decisions;
    approval_decision_issues =
        db.approval_decision_issues ++ map (decision_issue decision_id) requested;
  })
  let new_remaining = diff remaining requested
  rows ← gets (λ db. decisions_of id db.approval_decisions)
  modify (λ db. record db {
    approval_requests =
        update id (decided_request c (map (λ row. row.1.decision) rows) new_remaining)
          db.approval_requests;
  })
  record_event (some c.actor) ActorType.user "approval_request.decided" "APPROVAL_REQUEST" id (
      ("decision", MetaValue.tag (decision_name decision))
      ∷ ("issue_count", MetaValue.count (length requested))
      ∷ comment_metadata comment)
  commit

-- The request, how many of its issues are decided, and how many remain.
unfoldable pub get_detail : ℕ → Transaction (ApprovalRequest × ℕ × ℕ)
unfolding get remaining_scope
get_detail id = do
  request ← get id
  decided ← gets (decided_issue_ids id)
  remaining ← gets (remaining_scope id request.review_run_id)
  pure (request, length decided, length remaining)
