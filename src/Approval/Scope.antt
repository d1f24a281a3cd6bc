-- ===== src/Approval/Scope.antt =====
-- app/modules/approval/service.py: the queries `_resolved_scope` and `_decided_issue_ids`.
use datacraft_backend.Prelude.{
  ℕ, Bool, true, false, ◌&&◌, List, [], ◌∷◌, ◌++◌, Table, ◌==◌, nat_eq, any, filter, dedup, is_some,
  if◌then◌else◌,
}
use datacraft_backend.Core.Database.{Database}
use datacraft_backend.Core.Text.{Text}
use datacraft_backend.Models.Review.{Issue, Correction, CorrectionStatus}
use datacraft_backend.Models.Approval.{ApprovalDecision, ApprovalDecisionIssue}
use datacraft_backend.Approval.Status.{resolved_scope_from_rows}

-- `Correction.status.in_(_RESOLVED_CORRECTION_STATUSES)`
abbrev pub is_resolving : CorrectionStatus → Bool
is_resolving CorrectionStatus.accepted = true
is_resolving CorrectionStatus.edited = true
is_resolving _ = false

-- the join condition and the conditions on the correction
abbrev pub resolves : ℕ → ℕ × Correction → Bool
resolves issue_id (_, r) =
    if r.issue_id == issue_id then is_some r.final_value && is_resolving r.status else false

-- One row of the join for each correction that resolves the issue.
unfoldable pub rows_of_issue : ℕ → Text → Table Correction → List (ℕ × Text)
rows_of_issue issue_id record_ref [] = []
rows_of_issue issue_id record_ref (row ∷ rest) =
    let others = rows_of_issue issue_id record_ref rest in
    if resolves issue_id row then (issue_id, record_ref) ∷ others else others

unfoldable pub resolved_rows : ℕ → Table Correction → Table Issue → List (ℕ × Text)
unfolding rows_of_issue
resolved_rows run_id corrections [] = []
resolved_rows run_id corrections ((id, issue) ∷ rest) =
    let others = resolved_rows run_id corrections rest in
    if issue.review_run_id == run_id
    then rows_of_issue id issue.record_ref corrections ++ others
    else others

-- `_resolved_scope`
unfoldable pub resolved_scope : ℕ → Database → List ℕ × ℕ
unfolding resolved_rows resolved_scope_from_rows
resolved_scope run_id db = resolved_scope_from_rows (resolved_rows run_id db.corrections db.issues)

abbrev pub belongs_to : ℕ → Table ApprovalDecision → ℕ → Bool
belongs_to request_id decisions decision_id =
    any (λ (id, d). if id == decision_id then d.approval_request_id == request_id else false)
      decisions

-- The issues of the join `approval_decision_issues` with `approval_decisions`, as a list.
unfoldable pub decided_rows : ℕ → Table ApprovalDecision → List ApprovalDecisionIssue → List ℕ
decided_rows request_id decisions [] = []
decided_rows request_id decisions (row ∷ rest) =
    let others = decided_rows request_id decisions rest in
    if belongs_to request_id decisions row.approval_decision_id
    then row.issue_id ∷ others
    else others

-- `_decided_issue_ids`
unfoldable pub decided_issue_ids : ℕ → Database → List ℕ
unfolding decided_rows
decided_issue_ids request_id db =
    dedup (decided_rows request_id db.approval_decisions db.approval_decision_issues)

-- `select(ApprovalDecision.decision).where(...)`
unfoldable pub decisions_of : ℕ → Table ApprovalDecision → List (ℕ × ApprovalDecision)
decisions_of request_id = filter (λ (_, d). d.approval_request_id == request_id)
