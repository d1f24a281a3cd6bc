-- ===== src/Models/Approval.antt =====
-- app/db/models/approval.py
use datacraft_backend.Prelude.{ℕ, Bool, true, false, Option}
use datacraft_backend.Core.Text.{Text}

pub data ApprovalStatus : Type 0 where
  pending approved rejected partially_approved : ApprovalStatus

pub data Decision : Type 0 where
  approve reject : Decision

pub record ApprovalRequest : Type 0 where
  pub review_run_id : ℕ
  pub status : ApprovalStatus
  pub affected_issue_count : ℕ
  pub affected_record_count : ℕ
  pub requested_by : Option ℕ
  pub decided_at : Option ℕ
  pub updated_at : Option ℕ

pub record ApprovalDecision : Type 0 where
  pub approval_request_id : ℕ
  pub decision : Decision
  pub comment : Option Text
  pub decided_by : ℕ

-- A row of `approval_decision_issues`, which has the pair as its primary key.
pub record ApprovalDecisionIssue : Type 0 where
  pub approval_decision_id : ℕ
  pub issue_id : ℕ

-- `d == "APPROVE"`
abbrev pub is_approve : Decision → Bool
is_approve Decision.approve = true
is_approve Decision.reject = false
