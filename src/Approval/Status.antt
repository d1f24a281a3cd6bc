-- ===== src/Approval/Status.antt =====
-- app/modules/approval/status_logic.py
use datacraft_backend.Prelude.{ℕ, List, map, dedup, length, all, is_empty, if◌then◌else◌}
use datacraft_backend.Core.Text.{Text, text_eq}
use datacraft_backend.Models.Approval.{ApprovalStatus, Decision, is_approve}

unfoldable pub recompute_approval_request_status : List Decision → List ℕ → ApprovalStatus
recompute_approval_request_status all_decisions remaining_after =
    if is_empty remaining_after
    then (if all is_approve all_decisions then ApprovalStatus.approved else ApprovalStatus.rejected)
    else ApprovalStatus.partially_approved

-- The issues, and the number of distinct records among them.
unfoldable pub resolved_scope_from_rows : List (ℕ × Text) → List ℕ × ℕ
resolved_scope_from_rows rows =
    (map (λ row. row.0) rows, length (dedup (map (λ (row : ℕ × Text). row.1) rows)))
