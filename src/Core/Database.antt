-- ===== src/Core/Database.antt =====
-- The tables that the modelled services share (app/db/models), and the supply of primary keys:
-- `gen_random_uuid()` gives a key that no row has, and keys are only compared.
use datacraft_backend.Prelude.{
  ℕ, ◌+◌, ◌<◌, ◌≤◌, ◌≡◌, refl, List, [], ◌∷◌, none, some, arith, Table, lookup, add, update,
  lookup-add, All, nat_eq, string_eq, option_eq, pair_eq,
}
use datacraft_backend.Models.Review.{ReviewRun, Issue, CorrectionSuggestion, Correction}
use datacraft_backend.Models.Approval.{ApprovalRequest, ApprovalDecision, ApprovalDecisionIssue}
use datacraft_backend.Models.Validation.{ValidationRun, ValidationResult, ValidationFailure}
use datacraft_backend.Models.Rules.{
  Rule, RuleVersion, RuleAssignment, RuleAssignmentColumn, Dataset, Column, DatasetKeyColumn,
}
use datacraft_backend.Models.Identity.{User, UserRole}
use datacraft_backend.Models.Staging.{StagingRun, StagingRecord}
use datacraft_backend.Models.Jobs.{Job, ProfileRun}
use datacraft_backend.Models.Publishing.{PublishRun}
use datacraft_backend.Models.Trail.{AuditEvent, LineageRecord}

pub record Database : Type 0 where
  pub next_id : ℕ
  pub review_runs : Table ReviewRun
  pub issues : Table Issue
  pub correction_suggestions : Table CorrectionSuggestion
  pub corrections : Table Correction
  pub approval_requests : Table ApprovalRequest
  pub approval_decisions : Table ApprovalDecision
  pub approval_decision_issues : List ApprovalDecisionIssue
  pub validation_runs : Table ValidationRun
  pub validation_results : Table ValidationResult
  pub validation_failures : Table ValidationFailure
  pub rules : Table Rule
  pub rule_versions : Table RuleVersion
  pub rule_assignments : Table RuleAssignment
  pub rule_assignment_columns : List RuleAssignmentColumn
  pub datasets : Table Dataset
  pub columns : Table Column
  pub dataset_key_columns : List DatasetKeyColumn
  pub users : Table User
  pub user_roles : List UserRole
  pub staging_runs : Table StagingRun
  pub staging_records : Table StagingRecord
  pub jobs : Table Job
  pub profile_runs : Table ProfileRun
  pub publish_runs : Table PublishRun
  pub audit_events : List AuditEvent
  pub lineage_records : List LineageRecord

-- Every key of the table was given out before.
abbrev pub KeysBelow : {R : Type 0} → ℕ → Table R → Type 0
KeysBelow n t = All (λ row. row.0 < n) t

pub lookup-KeysBelow : {R : Type 0} (n : ℕ) (t : Table R) → KeysBelow n t → lookup n t ≡ none
lookup-KeysBelow n [] h = refl
lookup-KeysBelow n ((j, r) ∷ t) h = ground (arith, lookup-KeysBelow n t h.1)

-- A new row is found under its new key.
pub lookup-add_new :
    {R : Type 0} (n : ℕ) (r : R) (t : Table R) → KeysBelow n t → lookup n (add n r t) ≡ some r
lookup-add_new n r t h = ground (arith, lookup-add n n r t, lookup-KeysBelow n t h)

pub KeysBelow-next :
    {R : Type 0} (n : ℕ) (r : R) (t : Table R) → KeysBelow n t → KeysBelow (n + 1) (add n r t)
KeysBelow-next n r [] h = omega arith
KeysBelow-next n r (row ∷ t) h = (omega arith, KeysBelow-next n r t h.1)

pub KeysBelow-update :
    {R : Type 0} (n k : ℕ) (f : R → R) (t : Table R) → KeysBelow n t → KeysBelow n (update k f t)
KeysBelow-update n k f [] h = tt
KeysBelow-update n k f ((j, r) ∷ t) h = (ground arith, KeysBelow-update n k f t h.1)

pub KeysBelow-mono : {R : Type 0} (n m : ℕ) (t : Table R) → n ≤ m → KeysBelow n t → KeysBelow m t
KeysBelow-mono n m [] le h = tt
KeysBelow-mono n m (row ∷ t) le h = (omega arith, KeysBelow-mono n m t le h.1)

-- A key that finds a row was given out before.
pub below-KeysBelow :
    {R : Type 0} (n k : ℕ) (r : R) (t : Table R) → lookup k t ≡ some r → KeysBelow n t → k < n
below-KeysBelow n k r [] e h = cc
below-KeysBelow n k r ((j, s) ∷ t) e h = ground (arith, below-KeysBelow n k r t)

pub KeysBelow-add :
    {R : Type 0} (n k : ℕ) (r : R) (t : Table R) → KeysBelow n t → k < n → KeysBelow n (add k r t)
KeysBelow-add n k r [] h lt = (lt, tt)
KeysBelow-add n k r (row ∷ t) h lt = (h.0, KeysBelow-add n k r t h.1 lt)
