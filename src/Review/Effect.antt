-- ===== src/Review/Effect.antt =====
-- What a decision on one issue does (app/modules/review/decision_service.py): it raises and changes
-- nothing, or it writes the correction of its issue and the status of that issue.
pub mod OnIssue
pub mod Accept
pub mod Edit
pub mod Reject
pub mod Calls
use datacraft_backend.Prelude.{
  ◌+◌, ◌≤◌, ℕ, ◌≡◌, false, [], ◌∷◌, Option, some, Table, lookup, add, update, arith, ◌⊎◌, inl, inr,
  Bool-cases, String, none, true,
}
use datacraft_backend.Core.Text.{Text}
use datacraft_backend.Core.Database.{Database}
use datacraft_backend.Core.Exceptions.{Error, app, multiple_results, suggestion_already_decided}
use datacraft_backend.Core.Session.{Context, Result, err, call}
use datacraft_backend.Models.Review.{
  Issue, IssueStatus, Correction, CorrectionSuggestion, CorrectionStatus, ValueSource,
}
use datacraft_backend.Approval.Scope.{is_resolving}
use datacraft_backend.Review.Writes.{
  is_blank, is_terminal, is_frozen, corrections_of, Outcome, skipped_outcome, first_correction,
  redecided, rule_type_of,
}

-- The correction of issue `k` before a decision, and the corrections after it.
abbrev pub Written : Context → ℕ → Outcome → Database → Database → Type 0
Written c k o db db' =
    ((corrections_of k db.corrections ≡ [])
      × (db'.corrections ≡ add db.next_id (first_correction c k o) db.corrections)
      × (db'.next_id ≡ db.next_id + 1))
    ⊎ ((id : ℕ) × (row : Correction) × (corrections_of k db.corrections ≡ (id, row) ∷ [])
        × (is_terminal row.status ≡ false)
        × (db'.corrections ≡ update id (redecided c o) db.corrections)
        × (db'.next_id ≡ db.next_id))

-- Issue `k` was decided, with outcome `o` and issue status `st`.
pub record Decides (c : Context) (k : ℕ) (o : Outcome) (st : IssueStatus) (db db' : Database)
    : Type 0 where
  pub issue : Issue
  pub found : lookup k db.issues ≡ some issue
  pub open_run : is_frozen (lookup issue.review_run_id db.review_runs) ≡ false
  pub written : Written c k o db db'
  pub issues_after :
      db'.issues ≡ update k (λ r. record r { status = st; updated_at = some c.now }) db.issues
  pub runs_after : db'.review_runs ≡ db.review_runs
  pub usable : is_resolving o.status ≡ true → is_blank o.final_value ≡ false

abbrev pub Raises : Database → Result ℕ × Database → Type 0
Raises db (r, db') = (e : Error) × (r ≡ err e) × (db' ≡ db)

abbrev pub rule_type : Database → Issue → Option String
rule_type db = rule_type_of db.validation_failures db.rule_assignments db.rule_versions db.rules

abbrev pub edited_outcome : Option ℕ → Text → Outcome
edited_outcome suggestion value = record {
  suggestion = suggestion;
  final_value = some value;
  value_source = some ValueSource.human;
  status = CorrectionStatus.edited;
}

abbrev pub accepted_outcome : ℕ → CorrectionSuggestion → Outcome
accepted_outcome id s = record {
  suggestion = some id;
  final_value = some s.suggested_value;
  value_source = some s.source;
  status = CorrectionStatus.accepted;
}

abbrev pub rejected_outcome : ℕ → CorrectionSuggestion → Outcome
rejected_outcome id s = record {
  suggestion = some id;
  final_value = none;
  value_source = some s.source;
  status = CorrectionStatus.rejected;
}
