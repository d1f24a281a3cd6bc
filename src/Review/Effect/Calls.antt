-- ===== src/Review/Effect/Calls.antt =====
-- The five calls that decide one issue, as one type of calls.
use datacraft_backend.Prelude.{ℕ, Option, none, some, lookup, ◌⊎◌, inl, inr, arith, Option-cases}
use datacraft_backend.Core.Database.{Database}
use datacraft_backend.Core.Exceptions.{app, suggestion_not_found}
use datacraft_backend.Core.Session.{Transaction, Context, call}
use datacraft_backend.Core.Text.{Text}
use datacraft_backend.Models.Review.{IssueStatus}
use datacraft_backend.Review.Writes.{Outcome, skipped_outcome}
use datacraft_backend.Review.Decisions.{accept, edit, reject, skip, correct_directly}
use datacraft_backend.Review.Effect.{
  Decides, Raises, edited_outcome, accepted_outcome, rejected_outcome,
}
use datacraft_backend.Review.Effect.OnIssue.{skip_decided, correct_directly_decided}
use datacraft_backend.Review.Effect.Accept.{accept_decided}
use datacraft_backend.Review.Effect.Edit.{edit_decided}
use datacraft_backend.Review.Effect.Reject.{reject_decided}

pub data DecisionCall : Type 0 where
  accept_call : ℕ → DecisionCall
  edit_call : ℕ → Text → DecisionCall
  reject_call : ℕ → Option Text → DecisionCall
  skip_call : ℕ → DecisionCall
  correct_call : ℕ → Text → DecisionCall

abbrev pub perform : Context → DecisionCall → Transaction ℕ
perform c (accept_call id) = accept c id
perform c (edit_call id value) = edit c id value
perform c (reject_call id reason) = reject c id reason
perform c (skip_call k) = skip c k
perform c (correct_call k value) = correct_directly c k value

-- What a call did: it raised and changed nothing, or it decided one issue.
abbrev pub Decided : Context → DecisionCall → Database → Type 0
Decided c d db =
    Raises db (call (perform c d) db)
    ⊎ ((k : ℕ) × (o : Outcome) × (st : IssueStatus) × Decides c k o st db (call (perform c d) db).1)

some_issue :
    (c : Context) (d : DecisionCall) (db : Database) (k : ℕ) (o : Outcome) (st : IssueStatus)
    → Raises db (call (perform c d) db) ⊎ Decides c k o st db (call (perform c d) db).1
    → Decided c d db
some_issue c d db k o st (inl r) = inl r
some_issue c d db k o st (inr e) = inr (k, o, st, e)

pub perform-Decided : (c : Context) (d : DecisionCall) (db : Database) → Decided c d db
unfolding accept edit reject
perform-Decided c (skip_call k) db =
    some_issue c (skip_call k) db k skipped_outcome IssueStatus.skipped (skip_decided c db k)
perform-Decided c (correct_call k v) db =
    some_issue c (correct_call k v) db k (edited_outcome none v) IssueStatus.resolved
      (correct_directly_decided c db k v)
perform-Decided c (accept_call id) db = elim (Option-cases (lookup id db.correction_suggestions)) [
  | inl e ↦ inl (app suggestion_not_found, ground arith, ground arith)
  | inr (s, e) ↦
      some_issue c (accept_call id) db s.issue_id (accepted_outcome id s) IssueStatus.resolved
        (accept_decided c db id s e)
]
perform-Decided c (edit_call id v) db = elim (Option-cases (lookup id db.correction_suggestions)) [
  | inl e ↦ inl (app suggestion_not_found, ground arith, ground arith)
  | inr (s, e) ↦
      some_issue c (edit_call id v) db s.issue_id (edited_outcome (some id) v) IssueStatus.resolved
        (edit_decided c db id v s e)
]
perform-Decided c (reject_call id r) db =
    elim (Option-cases (lookup id db.correction_suggestions)) [
      | inl e ↦ inl (app suggestion_not_found, ground arith, ground arith)
      | inr (s, e) ↦
          some_issue c (reject_call id r) db s.issue_id (rejected_outcome id s) IssueStatus.resolved
            (reject_decided c db id r s e)
    ]
