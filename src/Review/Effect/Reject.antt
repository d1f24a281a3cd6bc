-- ===== src/Review/Effect/Reject.antt =====
-- What `reject` of decision_service.py does, branch by branch.
use datacraft_backend.Prelude.{
  ℕ, String, ◌≡◌, refl, false, [], ◌∷◌, Option, none, some, Table, lookup, arith, ◌⊎◌, inl, inr,
  Option-cases, Bool-cases,
}
use datacraft_backend.Core.Database.{Database}
use datacraft_backend.Core.Exceptions.{
  app, attribute_error, multiple_results, invalid_review_status_transition, issue_not_found,
  suggestion_already_decided,
}
use datacraft_backend.Core.Session.{Context, call}
use datacraft_backend.Core.Text.{Text}
use datacraft_backend.Models.Review.{Issue, IssueStatus, Correction, CorrectionSuggestion}
use datacraft_backend.Review.Writes.{is_terminal, is_frozen, corrections_of}
use datacraft_backend.Review.Decisions.{reject}
use datacraft_backend.Review.Effect.{Decides, Raises, rule_type, rejected_outcome}

module _ (c : Context) (db : Database) (id : ℕ) (reason : Option Text) (sug : CorrectionSuggestion)
    (known : lookup id db.correction_suggestions ≡ some sug) where
  reject_written :
      (issue : Issue)
      → lookup sug.issue_id db.issues ≡ some issue
      → is_frozen (lookup issue.review_run_id db.review_runs) ≡ false
      → (t : String) → rule_type db issue ≡ some t
      → (rows : Table Correction) → corrections_of sug.issue_id db.corrections ≡ rows
      → Raises db (call (reject c id reason) db)
        ⊎ Decides c sug.issue_id
            (rejected_outcome id sug)
            IssueStatus.resolved
            db
            (call (reject c id reason) db).1
  unfolding reject
  reject_written issue e f t g [] h = inr (record {
    issue = issue;
    found = e;
    open_run = f;
    written = inl (h, ground arith, ground arith);
    issues_after = ground arith;
    runs_after = ground arith;
    usable = λ resolving. cc (resolving);
  })
  reject_written issue e f t g ((id, row) ∷ []) h = elim (Bool-cases (is_terminal row.status)) [
    | inl y ↦ inl (app suggestion_already_decided, ground arith, ground arith)
    | inr y ↦ inr (record {
      issue = issue;
      found = e;
      open_run = f;
      written = inr (id, row, h, y, ground arith, ground arith);
      issues_after = ground arith;
      runs_after = ground arith;
      usable = λ resolving. cc (resolving);
    })
  ]
  reject_written issue e f t g (a ∷ b ∷ rows) h = inl (multiple_results, ground arith, ground arith)

  reject_untyped :
      (issue : Issue)
      → lookup sug.issue_id db.issues ≡ some issue
      → is_frozen (lookup issue.review_run_id db.review_runs) ≡ false
      → rule_type db issue ≡ none
      → (rows : Table Correction) → corrections_of sug.issue_id db.corrections ≡ rows
      → Raises db (call (reject c id reason) db)
  unfolding reject
  reject_untyped issue e f g [] h = (attribute_error, ground arith, ground arith)
  reject_untyped issue e f g ((id, row) ∷ []) h = elim (Bool-cases (is_terminal row.status)) [
    | inl y ↦ (app suggestion_already_decided, ground arith, ground arith)
    | inr y ↦ (attribute_error, ground arith, ground arith)
  ]
  reject_untyped issue e f g (a ∷ b ∷ rows) h = (multiple_results, ground arith, ground arith)

  pub reject_decided :
      Raises db (call (reject c id reason) db)
      ⊎ Decides c sug.issue_id
          (rejected_outcome id sug)
          IssueStatus.resolved
          db
          (call (reject c id reason) db).1
  unfolding reject
  reject_decided = elim (Option-cases (lookup sug.issue_id db.issues)) [
    | inl e ↦ inl (app issue_not_found, ground arith, ground arith)
    | inr (issue, e) ↦ elim (Bool-cases (is_frozen (lookup issue.review_run_id db.review_runs))) [
      | inl f ↦ inl (app invalid_review_status_transition, ground arith, ground arith)
      | inr f ↦ elim (Option-cases (rule_type db issue)) [
        | inl g ↦ inl (reject_untyped issue e f g (corrections_of sug.issue_id db.corrections) refl)
        | inr (t, g) ↦
            reject_written issue e f t g (corrections_of sug.issue_id db.corrections) refl
      ]
    ]
  ]
