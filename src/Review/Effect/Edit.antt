-- ===== src/Review/Effect/Edit.antt =====
-- What `edit` of decision_service.py does, branch by branch.
use datacraft_backend.Prelude.{
  ℕ, String, ◌≡◌, refl, true, false, [], ◌∷◌, none, some, Table, lookup, arith, ◌⊎◌, inl, inr,
  Option-cases, Bool-cases,
}
use datacraft_backend.Core.Database.{Database}
use datacraft_backend.Core.Exceptions.{
  app, attribute_error, empty_final_value, multiple_results, invalid_review_status_transition,
  issue_not_found, suggestion_already_decided,
}
use datacraft_backend.Core.Session.{Context, call}
use datacraft_backend.Core.Text.{Text}
use datacraft_backend.Models.Review.{Issue, IssueStatus, Correction, CorrectionSuggestion}
use datacraft_backend.Review.Writes.{is_blank, is_terminal, is_frozen, corrections_of}
use datacraft_backend.Review.Decisions.{edit}
use datacraft_backend.Review.Effect.{Decides, Raises, rule_type, edited_outcome}

module _ (c : Context) (db : Database) (id : ℕ) (value : Text) (sug : CorrectionSuggestion)
    (known : lookup id db.correction_suggestions ≡ some sug) where
  edit_written :
      (issue : Issue)
      → lookup sug.issue_id db.issues ≡ some issue
      → is_frozen (lookup issue.review_run_id db.review_runs) ≡ false
      → (t : String) → rule_type db issue ≡ some t
      → is_blank (some value) ≡ false
      → (rows : Table Correction) → corrections_of sug.issue_id db.corrections ≡ rows
      → Raises db (call (edit c id value) db)
        ⊎ Decides c sug.issue_id
            (edited_outcome (some id) value)
            IssueStatus.resolved
            db
            (call (edit c id value) db).1
  unfolding edit
  edit_written issue e f t g v [] h = inr (record {
    issue = issue;
    found = e;
    open_run = f;
    written = inl (h, ground arith, ground arith);
    issues_after = ground arith;
    runs_after = ground arith;
    usable = λ _. ground arith;
  })
  edit_written issue e f t g v ((id, row) ∷ []) h = elim (Bool-cases (is_terminal row.status)) [
    | inl y ↦ inl (app suggestion_already_decided, ground arith, ground arith)
    | inr y ↦ inr (record {
      issue = issue;
      found = e;
      open_run = f;
      written = inr (id, row, h, y, ground arith, ground arith);
      issues_after = ground arith;
      runs_after = ground arith;
      usable = λ _. ground arith;
    })
  ]
  edit_written issue e f t g v (a ∷ b ∷ rows) h = inl (multiple_results, ground arith, ground arith)

  edit_untyped :
      (issue : Issue)
      → lookup sug.issue_id db.issues ≡ some issue
      → is_frozen (lookup issue.review_run_id db.review_runs) ≡ false
      → rule_type db issue ≡ none
      → is_blank (some value) ≡ false
      → (rows : Table Correction) → corrections_of sug.issue_id db.corrections ≡ rows
      → Raises db (call (edit c id value) db)
  unfolding edit
  edit_untyped issue e f g v [] h = (attribute_error, ground arith, ground arith)
  edit_untyped issue e f g v ((id, row) ∷ []) h = elim (Bool-cases (is_terminal row.status)) [
    | inl y ↦ (app suggestion_already_decided, ground arith, ground arith)
    | inr y ↦ (attribute_error, ground arith, ground arith)
  ]
  edit_untyped issue e f g v (a ∷ b ∷ rows) h = (multiple_results, ground arith, ground arith)

  edit_blank :
      (issue : Issue)
      → lookup sug.issue_id db.issues ≡ some issue
      → is_frozen (lookup issue.review_run_id db.review_runs) ≡ false
      → is_blank (some value) ≡ true
      → (rows : Table Correction) → corrections_of sug.issue_id db.corrections ≡ rows
      → Raises db (call (edit c id value) db)
  unfolding edit
  edit_blank issue e f v [] h = (app empty_final_value, ground arith, ground arith)
  edit_blank issue e f v ((id, row) ∷ []) h = elim (Bool-cases (is_terminal row.status)) [
    | inl y ↦ (app suggestion_already_decided, ground arith, ground arith)
    | inr y ↦ (app empty_final_value, ground arith, ground arith)
  ]
  edit_blank issue e f v (a ∷ b ∷ rows) h = (multiple_results, ground arith, ground arith)

  pub edit_decided :
      Raises db (call (edit c id value) db)
      ⊎ Decides c sug.issue_id
          (edited_outcome (some id) value)
          IssueStatus.resolved
          db
          (call (edit c id value) db).1
  unfolding edit
  edit_decided = elim (Option-cases (lookup sug.issue_id db.issues)) [
    | inl e ↦ inl (app issue_not_found, ground arith, ground arith)
    | inr (issue, e) ↦ elim (Bool-cases (is_frozen (lookup issue.review_run_id db.review_runs))) [
      | inl f ↦ inl (app invalid_review_status_transition, ground arith, ground arith)
      | inr f ↦ elim (Bool-cases (is_blank (some value))) [
        | inl v ↦ inl (edit_blank issue e f v (corrections_of sug.issue_id db.corrections) refl)
        | inr v ↦ elim (Option-cases (rule_type db issue)) [
          | inl g ↦
              inl (edit_untyped issue e f g v (corrections_of sug.issue_id db.corrections) refl)
          | inr (t, g) ↦
              edit_written issue e f t g v (corrections_of sug.issue_id db.corrections) refl
        ]
      ]
    ]
  ]
