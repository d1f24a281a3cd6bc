-- ===== src/Review/Effect/Accept.antt =====
-- What `accept` of decision_service.py does, branch by branch.
use datacraft_backend.Prelude.{
  ℕ, String, ◌≡◌, refl, true, false, [], ◌∷◌, none, some, Table, lookup, arith, ◌⊎◌, inl, inr,
  Option-cases, Bool-cases,
}
use datacraft_backend.Core.Database.{Database}
use datacraft_backend.Core.Exceptions.{
  app, attribute_error, empty_final_value, multiple_results, invalid_review_status_transition,
  issue_not_found, suggestion_already_decided,
}
use datacraft_backend.Core.Session.{Context, call}
use datacraft_backend.Models.Review.{Issue, IssueStatus, Correction, CorrectionSuggestion}
use datacraft_backend.Review.Writes.{is_blank, is_terminal, is_frozen, corrections_of}
use datacraft_backend.Review.Decisions.{accept}
use datacraft_backend.Review.Effect.{Decides, Raises, rule_type, accepted_outcome}

module _ (c : Context) (db : Database) (id : ℕ) (sug : CorrectionSuggestion)
    (known : lookup id db.correction_suggestions ≡ some sug) where
  accept_written :
      (issue : Issue)
      → lookup sug.issue_id db.issues ≡ some issue
      → is_frozen (lookup issue.review_run_id db.review_runs) ≡ false
      → (t : String) → rule_type db issue ≡ some t
      → is_blank (some sug.suggested_value) ≡ false
      → (rows : Table Correction) → corrections_of sug.issue_id db.corrections ≡ rows
      → Raises db (call (accept c id) db)
        ⊎ Decides c sug.issue_id
            (accepted_outcome id sug)
            IssueStatus.resolved
            db
            (call (accept c id) db).1
  unfolding accept
  accept_written issue e f t g v [] h = inr (record {
    issue = issue;
    found = e;
    open_run = f;
    written = inl (h, ground arith, ground arith);
    issues_after = ground arith;
    runs_after = ground arith;
    usable = λ _. ground arith;
  })
  accept_written issue e f t g v ((id, row) ∷ []) h = elim (Bool-cases (is_terminal row.status)) [
    | inl y ↦ inl (app suggestion_already_decided, ground arith, ground arith)
    | inr y ↦ inr (record {
      issue = issue;
      found = e;
      open_run = f;
      written = inr (id, row, h, y, ground arith, ground arith);
      issues_after = ground arith;
      runs_after = ground arith;
      usable = λ _. ground arith;
    })
  ]
  accept_written issue e f t g v (a ∷ b ∷ rows) h =
      inl (multiple_results, ground arith, ground arith)

  accept_untyped :
      (issue : Issue)
      → lookup sug.issue_id db.issues ≡ some issue
      → is_frozen (lookup issue.review_run_id db.review_runs) ≡ false
      → rule_type db issue ≡ none
      → is_blank (some sug.suggested_value) ≡ false
      → (rows : Table Correction) → corrections_of sug.issue_id db.corrections ≡ rows
      → Raises db (call (accept c id) db)
  unfolding accept
  accept_untyped issue e f g v [] h = (attribute_error, ground arith, ground arith)
  accept_untyped issue e f g v ((id, row) ∷ []) h = elim (Bool-cases (is_terminal row.status)) [
    | inl y ↦ (app suggestion_already_decided, ground arith, ground arith)
    | inr y ↦ (attribute_error, ground arith, ground arith)
  ]
  accept_untyped issue e f g v (a ∷ b ∷ rows) h = (multiple_results, ground arith, ground arith)

  accept_blank :
      (issue : Issue)
      → lookup sug.issue_id db.issues ≡ some issue
      → is_frozen (lookup issue.review_run_id db.review_runs) ≡ false
      → is_blank (some sug.suggested_value) ≡ true
      → (rows : Table Correction) → corrections_of sug.issue_id db.corrections ≡ rows
      → Raises db (call (accept c id) db)
  unfolding accept
  accept_blank issue e f v [] h = (app empty_final_value, ground arith, ground arith)
  accept_blank issue e f v ((id, row) ∷ []) h = elim (Bool-cases (is_terminal row.status)) [
    | inl y ↦ (app suggestion_already_decided, ground arith, ground arith)
    | inr y ↦ (app empty_final_value, ground arith, ground arith)
  ]
  accept_blank issue e f v (a ∷ b ∷ rows) h = (multiple_results, ground arith, ground arith)

  pub accept_decided :
      Raises db (call (accept c id) db)
      ⊎ Decides c sug.issue_id
          (accepted_outcome id sug)
          IssueStatus.resolved
          db
          (call (accept c id) db).1
  unfolding accept
  accept_decided = elim (Option-cases (lookup sug.issue_id db.issues)) [
    | inl e ↦ inl (app issue_not_found, ground arith, ground arith)
    | inr (issue, e) ↦ elim (Bool-cases (is_frozen (lookup issue.review_run_id db.review_runs))) [
      | inl f ↦ inl (app invalid_review_status_transition, ground arith, ground arith)
      | inr f ↦ elim (Bool-cases (is_blank (some sug.suggested_value))) [
        | inl v ↦ inl (accept_blank issue e f v (corrections_of sug.issue_id db.corrections) refl)
        | inr v ↦ elim (Option-cases (rule_type db issue)) [
          | inl g ↦
              inl (accept_untyped issue e f g v (corrections_of sug.issue_id db.corrections) refl)
          | inr (t, g) ↦
              accept_written issue e f t g v (corrections_of sug.issue_id db.corrections) refl
        ]
      ]
    ]
  ]
