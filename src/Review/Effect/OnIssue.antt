-- ===== src/Review/Effect/OnIssue.antt =====
-- `skip` and `correct_directly`, which are given the issue.
use datacraft_backend.Prelude.{
  ℕ, String, ◌≡◌, refl, true, false, [], ◌∷◌, none, some, Table, lookup, arith, ◌⊎◌, inl, inr,
  Option-cases, Bool-cases,
}
use datacraft_backend.Core.Database.{Database}
use datacraft_backend.Core.Exceptions.{
  app, attribute_error, empty_final_value, multiple_results, invalid_review_status_transition,
  issue_not_found, suggestion_already_decided,
}
use datacraft_backend.Core.Session.{Context, call}
use datacraft_backend.Core.Text.{Text}
use datacraft_backend.Models.Review.{Issue, IssueStatus, Correction}
use datacraft_backend.Review.Writes.{
  is_blank, is_terminal, is_frozen, corrections_of, skipped_outcome,
}
use datacraft_backend.Review.Decisions.{skip, correct_directly}
use datacraft_backend.Review.Effect.{Decides, Raises, rule_type, edited_outcome}

module _ (c : Context) (db : Database) (k : ℕ) where
  skip_written :
      (issue : Issue)
      → lookup k db.issues ≡ some issue
      → is_frozen (lookup issue.review_run_id db.review_runs) ≡ false
      → (t : String) → rule_type db issue ≡ some t
      → (rows : Table Correction) → corrections_of k db.corrections ≡ rows
      → Raises db (call (skip c k) db)
        ⊎ Decides c k skipped_outcome IssueStatus.skipped db (call (skip c k) db).1
  unfolding skip
  skip_written issue e f t g [] h = inr (record {
    issue = issue;
    found = e;
    open_run = f;
    written = inl (h, ground arith, ground arith);
    issues_after = ground arith;
    runs_after = ground arith;
    usable = λ resolving. cc (resolving);
  })
  skip_written issue e f t g ((id, row) ∷ []) h = elim (Bool-cases (is_terminal row.status)) [
    | inl y ↦ inl (app suggestion_already_decided, ground arith, ground arith)
    | inr y ↦ inr (record {
      issue = issue;
      found = e;
      open_run = f;
      written = inr (id, row, h, y, ground arith, ground arith);
      issues_after = ground arith;
      runs_after = ground arith;
      usable = λ resolving. cc (resolving);
    })
  ]
  skip_written issue e f t g (a ∷ b ∷ rows) h = inl (multiple_results, ground arith, ground arith)

  skip_untyped :
      (issue : Issue)
      → lookup k db.issues ≡ some issue
      → is_frozen (lookup issue.review_run_id db.review_runs) ≡ false
      → rule_type db issue ≡ none
      → (rows : Table Correction) → corrections_of k db.corrections ≡ rows
      → Raises db (call (skip c k) db)
  unfolding skip
  skip_untyped issue e f g [] h = (attribute_error, ground arith, ground arith)
  skip_untyped issue e f g ((id, row) ∷ []) h = elim (Bool-cases (is_terminal row.status)) [
    | inl y ↦ (app suggestion_already_decided, ground arith, ground arith)
    | inr y ↦ (attribute_error, ground arith, ground arith)
  ]
  skip_untyped issue e f g (a ∷ b ∷ rows) h = (multiple_results, ground arith, ground arith)

  pub skip_decided :
      Raises db (call (skip c k) db)
      ⊎ Decides c k skipped_outcome IssueStatus.skipped db (call (skip c k) db).1
  unfolding skip
  skip_decided = elim (Option-cases (lookup k db.issues)) [
    | inl e ↦ inl (app issue_not_found, ground arith, ground arith)
    | inr (issue, e) ↦ elim (Bool-cases (is_frozen (lookup issue.review_run_id db.review_runs))) [
      | inl f ↦ inl (app invalid_review_status_transition, ground arith, ground arith)
      | inr f ↦ elim (Option-cases (rule_type db issue)) [
        | inl g ↦ inl (skip_untyped issue e f g (corrections_of k db.corrections) refl)
        | inr (t, g) ↦ skip_written issue e f t g (corrections_of k db.corrections) refl
      ]
    ]
  ]

module _ (c : Context) (db : Database) (k : ℕ) (value : Text) where
  correct_directly_written :
      (issue : Issue)
      → lookup k db.issues ≡ some issue
      → is_frozen (lookup issue.review_run_id db.review_runs) ≡ false
      → (t : String) → rule_type db issue ≡ some t
      → is_blank (some value) ≡ false
      → (rows : Table Correction) → corrections_of k db.corrections ≡ rows
      → Raises db (call (correct_directly c k value) db)
        ⊎ Decides c k
            (edited_outcome none value)
            IssueStatus.resolved
            db
            (call (correct_directly c k value) db).1
  unfolding correct_directly
  correct_directly_written issue e f t g v [] h = inr (record {
    issue = issue;
    found = e;
    open_run = f;
    written = inl (h, ground arith, ground arith);
    issues_after = ground arith;
    runs_after = ground arith;
    usable = λ _. ground arith;
  })
  correct_directly_written issue e f t g v ((id, row) ∷ []) h =
      elim (Bool-cases (is_terminal row.status)) [
        | inl y ↦ inl (app suggestion_already_decided, ground arith, ground arith)
        | inr y ↦ inr (record {
          issue = issue;
          found = e;
          open_run = f;
          written = inr (id, row, h, y, ground arith, ground arith);
          issues_after = ground arith;
          runs_after = ground arith;
          usable = λ _. ground arith;
        })
      ]
  correct_directly_written issue e f t g v (a ∷ b ∷ rows) h =
      inl (multiple_results, ground arith, ground arith)

  correct_directly_untyped :
      (issue : Issue)
      → lookup k db.issues ≡ some issue
      → is_frozen (lookup issue.review_run_id db.review_runs) ≡ false
      → rule_type db issue ≡ none
      → is_blank (some value) ≡ false
      → (rows : Table Correction) → corrections_of k db.corrections ≡ rows
      → Raises db (call (correct_directly c k value) db)
  unfolding correct_directly
  correct_directly_untyped issue e f g v [] h = (attribute_error, ground arith, ground arith)
  correct_directly_untyped issue e f g v ((id, row) ∷ []) h =
      elim (Bool-cases (is_terminal row.status)) [
        | inl y ↦ (app suggestion_already_decided, ground arith, ground arith)
        | inr y ↦ (attribute_error, ground arith, ground arith)
      ]
  correct_directly_untyped issue e f g v (a ∷ b ∷ rows) h =
      (multiple_results, ground arith, ground arith)

  correct_directly_blank :
      (issue : Issue)
      → lookup k db.issues ≡ some issue
      → is_frozen (lookup issue.review_run_id db.review_runs) ≡ false
      → is_blank (some value) ≡ true
      → (rows : Table Correction) → corrections_of k db.corrections ≡ rows
      → Raises db (call (correct_directly c k value) db)
  unfolding correct_directly
  correct_directly_blank issue e f v [] h = (app empty_final_value, ground arith, ground arith)
  correct_directly_blank issue e f v ((id, row) ∷ []) h =
      elim (Bool-cases (is_terminal row.status)) [
        | inl y ↦ (app suggestion_already_decided, ground arith, ground arith)
        | inr y ↦ (app empty_final_value, ground arith, ground arith)
      ]
  correct_directly_blank issue e f v (a ∷ b ∷ rows) h =
      (multiple_results, ground arith, ground arith)

  pub correct_directly_decided :
      Raises db (call (correct_directly c k value) db)
      ⊎ Decides c k
          (edited_outcome none value)
          IssueStatus.resolved
          db
          (call (correct_directly c k value) db).1
  unfolding correct_directly
  correct_directly_decided = elim (Option-cases (lookup k db.issues)) [
    | inl e ↦ inl (app issue_not_found, ground arith, ground arith)
    | inr (issue, e) ↦ elim (Bool-cases (is_frozen (lookup issue.review_run_id db.review_runs))) [
      | inl f ↦ inl (app invalid_review_status_transition, ground arith, ground arith)
      | inr f ↦ elim (Bool-cases (is_blank (some value))) [
        | inl v ↦ inl (correct_directly_blank issue e f v (corrections_of k db.corrections) refl)
        | inr v ↦ elim (Option-cases (rule_type db issue)) [
          | inl g ↦
              inl (correct_directly_untyped issue e f g v (corrections_of k db.corrections) refl)
          | inr (t, g) ↦
              correct_directly_written issue e f t g v (corrections_of k db.corrections) refl
        ]
      ]
    ]
  ]
