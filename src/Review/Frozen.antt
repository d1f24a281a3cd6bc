-- ===== src/Review/Frozen.antt =====
-- While an approval request is open on a review run, its corrections stand still: the guards of
-- app/modules/review/decision_service.py against the scope of app/modules/approval/service.py.
use mathlib.Core.List.{append-nil}
use datacraft_backend.Prelude.{
  sym, ◌∙◌, ℕ, ◌≡◌, refl, ap, true, false, [], ◌∷◌, some, Table, lookup, update, arith, ◌==◌,
  nat_eq, All, All-imp, UniqueKeys, lookup-UniqueKeys, filter-UniqueKeys, inl, inr, Bool-cases,
  eq_of_beq,
}
use datacraft_backend.Core.Database.{Database}
use datacraft_backend.Core.Text.{Text}
use datacraft_backend.Core.Session.{Context, call}
use datacraft_backend.Models.Review.{ReviewStatus, ReviewRun, Issue, Correction, IssueStatus}
use datacraft_backend.Approval.Status.{resolved_scope_from_rows}
use datacraft_backend.Approval.Scope.{rows_of_issue, resolved_rows, resolved_scope}
use datacraft_backend.Review.Writes.{is_terminal, corrections_of, Outcome, redecided}
use datacraft_backend.Review.Effect.{Decides, Written}
use datacraft_backend.Review.Effect.Calls.{DecisionCall, perform, perform-Decided}
use datacraft_backend.Review.Invariant.{IsValid, corrections_of-add}

-- The rows of the join for an issue depend on its own corrections alone.
rows_of_issue-corrections_of :
    (i : ℕ) (ref : Text) (t : Table Correction)
    → rows_of_issue i ref t ≡ rows_of_issue i ref (corrections_of i t)
unfolding rows_of_issue
rows_of_issue-corrections_of i ref [] = refl
rows_of_issue-corrections_of i ref (row ∷ t) = ground (arith, rows_of_issue-corrections_of i ref t)

module _ (c : Context) (k : ℕ) (o : Outcome) where
  update_elsewhere :
      (i id : ℕ) (row : Correction) (t : Table Correction)
      → (row.issue_id == i) ≡ false
      → All (λ x. x.0 ≡ id → x.1 ≡ row) t
      → corrections_of i (update id (redecided c o) t) ≡ corrections_of i t
  update_elsewhere i id row [] ne h = refl
  update_elsewhere i id row ((j, r) ∷ t) ne h =
      ground (arith, h.0, update_elsewhere i id row t ne h.1)

  other_corrections :
      (i : ℕ) (db db' : Database)
      → (k == i) ≡ false
      → UniqueKeys db.corrections
      → Written c k o db db'
      → corrections_of i db'.corrections ≡ corrections_of i db.corrections
  other_corrections i db db' ne u (inl (e, added, _)) =
      rw (added, corrections_of-add c k o i db.next_id db.corrections, ne, append-nil) refl
  other_corrections i db db' ne u (inr (id, row, e, open_before, updated, _)) =
      let (found, mine) = filter-UniqueKeys (λ (_, r). r.issue_id == k) id row db.corrections u e in
      let elsewhere : (row.issue_id == i) ≡ false = rw (eq_of_beq row.issue_id k mine) ne in
      rw updated (
        update_elsewhere i id row db.corrections elsewhere
          (lookup-UniqueKeys id db.corrections row u found))

resolved_rows_kept :
    (run k : ℕ) (mark : Issue → Issue) (after before : Table Correction) (issues : Table Issue)
    → ((x : Issue) → (mark x).review_run_id ≡ x.review_run_id)
    → ((x : Issue) → (mark x).record_ref ≡ x.record_ref)
    → All
        (λ x.
          (x.1.review_run_id == run) ≡ true → corrections_of x.0 after ≡ corrections_of x.0 before)
        issues
    → resolved_rows run after (update k mark issues) ≡ resolved_rows run before issues
unfolding resolved_rows
resolved_rows_kept run k mark after before [] m1 m2 h = refl
resolved_rows_kept run k mark after before ((i, x) ∷ issues) m1 m2 h =
    let rest = resolved_rows_kept run k mark after before issues m1 m2 h.1 in
    elim (Bool-cases (x.review_run_id == run)) [
      | inl q ↦
          let rows : rows_of_issue i x.record_ref after ≡ rows_of_issue i x.record_ref before =
            rows_of_issue-corrections_of i x.record_ref after
            ∙ ap (rows_of_issue i x.record_ref) (h.0 q)
            ∙ sym (rows_of_issue-corrections_of i x.record_ref before) in
          ground (arith, m1 x, m2 x, rows, rest)
      | inr q ↦ ground (arith, m1 x, m2 x, rest)
    ]

module _ (c : Context) (k : ℕ) (o : Outcome) (st : IssueStatus) (db db' : Database) where
  not_terminal :
      (id : ℕ) (row : Correction)
      → Written c k o db db'
      → corrections_of k db.corrections ≡ (id, row) ∷ []
      → is_terminal row.status ≡ false
  not_terminal id row (inl (none_before, _, _)) e = absurd (cc)
  not_terminal id row (inr (id', row', one_before, open_before, _, _)) e =
      let same : row' ≡ row = cc (one_before, e) in rw (← same) open_before

  -- The issue that was decided belongs to a run that is not frozen.
  not_mine :
      (run i : ℕ) (r : ReviewRun) (x : Issue)
      → (d : Decides c k o st db db') → lookup run db.review_runs ≡ some r
      → r.status ≡ ReviewStatus.ready_for_approval
      → (x.review_run_id == run) ≡ true
      → (i ≡ k → x ≡ d.issue)
      → (k == i) ≡ false
  not_mine run i r x d e s q only = elim (Bool-cases (k == i)) [
    | inl mine ↦
        let owner : x ≡ d.issue = only (sym (eq_of_beq k i mine)) in
        let its_run : d.issue.review_run_id ≡ run =
          rw (← owner) (eq_of_beq x.review_run_id run q) in
        absurd (ground (arith, d.open_run, its_run))
    | inr other ↦ other
  ]

  scope_kept :
      (run : ℕ) (r : ReviewRun)
      → Decides c k o st db db'
      → IsValid db
      → lookup run db.review_runs ≡ some r
      → r.status ≡ ReviewStatus.ready_for_approval
      → resolved_scope run db' ≡ resolved_scope run db
  unfolding resolved_scope
  scope_kept run r d v e s = ap resolved_scope_from_rows (
      rw d.issues_after (
        resolved_rows_kept run k _ db'.corrections db.corrections db.issues (λ x. refl) (λ x. refl)
          (All-imp _ _ db.issues
            (λ row only q.
              other_corrections c k o row.0 db db' (not_mine run row.0 r row.1 d e s q only)
                v.correction_keys d.written)
            (lookup-UniqueKeys k db.issues d.issue v.issue_keys d.found))))

-- In a well-formed database, none of the five calls that decide one issue changes the correction
-- of an issue that is rejected or skipped.
pub terminal_final :
    (c : Context) (d : DecisionCall) (db : Database) (i id : ℕ) (row : Correction)
    → IsValid db
    → corrections_of i db.corrections ≡ (id, row) ∷ []
    → is_terminal row.status ≡ true
    → corrections_of i (call (perform c d) db).1.corrections ≡ (id, row) ∷ []
terminal_final c d db i id row v e t = elim (perform-Decided c d db) [
  | inl (_, _, same) ↦ rw same e
  | inr (k, o, st, done) ↦ elim (Bool-cases (k == i)) [
    | inl mine ↦
        let before : corrections_of k db.corrections ≡ (id, row) ∷ [] = rw (eq_of_beq k i mine) e in
        absurd (cc (not_terminal c k o st db (call (perform c d) db).1 id row done.written before))
    | inr other ↦
        other_corrections c k o i db (call (perform c d) db).1 other v.correction_keys done.written
        ∙ e
  ]
]

-- In a well-formed database, while a review run is READY_FOR_APPROVAL, none of the five calls that
-- decide one issue (accept, edit, reject, skip, correct directly) changes the resolved scope of
-- that run.
pub frozen_scope :
    (c : Context) (d : DecisionCall) (db : Database) (run : ℕ) (r : ReviewRun)
    → IsValid db
    → lookup run db.review_runs ≡ some r
    → r.status ≡ ReviewStatus.ready_for_approval
    → resolved_scope run (call (perform c d) db).1 ≡ resolved_scope run db
frozen_scope c d db run r v e s = elim (perform-Decided c d db) [
  | inl (_, _, same) ↦ rw same refl
  | inr (k, o, st, done) ↦ scope_kept c k o st db (call (perform c d) db).1 run r done v e s
]
