-- ===== src/Approval/Submit.antt =====
-- `ApprovalService.submit`: when a submission is accepted, and what it changes.
use mathlib.Core.List.{append-nil}
use datacraft_backend.Prelude.{
  ℕ, ◌+◌, ◌≤◌, ◌≡◌, ◌⊎◌, inl, inr, refl, true, false, [], ◌∷◌, ◌++◌, map, none, some, arith, Table,
  lookup, add, update, lookup-update, length, nat_eq, string_eq, option_eq, ◌==◌, eq_of_beq,
  Bool-cases, Option-cases, filter-append, is_empty, pair_eq,
}
use datacraft_backend.Core.Database.{Database, KeysBelow, lookup-add_new}
use datacraft_backend.Core.Exceptions.{
  Error, app, multiple_results, review_run_not_found, review_run_not_ready_for_submission,
  approval_request_already_pending, no_resolved_issues,
}
use datacraft_backend.Core.Session.{Context, ok, err, call}
use datacraft_backend.Models.Trail.{ActorType, MetaValue}
use datacraft_backend.Models.Review.{ReviewStatus, ReviewRun, is_in_review}
use datacraft_backend.Models.Approval.{ApprovalStatus, ApprovalRequest}
use datacraft_backend.Trail.Lineage.{edge, record_edges_bulk, add_edges}
use datacraft_backend.Review.Runs.{open_requests}
use datacraft_backend.Approval.Scope.{resolved_scope}
use datacraft_backend.Approval.Service.{submit, new_request, correction_ids}

module _ (c : Context) (run_id : ℕ) where
  abbrev submitted_db : Database → Database
  submitted_db db =
      let scope = resolved_scope run_id db in
      record db {
        next_id = db.next_id + 1;
        approval_requests = add db.next_id (new_request c run_id scope) db.approval_requests;
        review_runs =
            update run_id
              (λ r. record r { status = ReviewStatus.ready_for_approval; updated_at = some c.now })
              db.review_runs;
        lineage_records =
            add_edges
              (map (λ i. edge "CORRECTION" i "APPROVAL_REQUEST" db.next_id "APPROVED_BY")
                (correction_ids scope.0 db.corrections))
              db.lineage_records;
        audit_events =
            db.audit_events
            ++ record {
              actor_id = some c.actor;
              actor_type = ActorType.user;
              action = "approval_request.submitted";
              entity_type = "APPROVAL_REQUEST";
              entity_id = db.next_id;
              before_value = [];
              after_value = [];
              audit_metadata =
                  ("review_run_id", MetaValue.id run_id)
                  ∷ ("affected_issue_count", MetaValue.count (length scope.0))
                  ∷ ("affected_record_count", MetaValue.count scope.1)
                  ∷ [];
            }
              ∷ [];
      }

  abbrev CanSubmit : Database → ReviewRun → Type 0
  CanSubmit db run =
      (lookup run_id db.review_runs ≡ some run)
      × (run.status ≡ ReviewStatus.in_review)
      × (open_requests run_id db ≡ [])
      × (is_empty (resolved_scope run_id db).0 ≡ false)

  abbrev Outcome : Database → Type 0
  Outcome db =
      ((e : Error) × (call (submit c run_id) db ≡ (err e, db)))
      ⊎ ((run : ReviewRun) × CanSubmit db run
          × (call (submit c run_id) db ≡ (ok db.next_id, submitted_db db)))

  submit_unblocked :
      (db : Database) (run : ReviewRun)
      → lookup run_id db.review_runs ≡ some run
      → is_in_review run.status ≡ true
      → open_requests run_id db ≡ []
      → Outcome db
  unfolding submit record_edges_bulk
  submit_unblocked db run e e1 e2 = elim (Bool-cases (is_empty (resolved_scope run_id db).0)) [
    | inl e3 ↦ inl (app no_resolved_issues, ground arith)
    | inr e3 ↦ inr (run, (e, ground arith, e2, e3), ground arith)
  ]

  submit_reviewed :
      (db : Database) (run : ReviewRun)
      → lookup run_id db.review_runs ≡ some run
      → is_in_review run.status ≡ true
      → (found : Table ApprovalRequest) → open_requests run_id db ≡ found
      → Outcome db
  unfolding submit record_edges_bulk
  submit_reviewed db run e e1 [] e2 = submit_unblocked db run e e1 e2
  submit_reviewed db run e e1 (r ∷ []) e2 = inl (app approval_request_already_pending, ground arith)
  submit_reviewed db run e e1 (r ∷ q ∷ rest) e2 = inl (multiple_results, ground arith)

  -- A call either raises and leaves the database alone, or is accepted.
  submit-cases : (db : Database) → Outcome db
  unfolding submit
  submit-cases db = elim (Option-cases (lookup run_id db.review_runs)) [
    | inl e ↦ inl (app review_run_not_found, ground arith)
    | inr (run, e) ↦ elim (Bool-cases (is_in_review run.status)) [
      | inr e1 ↦ inl (app review_run_not_ready_for_submission, ground arith)
      | inl e1 ↦ submit_reviewed db run e e1 (open_requests run_id db) refl
    ]
  ]

-- A call that ended well, with the database that it left.
module _ (c : Context) (run_id id : ℕ) (db db' : Database)
    (done : call (submit c run_id) db ≡ (ok id, db')) where
  submit_inverse :
      (run : ReviewRun) × CanSubmit c run_id db run
      × (id ≡ db.next_id)
      × (db' ≡ submitted_db c run_id db)
  submit_inverse = elim (submit-cases c run_id db) [
    | inl (e, p) ↦ absurd (cc)
    | inr (run, can, p) ↦ (run, can, cc, cc)
  ]

  run_after :
      (run : ReviewRun) × (run.status ≡ ReviewStatus.in_review)
      × (lookup run_id db.review_runs ≡ some run)
      × (lookup run_id db'.review_runs
          ≡ some (record run { status = ReviewStatus.ready_for_approval; updated_at = some c.now }))
  run_after =
      let (run, can, i, e) = submit_inverse in
      let mark : ReviewRun → ReviewRun =
        λ r. record r { status = ReviewStatus.ready_for_approval; updated_at = some c.now } in
      (
        run,
        can.1,
        can.0,
        rw e (ground (arith, lookup-update run_id run_id mark db.review_runs, can.0)),
      )

  request_after :
      KeysBelow db.next_id db.approval_requests
      → lookup id db'.approval_requests ≡ some (new_request c run_id (resolved_scope run_id db'))
  unfolding resolved_scope
  request_after below =
      let (run, can, i, e) = submit_inverse in
      rw (i, e)
        (lookup-add_new db.next_id (new_request c run_id (resolved_scope run_id db))
          db.approval_requests below)

  -- An accepted submission, with a supply of keys that no request has, found the run IN_REVIEW,
  -- with no open request and with a resolved issue. It leaves the run READY_FOR_APPROVAL, and a
  -- PENDING request of the actor for the run, with the numbers of issues and of records of the
  -- resolved scope, that is not decided.
  pub submit_effect :
      KeysBelow db.next_id db.approval_requests
      → (run : ReviewRun) × (run.status ≡ ReviewStatus.in_review)
        × (lookup run_id db.review_runs ≡ some run)
        × (lookup run_id db'.review_runs
            ≡ some
                (record run { status = ReviewStatus.ready_for_approval; updated_at = some c.now }))
        × (open_requests run_id db ≡ [])
        × (is_empty (resolved_scope run_id db).0 ≡ false)
        × (lookup id db'.approval_requests
            ≡ some (record {
              review_run_id = run_id;
              status = ApprovalStatus.pending;
              affected_issue_count = length (resolved_scope run_id db').0;
              affected_record_count = (resolved_scope run_id db').1;
              requested_by = some c.actor;
              decided_at = none;
              updated_at = none;
            }))
  submit_effect below =
      let (run, was, before, after) = run_after in
      let (_, can, _, _) = submit_inverse in
      (run, was, before, after, can.2, can.3, request_after below)

  -- If a review run, the submitted one or another, had at most one open request before an accepted
  -- submission, it has at most one afterwards.
  pub submit_one_open : (j : ℕ) → length (open_requests j db) ≤ 1 → length (open_requests j db') ≤ 1
  submit_one_open j h =
      let (run, can, i, e) = submit_inverse in
      rw e (
        rw filter-append (elim (Bool-cases (run_id == j)) [
          | inl e1 ↦
              let none_open : open_requests j db ≡ [] = rw (← eq_of_beq run_id j e1) can.2 in
              rw (e1, none_open) (omega arith)
          | inr e1 ↦ rw (e1, append-nil) h
        ]))

  -- A second submission of a run after an accepted one raises, and changes nothing.
  pub submit_again :
      (c2 : Context)
      → call (submit c2 run_id) db' ≡ (err (app review_run_not_ready_for_submission), db')
  unfolding submit
  submit_again c2 = let (run, was, before, after) = run_after in ground (arith, after)
