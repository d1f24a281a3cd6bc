-- ===== src/Examples/Approvals.antt =====
-- A submission and its decisions, step by step.
use datacraft_backend.Prelude.{
  ◌≤◌, ◌≡◌, refl, true, false, ◌||◌, [], ◌∷◌, ◌++◌, map, none, some, arith, lookup, length, nat_eq,
  string_eq, option_eq, is_empty, member, nodup, pair_eq,
}
use datacraft_backend.Core.Database.{Database}
use datacraft_backend.Core.Session.{ok, err, call}
use datacraft_backend.Core.Exceptions.{app, review_run_not_ready_for_submission}
use datacraft_backend.Trail.Lineage.{record_edges_bulk}
use datacraft_backend.Models.Review.{ReviewStatus, ReviewRun}
use datacraft_backend.Models.Approval.{ApprovalStatus, Decision, ApprovalRequest}
use datacraft_backend.Review.Runs.{open_requests}
use datacraft_backend.Approval.Scope.{resolved_scope, decided_rows, decided_issue_ids, decisions_of}
use datacraft_backend.Approval.Service.{submit, decide, remaining_scope}
use datacraft_backend.Approval.Decide.{IsSound, decide_scope, decide_fresh, decide_once}
use datacraft_backend.Approval.Outcome.{StatusAfter, decide_status, decide_reopens}
use datacraft_backend.Approval.Submit.{submit_effect, submit_one_open, submit_again}
use datacraft_backend.Examples.Data.{reviewer, review_db, restored_db, approved_request}

abbrev start : Database
start = review_db ReviewStatus.in_review

abbrev submitted : Database
submitted = (call (submit reviewer 10) start).1

submits : call (submit reviewer 10) start ≡ (ok 100, submitted)
unfolding submit resolved_scope record_edges_bulk
submits = refl

-- Two resolved issues lie on one record.
counts : resolved_scope 10 start ≡ (20 ∷ 21 ∷ [], 1)
unfolding resolved_scope
counts = refl

submit_one_open_example : length (open_requests 10 submitted) ≤ 1
submit_one_open_example = submit_one_open reviewer 10 100 start submitted submits 10 (omega arith)

submit_again_example :
    call (submit reviewer 10) submitted ≡ (err (app review_run_not_ready_for_submission), submitted)
submit_again_example = submit_again reviewer 10 100 start submitted submits reviewer

abbrev partly : Database
partly = (call (decide reviewer 100 Decision.approve (20 ∷ 20 ∷ []) none) submitted).1

decides_one :
    call (decide reviewer 100 Decision.approve (20 ∷ 20 ∷ []) none) submitted ≡ (ok tt, partly)
unfolding decide submit resolved_scope remaining_scope decided_issue_ids record_edges_bulk
decides_one = refl

submit_effect_example :
    (run : ReviewRun) × (run.status ≡ ReviewStatus.in_review)
    × (lookup 10 start.review_runs ≡ some run)
    × (lookup 10 submitted.review_runs
        ≡ some (record run { status = ReviewStatus.ready_for_approval; updated_at = some 1000 }))
    × (open_requests 10 start ≡ [])
    × (is_empty (resolved_scope 10 start).0 ≡ false)
    × (lookup 100 submitted.approval_requests
        ≡ some (record {
          review_run_id = 10;
          status = ApprovalStatus.pending;
          affected_issue_count = length (resolved_scope 10 submitted).0;
          affected_record_count = (resolved_scope 10 submitted).1;
          requested_by = some 7;
          decided_at = none;
          updated_at = none;
        }))
submit_effect_example = submit_effect reviewer 10 100 start submitted submits tt

submitted-IsSound : IsSound submitted
unfolding submit resolved_scope record_edges_bulk
submitted-IsSound = record { decisions_below = tt; rows_below = tt }

decide_scope_example :
    member 20 (decided_issue_ids 100 partly) ≡ (member 20 (decided_issue_ids 100 submitted) || true)
decide_scope_example =
    decide_scope reviewer 100 Decision.approve (20 ∷ 20 ∷ []) none submitted partly decides_one
      submitted-IsSound 100 20

decide_fresh_example :
    (r : ApprovalRequest) × (lookup 100 submitted.approval_requests ≡ some r)
    × (member 20 (resolved_scope r.review_run_id submitted).0 ≡ true)
    × (member 20 (decided_issue_ids 100 submitted) ≡ false)
decide_fresh_example =
    decide_fresh reviewer 100 Decision.approve (20 ∷ 20 ∷ []) none submitted partly decides_one 20
      refl

decide_once_example :
    nodup (decided_rows 100 partly.approval_decisions partly.approval_decision_issues) ≡ true
decide_once_example =
    decide_once reviewer 100 Decision.approve (20 ∷ 20 ∷ []) none submitted partly decides_one
      submitted-IsSound 100 (unfold submit resolved_scope record_edges_bulk decided_rows in refl)

decide_status_example :
    (map (λ row. row.1.decision) (decisions_of 100 partly.approval_decisions)
      ≡ map (λ row. row.1.decision) (decisions_of 100 submitted.approval_decisions)
        ++ Decision.approve ∷ [])
    × ((r r' : ApprovalRequest) × (lookup 100 submitted.approval_requests ≡ some r)
        × (lookup 100 partly.approval_requests ≡ some r')
        × StatusAfter reviewer
            (map (λ row. row.1.decision) (decisions_of 100 partly.approval_decisions))
            (remaining_scope 100 r.review_run_id partly)
            r
            r')
decide_status_example =
    decide_status reviewer 100 Decision.approve (20 ∷ 20 ∷ []) none submitted partly decides_one
      submitted-IsSound

abbrev reopened : Database
reopened = (call (decide reviewer 41 Decision.approve (22 ∷ []) none) restored_db).1

decides_restored :
    call (decide reviewer 41 Decision.approve (22 ∷ []) none) restored_db ≡ (ok tt, reopened)
unfolding decide resolved_scope remaining_scope decided_issue_ids
decides_restored = refl

decide_reopens_example :
    (db' : Database) × (r' : ApprovalRequest) × (call
        (decide reviewer 41 Decision.approve (22 ∷ []) none)
        restored_db
      ≡ (ok tt, db'))
    × (lookup 41 db'.approval_requests ≡ some r')
    × (r'.status ≡ ApprovalStatus.partially_approved)
unfolding resolved_scope remaining_scope decided_issue_ids
decide_reopens_example =
    decide_reopens reviewer 41 Decision.approve (22 ∷ []) none restored_db approved_request 23
      (record { decisions_below = omega arith; rows_below = omega arith }) refl refl refl refl refl
