-- ===== src/Examples/Bulk.antt =====
-- Bulk actions: one that fails half-way, and one that is given the issues of another run.
use datacraft_backend.Prelude.{◌≡◌, refl, [], ◌∷◌, ◌++◌}
use datacraft_backend.Core.Database.{Database}
use datacraft_backend.Core.Exceptions.{app, issue_not_found}
use datacraft_backend.Core.Session.{err, call}
use datacraft_backend.Models.Review.{ReviewStatus}
use datacraft_backend.Approval.Scope.{resolved_scope}
use datacraft_backend.Review.Bulk.{BulkAction, bulk_action}
use datacraft_backend.Review.Atomic.{bulk_atomic}
use datacraft_backend.Examples.Data.{reviewer, review_db, review_run}

abbrev open_db : Database
open_db = review_db ReviewStatus.in_review

stops :
    call (bulk_action reviewer 10 (22 ∷ 99 ∷ []) BulkAction.skip) open_db
    ≡ (err (app issue_not_found), open_db)
unfolding bulk_action
stops = refl

bulk_atomic_example : open_db ≡ open_db
bulk_atomic_example =
    bulk_atomic reviewer 10 (22 ∷ 99 ∷ []) BulkAction.skip open_db open_db (app issue_not_found)
      stops

-- Run 10 is READY_FOR_APPROVAL and run 11 is IN_REVIEW.
abbrev two_runs : Database
two_runs =
    let db = review_db ReviewStatus.ready_for_approval in
    record db { review_runs = db.review_runs ++ (11, review_run ReviewStatus.in_review) ∷ [] }

before : (resolved_scope 10 two_runs).0 ≡ 20 ∷ 21 ∷ []
unfolding resolved_scope
before = refl

-- A bulk action on run 11 that names an issue of run 10 takes it out of the frozen scope.
crosses :
    (resolved_scope 10 (call (bulk_action reviewer 11 (20 ∷ []) BulkAction.reject) two_runs).1).0
    ≡ 21 ∷ []
unfolding resolved_scope bulk_action
crosses = refl
