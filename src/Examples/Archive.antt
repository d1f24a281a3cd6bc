-- ===== src/Examples/Archive.antt =====
-- A review run that is archived and restored.
use datacraft_backend.Prelude.{◌≡◌, refl, [], none, some, lookup}
use datacraft_backend.Core.Database.{Database}
use datacraft_backend.Core.Session.{ok, call}
use datacraft_backend.Models.Review.{ReviewStatus, ReviewRun}
use datacraft_backend.Review.Runs.{archive, restore, open_requests}
use datacraft_backend.Review.Archive.{restore-archive}
use datacraft_backend.Examples.Data.{reviewer, review_db}

abbrev draft_db : Database
draft_db = review_db ReviewStatus.draft

abbrev archived_db : Database
archived_db = (call (archive reviewer 10) draft_db).1

archives : call (archive reviewer 10) draft_db ≡ (ok tt, archived_db)
unfolding archive
archives = refl

restore-archive_example :
    (run : ReviewRun) × (lookup 10 draft_db.review_runs ≡ some run)
    × (open_requests 10 draft_db ≡ [])
    × ((call (restore reviewer 10) archived_db).0 ≡ ok tt)
    × (lookup 10 (call (restore reviewer 10) archived_db).1.review_runs
        ≡ some (record run {
          status = ReviewStatus.in_review;
          archived_at = none;
          updated_at = some 1000;
        }))
restore-archive_example = restore-archive reviewer 10 draft_db archived_db archives reviewer
