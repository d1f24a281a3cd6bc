-- ===== src/Review/Archive.antt =====
-- Archiving a review run, and restoring it.
use datacraft_backend.Prelude.{
  ℕ, ◌≡◌, ◌⊎◌, refl, [], ◌∷◌, none, some, lookup, update, lookup-update, inl, inr, Option-cases,
  arith, Table,
}
use datacraft_backend.Core.Database.{Database}
use datacraft_backend.Core.Session.{ok, call, Context, pure}
use datacraft_backend.Models.Approval.{ApprovalRequest}
use datacraft_backend.Models.Review.{ReviewStatus, ReviewRun}
use datacraft_backend.Review.Runs.{
  archive, restore, open_requests, validate_archive_transition, validate_restore_transition,
}

archivable :
    (status : ReviewStatus)
    → (status ≡ ReviewStatus.archived) ⊎ (validate_archive_transition status ≡ pure tt)
unfolding validate_archive_transition
archivable ReviewStatus.draft = inr refl
archivable ReviewStatus.in_review = inr refl
archivable ReviewStatus.ready_for_approval = inr refl
archivable ReviewStatus.archived = inl refl

abbrev pub archived_run : Context → ReviewRun → ReviewRun
archived_run c r = record r {
  status = ReviewStatus.archived;
  archived_at = some c.now;
  updated_at = some c.now;
}

abbrev pub restored_run : Context → ReviewRun → ReviewRun
restored_run c r = record r {
  status = ReviewStatus.in_review;
  archived_at = none;
  updated_at = some c.now;
}

module _ (c : Context) (id : ℕ) (db db' : Database)
    (done : call (archive c id) db ≡ (ok tt, db')) where
  unblocked :
      (rows : Table ApprovalRequest) (run : ReviewRun)
      → open_requests id db ≡ rows
      → lookup id db.review_runs ≡ some run
      → validate_archive_transition run.status ≡ pure tt
      → (open_requests id db ≡ []) × (update id (archived_run c) db.review_runs ≡ db'.review_runs)
  unfolding archive
  unblocked [] run waiting found valid = ground (arith, waiting, found, valid, done)
  unblocked (x ∷ []) run waiting found valid = ground (arith, waiting, found, valid, done)
  unblocked (x ∷ y ∷ rows) run waiting found valid = ground (arith, waiting, found, valid, done)

  not_twice :
      (run : ReviewRun)
      → lookup id db.review_runs ≡ some run
      → run.status ≡ ReviewStatus.archived
      → ⊥
  unfolding archive validate_archive_transition
  not_twice run found was = ground (arith, found, was, done)

  archive_inverse :
      (run : ReviewRun) × (lookup id db.review_runs ≡ some run)
      × (open_requests id db ≡ [])
      × (lookup id db'.review_runs ≡ some (archived_run c run))
  unfolding archive
  archive_inverse = elim (Option-cases (lookup id db.review_runs)) [
    | inl e ↦ absurd (ground (arith, e, done))
    | inr (run, e) ↦ elim (archivable run.status) [
      | inl q ↦ absurd (not_twice run e q)
      | inr q ↦
          let (free, same) = unblocked (open_requests id db) run refl e q in
          (
            run,
            e,
            free,
            rw (← same) (ground (arith, e, lookup-update id id (archived_run c) db.review_runs)),
          )
    ]
  ]

  -- A review run that was archived had no open approval request. It can be restored, whatever its
  -- status was before, and is IN_REVIEW then, with its other columns as before the archiving but
  -- for the time of update.
  pub restore-archive :
      (c2 : Context)
      → (run : ReviewRun) × (lookup id db.review_runs ≡ some run)
        × (open_requests id db ≡ [])
        × ((call (restore c2 id) db').0 ≡ ok tt)
        × (lookup id (call (restore c2 id) db').1.review_runs
            ≡ some (record run {
              status = ReviewStatus.in_review;
              archived_at = none;
              updated_at = some c2.now;
            }))
  unfolding restore validate_restore_transition
  restore-archive c2 =
      let (run, before, free, after) = archive_inverse in
      (
        run,
        before,
        free,
        ground (arith, after),
        ground (arith, after, lookup-update id id (restored_run c2) db'.review_runs),
      )
