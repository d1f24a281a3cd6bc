-- ===== src/Publishing/Published.antt =====
-- What the task `run_publish` does: to the files, to the publish run, and where drift blocks it.
use datacraft_backend.Prelude.{
  ℕ, ◌≡◌, ◌⊎◌, inl, inr, refl, ap, ◌∙◌, true, false, not, ◌&&◌, List, [], ◌∷◌, map, some, arith,
  lookup, update, lookup-update, length, nat_eq, string_eq, option_eq, ◌==◌, eq_of_beq, Bool-cases,
  Option-cases, all, filter, if◌then◌else◌, pair_eq,
}
use datacraft_backend.Core.Database.{Database}
use datacraft_backend.Core.Exceptions.{Error}
use datacraft_backend.Core.Session.{Session, Context, Result, ok, err}
use datacraft_backend.Core.Action.{run}
use datacraft_backend.Core.Text.{Text}
use datacraft_backend.Models.Publishing.{PublishRun, PublishStatus}
use datacraft_backend.Models.Staging.{StagingRun}
use datacraft_backend.Jobs.Cancel.{session_of}
use datacraft_backend.Jobs.Service.{mark_completed}
use datacraft_backend.Publishing.World.{OptionsRedis, FileSystem, is_single_line}
use datacraft_backend.Publishing.Options.{get_overwrite}
use datacraft_backend.Publishing.Export.{WriteFailure, Written, done, failure, export_rows}
use datacraft_backend.Publishing.Runs.{
  is_run_resolved, Outcome, published, Task, start, proceed, fail, finish, begun, published_run,
}
use datacraft_backend.Publishing.Tasks.{run_publish, Stores}
use datacraft_backend.Publishing.Started.{start-cases}
use datacraft_backend.Publishing.Gate.{is_writable, export_other, export_count}

finish_lem :
    (began c : Context) (t : Task) (n : ℕ) (s : Session)
    → (finish began c t n s).0 ≡ ok tt
    → (finish began c t n s).1.committed.publish_runs
      ≡ update t.run_id (published_run c n) s.current.publish_runs
unfolding finish mark_completed
finish_lem began c t n s e = elim (Option-cases (lookup t.job_id s.current.jobs)) [
  | inl absent ↦ absurd (ground (arith, e, absent))
  | inr (j, found) ↦ ground (arith, found)
]

Written-cases : (w : Written ℕ) → ((e : WriteFailure) × (w ≡ failure e)) ⊎ ((n : ℕ) × (w ≡ done n))
Written-cases (failure e) = inl (e, refl)
Written-cases (done n) = inr (n, refl)

Result-cases : (r : Result (Unit {0})) → ((e : Error) × (r ≡ err e)) ⊎ (r ≡ ok tt)
Result-cases (err e) = inl (e, refl)
Result-cases (ok x) = inr refl

length-map : {A B : Type 0} (f : A → B) (xs : List A) → length (map f xs) ≡ length xs
length-map f [] = refl
length-map f (x ∷ xs) = ground (arith, length-map f xs)

all-map :
    (f : Text → Text) (xs : List Text)
    → ((x : Text) → is_single_line (f x) ≡ true)
    → all is_single_line (map f xs) ≡ true
all-map f [] h = refl
all-map f (x ∷ xs) h = ground (arith, h x, all-map f xs h)

unresolved-cases :
    (status : PublishStatus)
    → is_run_resolved status ≡ false
    → (status ≡ PublishStatus.pending) ⊎ (status ≡ PublishStatus.publishing)
unresolved-cases PublishStatus.pending h = inl refl
unresolved-cases PublishStatus.publishing h = inr refl
unresolved-cases PublishStatus.published h = absurd (cc (h))
unresolved-cases PublishStatus.failed h = absurd (cc (h))

module _ (redis : OptionsRedis) (files : FileSystem) (directory : Text) (dumps : Text → Text)
    (began c : Context) (job_id run_id : ℕ) (options : redis.Store) (disk : files.Store)
    (db : Database) where
  abbrev pub publishes : Result Outcome × Stores redis files directory dumps × Database
  publishes = run (run_publish redis files directory dumps began c job_id run_id) (options, disk) db

  -- the export of the task, and what the run leaves once it is settled
  abbrev exports : Task → Written ℕ × files.Store
  exports t =
      export_rows files t.run.target_reference directory (get_overwrite redis run_id options)
        (map dumps t.rows) disk

  run_settled :
      (j : ℕ) (p : PublishRun)
      → lookup run_id db.publish_runs ≡ some p
      → (n : ℕ)
      → lookup j (update run_id (published_run c n) (update run_id (begun began) db.publish_runs))
        ≡ (if j == run_id
            then some (published_run c n (begun began p))
            else lookup j db.publish_runs)
  run_settled j p known n = elim (Bool-cases (j == run_id)) [
    | inl e ↦ ground (
      arith,
      e,
      eq_of_beq j run_id e,
      known,
      lookup-update j run_id (published_run c n) (update run_id (begun began) db.publish_runs),
      lookup-update j run_id (begun began) db.publish_runs,
    )
    | inr e ↦ ground (
      arith,
      e,
      lookup-update j run_id (published_run c n) (update run_id (begun began) db.publish_runs),
      lookup-update j run_id (begun began) db.publish_runs,
    )
  ]

  module _ (t : Task) (s : Session)
      (went_on : start began job_id run_id (session_of db) ≡ (ok (proceed t), s))
      (same_run : t.run_id ≡ run_id) where
    settled_disk : publishes.1.1 ≡ (exports t).1
    unfolding run_publish
    settled_disk = elim (Written-cases (exports t).0) [
      | inl (e, w) ↦ elim (Result-cases (fail c t e s).0) [
        | inl (x, r) ↦ ground (arith, went_on, same_run, w, r)
        | inr r ↦ ground (arith, went_on, same_run, w, r)
      ]
      | inr (n, w) ↦ elim (Result-cases (finish began c t n s).0) [
        | inl (x, r) ↦ ground (arith, went_on, same_run, w, r)
        | inr r ↦ ground (arith, went_on, same_run, w, r)
      ]
    ]

    settled_published :
        (n : ℕ)
        → publishes.0 ≡ ok (published n)
        → ((exports t).0 ≡ done n)
          × (publishes.2.publish_runs ≡ update run_id (published_run c n) s.current.publish_runs)
    unfolding run_publish
    settled_published n done_n = elim (Written-cases (exports t).0) [
      | inl (e, w) ↦ elim (Result-cases (fail c t e s).0) [
        | inl (x, r) ↦ absurd (ground (arith, went_on, same_run, w, r, done_n))
        | inr r ↦ absurd (ground (arith, went_on, same_run, w, r, done_n))
      ]
      | inr (m, w) ↦ elim (Result-cases (finish began c t m s).0) [
        | inl (x, r) ↦ absurd (ground (arith, went_on, same_run, w, r, done_n))
        | inr r ↦
            let same : m ≡ n = ground (arith, went_on, same_run, w, r, done_n) in
            (
              ground (arith, w, same),
              ground (arith, went_on, same_run, w, r, same, finish_lem began c t m s r),
            )
      ]
    ]

  -- While the staging run of a publish run has source drift that is not acknowledged, the task
  -- leaves the database and the files as they were.
  pub drift_gate :
      (p : PublishRun) (r : StagingRun)
      → lookup run_id db.publish_runs ≡ some p
      → lookup p.staging_run_id db.staging_runs ≡ some r
      → r.has_source_drift ≡ true
      → p.drift_acknowledged ≡ false
      → (publishes.1.1 ≡ disk) × (publishes.2 ≡ db)
  unfolding run_publish
  drift_gate p r known staged drift open_drift = elim (start-cases began job_id run_id db) [
    | inl (e, same) ↦ ground (arith, same)
    | inr (inl (clears, o, stops, same)) ↦ ground (arith, same)
    | inr (inr (t, s, same, h)) ↦ absurd (ground (arith, h.known, h.staged, h.gate))
  ]

  -- Whatever the outcome, a file is as it was that lies outside the export directory, or that was
  -- there when overwriting was not requested.
  pub publish_safe :
      (q : files.Location)
      → is_writable files directory disk (get_overwrite redis run_id options) q ≡ false
      → files.content q publishes.1.1 ≡ files.content q disk
  unfolding run_publish
  publish_safe q safe = elim (start-cases began job_id run_id db) [
    | inl (e, same) ↦ ground (arith, same)
    | inr (inl (clears, o, stops, same)) ↦ ground (arith, same)
    | inr (inr (t, s, same, h)) ↦ rw (settled_disk t s same h.same_run) (
        export_other files directory t.run.target_reference (map dumps t.rows) disk
          (get_overwrite redis run_id options) q safe)
  ]

  -- When the task answers that n records were published, and each text that `dumps` gives is one line,
  -- the run was PENDING or PUBLISHING and its drift, if any, acknowledged, n is the number of the
  -- records of its staging run, and the run is committed as PUBLISHED with that count, started and
  -- completed at the two times of the task, its other columns and the other runs as they were.
  pub publish_count :
      (n : ℕ)
      → ((t : Text) → is_single_line (dumps t) ≡ true)
      → publishes.0 ≡ ok (published n)
      → (p : PublishRun) × (r : StagingRun) × (lookup run_id db.publish_runs ≡ some p)
        × ((p.status ≡ PublishStatus.pending) ⊎ (p.status ≡ PublishStatus.publishing))
        × (lookup p.staging_run_id db.staging_runs ≡ some r)
        × ((r.has_source_drift && not p.drift_acknowledged) ≡ false)
        × (n ≡ length (filter (λ (_, x). x.staging_run_id == p.staging_run_id) db.staging_records))
        × ((j : ℕ)
            → lookup j publishes.2.publish_runs ≡ (
                if j == run_id
                then some (record p {
                  status = PublishStatus.published;
                  published_record_count = some n;
                  started_at = some began.now;
                  completed_at = some c.now;
                  updated_at = some c.now;
                })
                else lookup j db.publish_runs))
  unfolding run_publish
  publish_count n single done_n = elim (start-cases began job_id run_id db) [
    | inl (e, same) ↦ absurd (ground (arith, same, done_n))
    | inr (inl (clears, o, stops, same)) ↦ absurd (ground (arith, same, done_n, stops))
    | inr (inr (t, s, same, h)) ↦
        let settled = settled_published t s same h.same_run n done_n in
        let runs : publishes.2.publish_runs
            ≡ update run_id (published_run c n) (update run_id (begun began) db.publish_runs) =
          ground (arith, settled.1, h.committed, h.runs_after) in
        (
          t.run,
          h.staging_run,
          h.known,
          unresolved-cases t.run.status h.unresolved,
          h.staged,
          h.gate,
          export_count files directory t.run.target_reference (map dumps t.rows) disk
                (get_overwrite redis run_id options) n (all-map dumps t.rows single) settled.0
              ∙ length-map dumps t.rows
              ∙ ap length h.rows
              ∙ length-map _ _,
          λ j. ap (lookup j) runs ∙ run_settled j t.run h.known n,
        )
  ]
