-- ===== src/Jobs/Cancel.antt =====
-- What `JobsService.cancel` does to a queued job, to a running one and to a finished one.
use datacraft_backend.Prelude.{
  ℕ, ◌≡◌, inl, inr, refl, Bool, true, false, not, [], ◌∷◌, Option, some, arith, Table, lookup,
  update, lookup-update, nat_eq, string_eq, option_eq, Bool-cases, Option-cases, all, filter-update,
  String, pair_eq,
}
use datacraft_backend.Core.Database.{Database}
use datacraft_backend.Core.Exceptions.{app, job_not_cancellable}
use datacraft_backend.Core.Session.{
  Session, ok, err, Transaction, Context, call, ◌>>◌, commit, one_or_none, ◌>>=◌,
}
use datacraft_backend.Models.Jobs.{JobStatus, JobType, Job, ProfileRun, is_active}
use datacraft_backend.Models.Validation.{is_queued as is_run_queued, ValidationRun}
use datacraft_backend.Jobs.Redis.{RedisClient}
use datacraft_backend.Jobs.Service.{
  cancelled_profile_run, cancelled_validation_run, cancel, cancelled, is_cancel_requested,
  mark_completed, mark_failed, mark_cancelled, profile_runs_of, validation_runs_of, cancel_rows,
  cancel_linked_run, get, set_job, cancel_validation_run, cancel_profile_run, is_job, cancel_key,
  completed_job, failed_job,
}

abbrev pub session_of : Database → Session
session_of db = record { committed = db; current = db }

-- The three calls that end a job.
pub data Ending : Type 0 where
  complete : Option String → Option String → Ending
  fail : String → Ending
  cancelled_by_worker : Ending

abbrev pub end_job : Context → ℕ → Ending → Transaction (Unit {0})
end_job c id (complete message result) = mark_completed c id message result
end_job c id (fail message) = mark_failed c id message
end_job c id cancelled_by_worker = mark_cancelled c id

-- No run that is linked to the job, in a table that can be cancelled, is QUEUED.
abbrev pub is_settled : ℕ → Database → JobType → Bool
is_settled id db JobType.profile_run =
    all (λ (_, r). not (is_run_queued r.status)) (profile_runs_of id db)
is_settled id db JobType.validation_run =
    all (λ (_, r). not (is_run_queued r.status)) (validation_runs_of id db)
is_settled id db _ = true

-- Assignments to a job that is there.
set_lem :
    (id : ℕ) (f : Job → Job) (db db' : Database)
    → call (get id >> (set_job id f >> commit)) db ≡ (ok tt, db')
    → (j : Job) × (lookup id db'.jobs ≡ some (f j))
unfolding get
set_lem id f db db' done = elim (Option-cases (lookup id db.jobs)) [
  | inl e ↦ absurd (ground (arith, done))
  | inr (j, e) ↦
      let same : update id f db.jobs ≡ db'.jobs = ground (arith, done) in
      (j, rw (← same) (ground (arith, lookup-update id id f db.jobs)))
]

ended :
    (e : Context) (id : ℕ) (ending : Ending) (db db' : Database)
    → call (end_job e id ending) db ≡ (ok tt, db')
    → (j : Job) × (lookup id db'.jobs ≡ some j) × (is_active j.status ≡ false)
unfolding mark_completed mark_failed mark_cancelled
ended e id (complete message result) db db' done =
    let (j, found) = set_lem id (completed_job e message result) db db' done in (_, found, refl)
ended e id (fail message) db db' done =
    let (j, found) = set_lem id (failed_job e message) db db' done in (_, found, refl)
ended e id cancelled_by_worker db db' done =
    let (j, found) = set_lem id (cancelled e) db db' done in (_, found, refl)

-- What the linked-run step leaves: the run is settled, and no job changes.
module _ (c : Context) (id : ℕ) (db : Database) (s : Session) where
  linked_profile_run :
      (rows : Table ProfileRun)
      → profile_runs_of id db ≡ rows
      → (one_or_none rows >>= cancel_profile_run c) (session_of db) ≡ (ok tt, s)
      → (is_settled id s.committed JobType.profile_run ≡ true) × (s.committed.jobs ≡ db.jobs)
  linked_profile_run [] e done = ground (arith, e, done)
  linked_profile_run ((k, r) ∷ []) e done = elim (Bool-cases (is_run_queued r.status)) [
    | inl q ↦ ground (
      arith,
      e,
      done,
      q,
      filter-update (λ (_, r). is_job id r.job_id) k (cancelled_profile_run c) db.profile_runs
          (λ j r. refl),
    )
    | inr q ↦ ground (arith, e, done, q)
  ]
  linked_profile_run ((k, r) ∷ x ∷ rest) e done = absurd (ground (arith, done))

  linked_validation_run :
      (rows : Table ValidationRun)
      → validation_runs_of id db ≡ rows
      → (one_or_none rows >>= cancel_validation_run c) (session_of db) ≡ (ok tt, s)
      → (is_settled id s.committed JobType.validation_run ≡ true) × (s.committed.jobs ≡ db.jobs)
  linked_validation_run [] e done = ground (arith, e, done)
  linked_validation_run ((k, r) ∷ []) e done = elim (Bool-cases (is_run_queued r.status)) [
    | inl q ↦ ground (
      arith,
      e,
      done,
      q,
      filter-update (λ (_, r). is_job id r.job_id) k (cancelled_validation_run c) db.validation_runs
          (λ j r. refl),
    )
    | inr q ↦ ground (arith, e, done, q)
  ]
  linked_validation_run ((k, r) ∷ x ∷ rest) e done = absurd (ground (arith, done))

  linked :
      (t : JobType)
      → cancel_linked_run c id t (session_of db) ≡ (ok tt, s)
      → (is_settled id s.committed t ≡ true) × (s.committed.jobs ≡ db.jobs)
  unfolding cancel_linked_run
  linked JobType.profile_run done = linked_profile_run (profile_runs_of id db) refl done
  linked JobType.validation_run done = linked_validation_run (validation_runs_of id db) refl done
  linked JobType.staging_build done = ground (arith, done)
  linked JobType.publish done = ground (arith, done)
  linked JobType.export done = ground (arith, done)
  linked JobType.discovery_run done = ground (arith, done)
  linked JobType.ai_suggestion done = ground (arith, done)

module _ (redis : RedisClient) (c : Context) (id : ℕ) (flags : redis.Store) (db : Database) where
  -- A job that was completed, failed or cancelled cannot be cancelled right after: the call
  -- raises, and neither the database nor Redis changes.
  pub cancel_ended :
      (e : Context) (ending : Ending) (db' : Database)
      → call (end_job e id ending) db ≡ (ok tt, db')
      → cancel redis c id flags (session_of db')
        ≡ (err (app job_not_cancellable), flags, session_of db')
  unfolding cancel
  cancel_ended e ending db' done =
      let (j, found, over) = ended e id ending db db' done in ground (arith, found, over)

  -- Cancelling a RUNNING job returns, sets the flag and leaves the database as it was.
  cancel_running :
      (j : Job)
      → lookup id db.jobs ≡ some j
      → j.status ≡ JobStatus.running
      → (flags' : redis.Store) × (cancel redis c id flags (session_of db)
          ≡ (ok tt, flags', session_of db))
        × (is_cancel_requested redis id flags' ≡ true)
  unfolding cancel cancel_rows is_cancel_requested
  cancel_running j found was = (_, ground (arith, found, was), redis.has-set _ flags)

  -- Cancelling a QUEUED job, when the call returns without raising, has set the flag, has stored
  -- the job CANCELLED and completed at the time of the call, with its other columns, and has left no QUEUED run linked to it in the table of its job type, if
  -- that is profile or validation runs.
  pub cancel_queued :
      (j : Job) (flags' : redis.Store) (s : Session)
      → lookup id db.jobs ≡ some j
      → j.status ≡ JobStatus.queued
      → cancel redis c id flags (session_of db) ≡ (ok tt, flags', s)
      → (lookup id s.committed.jobs
          ≡ some (record j {
            status = JobStatus.cancelled;
            completed_at = some c.now;
            updated_at = some c.now;
          }))
        × (is_settled id s.committed j.job_type ≡ true)
        × (is_cancel_requested redis id flags' ≡ true)
  unfolding cancel cancel_rows is_cancel_requested mark_cancelled
  cancel_queued j flags' s found was done =
      let after : Database = record db { jobs = update id (cancelled c) db.jobs } in
      let settled =
        linked c id after s j.job_type
          (ground (arith, found, was, done, lookup-update id id (cancelled c) db.jobs)) in
      let flagged : redis.set (cancel_key id) "1" flags ≡ flags' =
        ground (arith, found, was, done) in
      (
        rw settled.1 (ground (arith, found, lookup-update id id (cancelled c) db.jobs)),
        settled.0,
        rw (← flagged) (redis.has-set (cancel_key id) flags),
      )
