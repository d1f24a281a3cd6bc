-- ===== src/Jobs/Sweep.antt =====
-- app/modules/jobs/tasks.py: `sweep_stale_jobs`
use datacraft_backend.Prelude.{
  ℕ, ◌-◌, ◌*◌, String, Bool, false, ◌||◌, ◌&&◌, [], ◌∷◌, Option, none, some, Table, filter, ltb,
  ◌==◌, string_eq, if◌then◌else◌, update, length,
}
use datacraft_backend.Core.Database.{Database}
use datacraft_backend.Core.Session.{
  Transaction, Context, pure, gets, one_or_none, modify, commit, ◌>>=◌, ◌>>◌,
}
use datacraft_backend.Models.Jobs.{JobStatus, JobType, Job, ProfileRun, is_running}
use datacraft_backend.Models.Publishing.{PublishStatus, PublishRun, publish_status_name}
use datacraft_backend.Models.Trail.{MetaValue, ActorType}
use datacraft_backend.Models.Validation.{RunStatus, ValidationRun, is_in_flight}
use datacraft_backend.Trail.Audit.{record_event}
use datacraft_backend.Jobs.Service.{is_job, profile_runs_of, validation_runs_of, set_job}

-- `Job.updated_at < threshold`, which a null is not
abbrev pub older : ℕ → Option ℕ → Bool
older threshold none = false
older threshold (some t) = ltb t threshold

-- `Job.status == "RUNNING", Job.updated_at < threshold`
abbrev pub is_stale : ℕ → ℕ × Job → Bool
is_stale threshold (_, j) = is_running j.status && older threshold j.updated_at

-- the threshold at a time in seconds
abbrev pub stale_before : Context → ℕ → ℕ
stale_before c minutes = c.now - minutes * 60

abbrev pub stale : Context → String → Job → Job
stale c message j = record j {
  status = JobStatus.failed;
  completed_at = some c.now;
  updated_at = some c.now;
  error_message = some message;
}

abbrev pub fail_profile_run : Context → String → Option (ℕ × ProfileRun) → Transaction (Unit {0})
fail_profile_run c message none = pure tt
fail_profile_run c message (some (k, r)) =
    if is_in_flight r.status
    then modify (λ db. record db {
      profile_runs =
          update k
            (λ r. record r {
              status = RunStatus.failed;
              completed_at = some c.now;
              error_message = some message;
            })
            db.profile_runs;
    })
    else pure tt

abbrev pub fail_validation_run :
    Context → String → Option (ℕ × ValidationRun) → Transaction (Unit {0})
fail_validation_run c message none = pure tt
fail_validation_run c message (some (k, r)) =
    if is_in_flight r.status
    then modify (λ db. record db {
      validation_runs =
          update k
            (λ r. record r {
              status = RunStatus.failed;
              completed_at = some c.now;
              error_message = some message;
            })
            db.validation_runs;
    })
    else pure tt

-- `run_row.status in ("QUEUED", "RUNNING")` of a publish run
abbrev pub is_publish_in_flight : PublishStatus → Bool
is_publish_in_flight status =
    publish_status_name status == "QUEUED" || publish_status_name status == "RUNNING"

abbrev pub fail_publish_run : Context → String → Option (ℕ × PublishRun) → Transaction (Unit {0})
fail_publish_run c message none = pure tt
fail_publish_run c message (some (k, r)) =
    if is_publish_in_flight r.status
    then modify (λ db. record db {
      publish_runs =
          update k
            (λ r. record r {
              status = PublishStatus.failed;
              completed_at = some c.now;
              error_message = some message;
            })
            db.publish_runs;
    })
    else pure tt

abbrev pub publish_runs_of : ℕ → Database → Table PublishRun
publish_runs_of id db = filter (λ (_, r). is_job id r.job_id) db.publish_runs

-- `_RUN_TABLE_BY_JOB_TYPE` and what the sweep does with the row that it finds
unfoldable pub fail_linked_run : Context → String → ℕ → JobType → Transaction (Unit {0})
fail_linked_run c message id JobType.profile_run = do
  rows ← gets (profile_runs_of id)
  row ← one_or_none rows
  fail_profile_run c message row
fail_linked_run c message id JobType.validation_run = do
  rows ← gets (validation_runs_of id)
  row ← one_or_none rows
  fail_validation_run c message row
fail_linked_run c message id JobType.publish = do
  rows ← gets (publish_runs_of id)
  row ← one_or_none rows
  fail_publish_run c message row
fail_linked_run c message id _ = pure tt

-- The loop over the stale jobs.
unfoldable pub sweep_jobs : Context → ℕ → String → Table Job → Transaction (Unit {0})
unfolding record_event
sweep_jobs c minutes message [] = pure tt
sweep_jobs c minutes message ((id, job) ∷ rest) = do
  set_job id (stale c message)
  fail_linked_run c message id job.job_type
  record_event none ActorType.system "job.marked_stale" "JOB" id
      (("threshold_minutes", MetaValue.count minutes) ∷ [])
  sweep_jobs c minutes message rest

-- `message` is the text that names `minutes`, STALE_JOB_THRESHOLD_MINUTES of the settings
unfoldable pub sweep_stale_jobs : Context → ℕ → String → Transaction ℕ
sweep_stale_jobs c minutes message = do
  stale_jobs ← gets (λ db. filter (is_stale (stale_before c minutes)) db.jobs)
  sweep_jobs c minutes message stale_jobs
  commit
  pure (length stale_jobs)
