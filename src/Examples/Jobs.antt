-- ===== src/Examples/Jobs.antt =====
-- A queue with a stale publish job, a queued validation job and a running one.
use datacraft_backend.Prelude.{
  ℕ, ◌+◌, ◌≡◌, ◌≢◌, ◌⊎◌, inl, inr, ◌↔◌, refl, ap, Bool, true, false, [], ◌∷◌, Option, none, some,
  lookup, update_where, length, nat_eq, string_eq, option_eq, ◌==◌, beq_refl, eq_of_beq, Bool-cases,
  filter, if◌then◌else◌, pair_eq,
}
use datacraft_backend.Core.Database.{Database}
use datacraft_backend.Core.Exceptions.{app, Error, job_not_cancellable}
use datacraft_backend.Core.Session.{Session, ok, err, call}
use datacraft_backend.Models.Jobs.{JobStatus, JobType, Job}
use datacraft_backend.Models.Publishing.{PublishStatus, TargetType, PublishRun}
use datacraft_backend.Models.Validation.{RunStatus}
use datacraft_backend.Jobs.Redis.{Key, cancel_requested, RedisClient}
use datacraft_backend.Jobs.Service.{
  cancel, is_cancel_requested, mark_failed, cancel_rows, cancel_linked_run,
}
use datacraft_backend.Jobs.Sweep.{is_stale, sweep_stale_jobs, sweep_jobs, fail_linked_run}
use datacraft_backend.Jobs.Cancel.{session_of, fail, is_settled, cancel_ended, cancel_queued}
use datacraft_backend.Jobs.Swept.{RunsSince, sweep_outcome, sweep_again}
use datacraft_backend.Examples.Data.{reviewer, empty_db}

-- Redis as a function from keys to whether a value is stored.
abbrev same_key : Key → Key → Bool
same_key (cancel_requested a) (cancel_requested b) = a == b

abbrev put : Bool → Key → (Key → Bool) → Key → Bool
put b k s j = if same_key k j then b else s j

put_same : (b : Bool) (k : Key) (s : Key → Bool) → put b k s k ≡ b
put_same b (cancel_requested a) s = rw (beq_refl a) refl

put_other : (k j : Key) (s : Key → Bool) → k ≢ j → put true k s j ≡ s j
put_other (cancel_requested a) (cancel_requested b) s h = elim (Bool-cases (a == b)) [
  | inl e ↦ absurd (h (ap cancel_requested (eq_of_beq a b e)))
  | inr e ↦ rw e refl
]

abbrev redis : RedisClient
redis = record {
  Store = Key → Bool;
  set = λ k v s. put true k s;
  delete = put false;
  has = λ k s. s k;
  has-set = put_same true;
  has-set_other = put_other;
  has-delete = put_same false;
}

abbrev no_flags : Key → Bool
no_flags k = false

abbrev job_on : JobType → JobStatus → Option ℕ → Job
job_on job_type status heartbeat = record {
  job_type = job_type;
  entity_type = "DATASET";
  entity_id = 3;
  status = status;
  progress_percentage = none;
  error_message = none;
  result = none;
  started_at = none;
  completed_at = none;
  created_by = some 7;
  updated_at = heartbeat;
}

abbrev publishing : PublishRun
publishing = record {
  staging_run_id = 5;
  job_id = some 1;
  status = PublishStatus.publishing;
  target_type = TargetType.file_export;
  target_reference = [];
  published_record_count = none;
  drift_acknowledged = false;
  drift_acknowledged_by = none;
  drift_acknowledged_at = none;
  error_message = none;
  published_by = some 7;
  started_at = none;
  completed_at = none;
  updated_at = none;
}

abbrev jobs_db : Database
jobs_db = record empty_db {
  jobs =
      (1, job_on JobType.publish JobStatus.running (some 300))
      ∷ (2, job_on JobType.validation_run JobStatus.queued none)
      ∷ (3, job_on JobType.profile_run JobStatus.running (some 990))
      ∷ [];
  publish_runs = (4, publishing) ∷ [];
  validation_runs =
      (
        6,
        record {
          dataset_id = 3;
          job_id = some 2;
          status = RunStatus.queued;
          error_message = none;
          completed_at = none;
        },
      )
      ∷ [];
}

abbrev swept_db : Database
swept_db = (call (sweep_stale_jobs reviewer 10 "stale") jobs_db).1

sweeps : call (sweep_stale_jobs reviewer 10 "stale") jobs_db ≡ (ok 1, swept_db)
unfolding sweep_stale_jobs sweep_jobs fail_linked_run
sweeps = refl

sweep_outcome_example :
    ((e : Error) × (call (sweep_stale_jobs reviewer 10 "stale") jobs_db ≡ (err e, jobs_db)))
    ⊎ ((db' : Database) × (call (sweep_stale_jobs reviewer 10 "stale") jobs_db
          ≡ (ok (length (filter (is_stale 400) jobs_db.jobs)), db'))
        × (db'.jobs
            ≡ update_where
                (is_stale 400)
                (λ j. record j {
                  status = JobStatus.failed;
                  completed_at = some 1000;
                  updated_at = some 1000;
                  error_message = some "stale";
                })
                jobs_db.jobs)
        × ((k : ℕ) (j : Job) → (is_stale 400 (k, j) ≡ true) ↔ RunsSince 400 j)
        × (length db'.audit_events
            ≡ length jobs_db.audit_events + length (filter (is_stale 400) jobs_db.jobs))
        × (db'.publish_runs ≡ jobs_db.publish_runs))
sweep_outcome_example = sweep_outcome reviewer 10 "stale" jobs_db refl

sweep_again_example : call (sweep_stale_jobs reviewer 10 "stale") swept_db ≡ (ok 0, swept_db)
sweep_again_example = sweep_again reviewer 10 "stale" jobs_db 1 swept_db refl sweeps

abbrev failed_db : Database
failed_db = (call (mark_failed reviewer 3 "source lost") jobs_db).1

fails : call (mark_failed reviewer 3 "source lost") jobs_db ≡ (ok tt, failed_db)
unfolding mark_failed
fails = refl

cancel_ended_example :
    cancel redis reviewer 3 no_flags (session_of failed_db)
    ≡ (err (app job_not_cancellable), no_flags, session_of failed_db)
cancel_ended_example =
    cancel_ended redis reviewer 3 no_flags jobs_db reviewer (fail "source lost") failed_db fails

abbrev cancel_two : Session
cancel_two = (cancel redis reviewer 2 no_flags (session_of jobs_db)).2

cancels :
    cancel redis reviewer 2 no_flags (session_of jobs_db)
    ≡ (ok tt, put true (cancel_requested 2) no_flags, cancel_two)
unfolding cancel cancel_rows cancel_linked_run
cancels = refl

cancel_queued_example :
    (lookup 2 cancel_two.committed.jobs
      ≡ some (record (job_on JobType.validation_run JobStatus.queued none) {
        status = JobStatus.cancelled;
        completed_at = some 1000;
        updated_at = some 1000;
      }))
    × (is_settled 2 cancel_two.committed JobType.validation_run ≡ true)
    × (is_cancel_requested redis 2 (put true (cancel_requested 2) no_flags) ≡ true)
cancel_queued_example =
    cancel_queued redis reviewer 2 no_flags jobs_db
      (job_on JobType.validation_run JobStatus.queued none) (put true (cancel_requested 2) no_flags)
      cancel_two refl refl cancels
