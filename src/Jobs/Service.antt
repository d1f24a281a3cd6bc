-- ===== src/Jobs/Service.antt =====
-- app/modules/jobs/service.py: `JobsService`
use datacraft_backend.Prelude.{
  ℕ, String, Bool, false, ◌&&◌, not, List, [], ◌∷◌, Option, none, some, Table, lookup, add, update,
  filter, ◌==◌, nat_eq, string_eq, if◌then◌else◌,
}
use datacraft_backend.Core.Database.{Database}
use datacraft_backend.Core.Exceptions.{app, job_not_cancellable, job_not_found}
use datacraft_backend.Core.Session.{
  Session, Result, ok, err, Transaction, Context, pure, gets, or_raise, one_or_none, raise_if,
  modify, commit, new_id, ◌>>=◌, ◌>>◌,
}
use datacraft_backend.Models.Jobs.{
  JobStatus, JobType, Job, ProfileRun, is_active, is_queued, job_type_name,
}
use datacraft_backend.Models.Validation.{RunStatus, ValidationRun, is_queued as is_run_queued}
use datacraft_backend.Jobs.Redis.{Key, cancel_requested, RedisClient}

-- `_cancel_key`
abbrev pub cancel_key : ℕ → Key
cancel_key = cancel_requested

unfoldable pub get : ℕ → Transaction Job
get id = do found ← gets (λ db. lookup id db.jobs); or_raise (app job_not_found) found

abbrev pub set_job : ℕ → (Job → Job) → Transaction (Unit {0})
set_job id f = modify λ db. record db { jobs = update id f db.jobs }

abbrev is_in_flight_for : String → String → ℕ → ℕ × Job → Bool
is_in_flight_for job_type entity_type entity_id (_, j) =
    job_type_name j.job_type == job_type
    && j.entity_type == entity_type
    && j.entity_id == entity_id
    && is_active j.status

abbrev first_of : {A : Type 0} → List A → Option A
first_of [] = none
first_of (a ∷ rest) = some a

-- `.scalars().first()`; the query has no order, and the model takes the order of insertion
unfoldable pub find_in_flight : String → String → ℕ → Transaction (Option (ℕ × Job))
find_in_flight job_type entity_type entity_id =
    gets (λ db. first_of (filter (is_in_flight_for job_type entity_type entity_id) db.jobs))

abbrev pub new_job : Context → JobType → String → ℕ → Job
new_job c job_type entity_type entity_id = record {
  job_type = job_type;
  entity_type = entity_type;
  entity_id = entity_id;
  status = JobStatus.queued;
  progress_percentage = none;
  error_message = none;
  result = none;
  started_at = none;
  completed_at = none;
  created_by = some c.actor;
  updated_at = none;
}

unfoldable pub create : Context → JobType → String → ℕ → Transaction ℕ
create c job_type entity_type entity_id = do
  id ← new_id
  modify (λ db. record db { jobs = add id (new_job c job_type entity_type entity_id) db.jobs })
  commit
  pure id

unfoldable pub mark_running : Context → ℕ → Transaction (Unit {0})
unfolding get
mark_running c id = do
  get id
  set_job id (λ j. record j {
    status = JobStatus.running;
    started_at = some c.now;
    updated_at = some c.now;
  })
  commit

abbrev with_progress : Option ℕ → Job → Job
with_progress none j = j
with_progress (some p) j = record j { progress_percentage = some p }

-- The heartbeat is written whether or not there is a percentage.
unfoldable pub update_progress : Context → ℕ → Option ℕ → Transaction (Unit {0})
unfolding get
update_progress c id progress = do
  get id
  set_job id (λ j. record (with_progress progress j) { updated_at = some c.now })
  commit

abbrev with_result : Option String → Job → Job
with_result none j = j
with_result (some r) j = record j { result = some r }

abbrev pub completed_job : Context → Option String → Option String → Job → Job
completed_job c message result j = record (with_result result j) {
  status = JobStatus.completed;
  completed_at = some c.now;
  updated_at = some c.now;
  error_message = message;
}

unfoldable pub mark_completed : Context → ℕ → Option String → Option String → Transaction (Unit {0})
unfolding get
mark_completed c id message result = do get id; set_job id (completed_job c message result); commit

abbrev pub failed_job : Context → String → Job → Job
failed_job c message j = record j {
  status = JobStatus.failed;
  completed_at = some c.now;
  updated_at = some c.now;
  error_message = some message;
}

unfoldable pub mark_failed : Context → ℕ → String → Transaction (Unit {0})
unfolding get
mark_failed c id message = do get id; set_job id (failed_job c message); commit

abbrev pub cancelled : Context → Job → Job
cancelled c j = record j {
  status = JobStatus.cancelled;
  completed_at = some c.now;
  updated_at = some c.now;
}

unfoldable pub mark_cancelled : Context → ℕ → Transaction (Unit {0})
unfolding get
mark_cancelled c id = do get id; set_job id (cancelled c); commit

-- `select(run_model).where(run_model.job_id == job.id)`
abbrev pub is_job : ℕ → Option ℕ → Bool
is_job id none = false
is_job id (some j) = j == id

abbrev pub profile_runs_of : ℕ → Database → Table ProfileRun
profile_runs_of id db = filter (λ (_, r). is_job id r.job_id) db.profile_runs

abbrev pub validation_runs_of : ℕ → Database → Table ValidationRun
validation_runs_of id db = filter (λ (_, r). is_job id r.job_id) db.validation_runs

abbrev pub cancelled_profile_run : Context → ProfileRun → ProfileRun
cancelled_profile_run c r = record r { status = RunStatus.cancelled; completed_at = some c.now }

abbrev pub cancel_profile_run : Context → Option (ℕ × ProfileRun) → Transaction (Unit {0})
cancel_profile_run c none = pure tt
cancel_profile_run c (some (k, r)) =
    if is_run_queued r.status
    then modify (λ db. record db {
      profile_runs =
          update k (λ r. record r { status = RunStatus.cancelled; completed_at = some c.now })
            db.profile_runs;
    })
      >> commit
    else pure tt

abbrev pub cancelled_validation_run : Context → ValidationRun → ValidationRun
cancelled_validation_run c r = record r { status = RunStatus.cancelled; completed_at = some c.now }

abbrev pub cancel_validation_run : Context → Option (ℕ × ValidationRun) → Transaction (Unit {0})
cancel_validation_run c none = pure tt
cancel_validation_run c (some (k, r)) =
    if is_run_queued r.status
    then modify (λ db. record db {
      validation_runs =
          update k (λ r. record r { status = RunStatus.cancelled; completed_at = some c.now })
            db.validation_runs;
    })
      >> commit
    else pure tt

-- `_CANCELLABLE_RUN_TABLE_BY_JOB_TYPE` and what `cancel` does with the row that it finds
unfoldable pub cancel_linked_run : Context → ℕ → JobType → Transaction (Unit {0})
cancel_linked_run c id JobType.profile_run = do
  rows ← gets (profile_runs_of id)
  row ← one_or_none rows
  cancel_profile_run c row
cancel_linked_run c id JobType.validation_run = do
  rows ← gets (validation_runs_of id)
  row ← one_or_none rows
  cancel_validation_run c row
cancel_linked_run c id _ = pure tt

-- `cancel` before it writes to Redis, and after.
unfoldable pub check_cancellable : ℕ → Transaction Job
unfolding get
check_cancellable id = do
  job ← get id
  raise_if (not (is_active job.status)) (app job_not_cancellable)
  pure job

unfoldable pub cancel_rows : Context → ℕ → Job → Transaction (Unit {0})
unfolding mark_cancelled
cancel_rows c id job =
    if is_queued job.status
    then mark_cancelled c id >> cancel_linked_run c id job.job_type
    else pure tt

module _ (redis : RedisClient) where
  unfoldable pub cancel :
      Context → ℕ → redis.Store → Session → Result (Unit {0}) × redis.Store × Session
  unfolding check_cancellable
  cancel c id flags s =
      let (checked, s') = check_cancellable id s in
      elim checked [
        | err e ↦ (err e, flags, s')
        | ok job ↦
            let (done, s'') = cancel_rows c id job s' in
            (done, redis.set (cancel_key id) "1" flags, s'')
      ]

  unfoldable pub is_cancel_requested : ℕ → redis.Store → Bool
  is_cancel_requested id flags = redis.has (cancel_key id) flags

  unfoldable pub clear_cancel_flag : ℕ → redis.Store → redis.Store
  clear_cancel_flag id flags = redis.delete (cancel_key id) flags
