-- ===== src/Publishing/Runs.antt =====
-- app/modules/publishing/tasks.py: what `run_publish` does in the database.
use datacraft_backend.Prelude.{
  ℕ, ◌*◌, ◌-◌, Bool, true, false, not, ◌&&◌, ◌||◌, List, [], ◌∷◌, map, Option, none, some, Table,
  lookup, nat_eq, string_eq, option_eq, ◌==◌, String, filter, if◌then◌else◌, is_some,
}
use datacraft_backend.Core.Database.{Database}
use datacraft_backend.Core.Exceptions.{attribute_error}
use datacraft_backend.Core.Session.{
  Transaction, Context, raise, gets, commit, pure, or_raise, ◌>>=◌, ◌>>◌,
}
use datacraft_backend.Core.Text.{Text}
use datacraft_backend.Models.Jobs.{JobStatus}
use datacraft_backend.Models.Publishing.{PublishStatus, TargetType, PublishRun}
use datacraft_backend.Models.Staging.{StagingRecord}
use datacraft_backend.Models.Trail.{MetaValue, ActorType}
use datacraft_backend.Trail.Audit.{record_event}
use datacraft_backend.Jobs.Service.{get as get_job, mark_running, mark_completed, mark_failed}
use datacraft_backend.Publishing.Export.{
  WriteFailure, invalid_target_path, target_already_exists, os_error,
}
use datacraft_backend.Publishing.Service.{set_publish_run}

-- what the task returns
pub data Outcome : Type 0 where
  resolved : JobStatus → Outcome
  blocked : Outcome
  failed : WriteFailure → Outcome
  published : ℕ → Outcome

abbrev pub is_job_resolved : JobStatus → Bool
is_job_resolved JobStatus.cancelled = true
is_job_resolved JobStatus.completed = true
is_job_resolved JobStatus.failed = true
is_job_resolved _ = false

abbrev pub is_run_resolved : PublishStatus → Bool
is_run_resolved PublishStatus.published = true
is_run_resolved PublishStatus.failed = true
is_run_resolved _ = false

-- the type's name, with which the message begins
abbrev pub failure_name : WriteFailure → String
failure_name invalid_target_path = "InvalidTargetPathError"
failure_name target_already_exists = "TargetAlreadyExistsError"
failure_name os_error = "OSError"

abbrev pub target_type_name : TargetType → String
target_type_name TargetType.warehouse_table = "WAREHOUSE_TABLE"
target_type_name TargetType.source_table = "SOURCE_TABLE"
target_type_name TargetType.file_export = "FILE_EXPORT"
target_type_name TargetType.api = "API"

-- `db.get(User, job.created_by) if job.created_by else None`, by its key
abbrev pub actor_of : Option ℕ → Database → Option ℕ
actor_of none db = none
actor_of (some id) db = if is_some (lookup id db.users) then some id else none

abbrev pub begun : Context → PublishRun → PublishRun
begun c p = record p {
  status = PublishStatus.publishing;
  started_at = some c.now;
  updated_at = some c.now;
}

abbrev pub failed_run : Context → WriteFailure → PublishRun → PublishRun
failed_run c e p = record p {
  status = PublishStatus.failed;
  error_message = some (failure_name e);
  completed_at = some c.now;
  updated_at = some c.now;
}

abbrev pub published_run : Context → ℕ → PublishRun → PublishRun
published_run c count p = record p {
  status = PublishStatus.published;
  published_record_count = some count;
  completed_at = some c.now;
  updated_at = some c.now;
}

abbrev pub snapshots_of : ℕ → Table StagingRecord → List Text
snapshots_of staging_run_id t =
    map (λ (_, r). r.row_snapshot) (filter (λ (_, r). r.staging_run_id == staging_run_id) t)

-- what the task has read when it begins to publish
pub record Task : Type 0 where
  pub job_id : ℕ
  pub run_id : ℕ
  pub run : PublishRun
  pub actor : Option ℕ
  pub rows : List Text

-- The task returns at once, with or without a publish run to clear the option of, or it goes on.
pub data Start : Type 0 where
  stop : Bool → Outcome → Start
  proceed : Task → Start

abbrev pub is_unresolved_run : Option PublishRun → Bool
is_unresolved_run none = false
is_unresolved_run (some p) = not (is_run_resolved p.status)

-- an answer of a task that stops
abbrev pub is_stop : Outcome → Bool
is_stop (resolved status) = true
is_stop blocked = true
is_stop _ = false

-- the drift gate, and what the task reads and writes before the export
abbrev pub start_run : Context → ℕ → ℕ → Option ℕ → Option PublishRun → Transaction Start
start_run c job_id run_id created_by none = raise attribute_error
start_run c job_id run_id created_by (some p) = do
  found ← gets (λ db. lookup p.staging_run_id db.staging_runs)
  staging_run ← or_raise attribute_error found
  if staging_run.has_source_drift && not p.drift_acknowledged
      then pure (stop false blocked)
      else (do
        actor ← gets (actor_of created_by)
        mark_running c job_id
        set_publish_run run_id (begun c)
        commit
        rows ← gets (λ db. snapshots_of p.staging_run_id db.staging_records)
        pure (
            proceed
              (record { job_id = job_id; run_id = run_id; run = p; actor = actor; rows = rows })))

-- `run_publish` up to the export; a run that is missing or a job or run that is resolved stops it.
unfoldable pub start : Context → ℕ → ℕ → Transaction Start
unfolding get_job mark_running
start c job_id run_id = do
  job ← get_job job_id
  found ← gets (λ db. lookup run_id db.publish_runs)
  if is_job_resolved job.status || not (is_unresolved_run found)
      then pure (stop (is_some found) (resolved job.status))
      else start_run c job_id run_id job.created_by found

-- `_fail` and the commit
unfoldable pub fail : Context → Task → WriteFailure → Transaction (Unit {0})
unfolding mark_failed record_event
fail c t e = do
  mark_failed c t.job_id (failure_name e)
  set_publish_run t.run_id (failed_run c e)
  record_event t.actor ActorType.user "publish_run.failed" "PUBLISH_RUN" t.run_id (
      ("staging_run_id", MetaValue.id t.run.staging_run_id)
      ∷ ("target_type", MetaValue.tag (target_type_name t.run.target_type))
      ∷ [])
  commit

-- The duration is given in milliseconds; times are in seconds.
unfoldable pub finish : Context → Context → Task → ℕ → Transaction (Unit {0})
unfolding mark_completed record_event
finish began c t count = do
  set_publish_run t.run_id (published_run c count)
  mark_completed c t.job_id none none
  record_event t.actor ActorType.user "publish_run.completed" "PUBLISH_RUN" t.run_id (
      ("staging_run_id", MetaValue.id t.run.staging_run_id)
      ∷ ("target_type", MetaValue.tag (target_type_name t.run.target_type))
      ∷ ("published_record_count", MetaValue.count count)
      ∷ ("duration", MetaValue.count ((c.now - began.now) * 1000))
      ∷ [])
  commit
