-- ===== src/Publishing/Service.antt =====
-- app/modules/publishing/service.py
use datacraft_backend.Prelude.{
  ℕ, Bool, true, false, not, ◌&&◌, List, [], ◌∷◌, Option, none, some, Table, lookup, add, update,
  nat_eq, string_eq, option_eq, ◌==◌, String, filter, is_some,
}
use datacraft_backend.Core.Database.{Database}
use datacraft_backend.Core.Exceptions.{
  app, attribute_error, no_drift_to_acknowledge, publish_already_in_progress, publish_run_not_found,
  staging_run_not_eligible, staging_run_not_found, target_type_not_supported,
}
use datacraft_backend.Core.Session.{
  Transaction, Context, gets, one_or_none, modify, commit, new_id, ◌>>=◌, ◌>>◌, or_raise, raise_if,
  pure, call, Result, ok, err,
}
use datacraft_backend.Core.Text.{Text}
use datacraft_backend.Models.Jobs.{JobType}
use datacraft_backend.Models.Publishing.{PublishStatus, TargetType, PublishRun}
use datacraft_backend.Models.Staging.{StagingRun, is_ready}
use datacraft_backend.Models.Trail.{MetaValue, ActorType}
use datacraft_backend.Trail.Audit.{record_event}
use datacraft_backend.Trail.Lineage.{edge, record_edge}
use datacraft_backend.Jobs.Service.{new_job}
use datacraft_backend.Publishing.World.{OptionsRedis}
use datacraft_backend.Publishing.Options.{set_overwrite}

unfoldable pub get : ℕ → Transaction PublishRun
get id = do
  found ← gets (λ db. lookup id db.publish_runs)
  or_raise (app publish_run_not_found) found

-- `_NON_FAILED_STATUSES`
abbrev pub is_non_failed : PublishStatus → Bool
is_non_failed PublishStatus.failed = false
is_non_failed _ = true

abbrev pub is_eligible : StagingRun → Bool
is_eligible r = is_ready r.status && r.is_current

abbrev pub is_existing_for : ℕ → ℕ × PublishRun → Bool
is_existing_for staging_run_id (_, p) = p.staging_run_id == staging_run_id && is_non_failed p.status

abbrev pub existing_runs : ℕ → Table PublishRun → Table PublishRun
existing_runs staging_run_id t = filter (is_existing_for staging_run_id) t

abbrev pub new_publish_run : Context → ℕ → Text → PublishRun
new_publish_run c staging_run_id target_reference = record {
  staging_run_id = staging_run_id;
  job_id = none;
  status = PublishStatus.pending;
  target_type = TargetType.file_export;
  target_reference = target_reference;
  published_record_count = none;
  drift_acknowledged = false;
  drift_acknowledged_by = none;
  drift_acknowledged_at = none;
  error_message = none;
  published_by = some c.actor;
  started_at = none;
  completed_at = none;
  updated_at = none;
}

abbrev pub set_publish_run : ℕ → (PublishRun → PublishRun) → Transaction (Unit {0})
set_publish_run id f = modify λ db. record db { publish_runs = update id f db.publish_runs }

-- `trigger` up to its commit: the publish run and its job
unfoldable pub trigger_rows : Context → ℕ → String → Text → Transaction (ℕ × ℕ)
unfolding record_event record_edge
trigger_rows c staging_run_id target_type target_reference = do
  found ← gets (λ db. lookup staging_run_id db.staging_runs)
  staging_run ← or_raise (app staging_run_not_found) found
  raise_if (not (is_eligible staging_run)) (app staging_run_not_eligible)
  raise_if (not (target_type == "FILE_EXPORT")) (app target_type_not_supported)
  rows ← gets (λ db. existing_runs staging_run_id db.publish_runs)
  existing ← one_or_none rows
  raise_if (is_some existing) (app publish_already_in_progress)
  id ← new_id
  modify (λ db. record db {
    publish_runs = add id (new_publish_run c staging_run_id target_reference) db.publish_runs;
  })
  record_edge (edge "STAGING_RUN" staging_run_id "PUBLISH_RUN" id "PUBLISHED_TO")
  job_id ← new_id
  modify (λ db. record db {
    jobs = add job_id (new_job c JobType.publish "STAGING_RUN" staging_run_id) db.jobs;
  })
  set_publish_run id (λ p. record p { job_id = some job_id })
  record_event (some c.actor) ActorType.user "publish_run.created" "PUBLISH_RUN" id (
      ("staging_run_id", MetaValue.id staging_run_id)
      ∷ ("target_type", MetaValue.tag target_type)
      ∷ [])
  commit
  pure (id, job_id)

-- The option goes to Redis after the commit.
unfoldable pub trigger :
    (redis : OptionsRedis)
    → Context
    → ℕ
    → String
    → Text
    → Bool
    → redis.Store
    → Database
    → Result (ℕ × ℕ) × redis.Store × Database
unfolding trigger_rows set_overwrite
trigger redis c staging_run_id target_type target_reference overwrite options db =
    let (r, db') = call (trigger_rows c staging_run_id target_type target_reference) db in
    elim r [
      | err e ↦ (err e, options, db')
      | ok (id, job_id) ↦ (ok (id, job_id), set_overwrite redis id overwrite options, db')
    ]

abbrev pub acknowledged : Context → PublishRun → PublishRun
acknowledged c p = record p {
  drift_acknowledged = true;
  drift_acknowledged_by = some c.actor;
  drift_acknowledged_at = some c.now;
  updated_at = some c.now;
}

-- `if comment:`
abbrev pub drift_metadata : ℕ → Option Text → List (String × MetaValue)
drift_metadata staging_run_id none = ("staging_run_id", MetaValue.id staging_run_id) ∷ []
drift_metadata staging_run_id (some []) = ("staging_run_id", MetaValue.id staging_run_id) ∷ []
drift_metadata staging_run_id (some (x ∷ xs)) =
    ("staging_run_id", MetaValue.id staging_run_id) ∷ ("comment", MetaValue.text (x ∷ xs)) ∷ []

unfoldable pub acknowledge_drift : Context → ℕ → Option Text → Transaction (Unit {0})
unfolding get record_event
acknowledge_drift c id comment = do
  publish_run ← get id
  found ← gets (λ db. lookup publish_run.staging_run_id db.staging_runs)
  staging_run ← or_raise attribute_error found
  raise_if (not staging_run.has_source_drift) (app no_drift_to_acknowledge)
  set_publish_run id (acknowledged c)
  record_event (some c.actor) ActorType.user "publish_run.drift_acknowledged" "PUBLISH_RUN" id
      (drift_metadata publish_run.staging_run_id comment)
  commit
