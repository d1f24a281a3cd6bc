-- ===== src/Models/Jobs.antt =====
-- app/db/models/jobs.py and app/db/models/profiling.py
use datacraft_backend.Prelude.{ℕ, String, Bool, true, false, Option}
use datacraft_backend.Models.Validation.{RunStatus}

pub data JobStatus : Type 0 where
  queued running completed failed cancelled : JobStatus

pub data JobType : Type 0 where
  profile_run validation_run staging_build publish export discovery_run ai_suggestion : JobType

pub record Job : Type 0 where
  pub job_type : JobType
  pub entity_type : String
  pub entity_id : ℕ
  pub status : JobStatus
  pub progress_percentage : Option ℕ
  pub error_message : Option String
  pub result : Option String
  pub started_at : Option ℕ
  pub completed_at : Option ℕ
  pub created_by : Option ℕ
  pub updated_at : Option ℕ

pub record ProfileRun : Type 0 where
  pub dataset_id : ℕ
  pub job_id : Option ℕ
  pub status : RunStatus
  pub error_message : Option String
  pub completed_at : Option ℕ

-- `status in ("QUEUED", "RUNNING")`
abbrev pub is_active : JobStatus → Bool
is_active JobStatus.queued = true
is_active JobStatus.running = true
is_active _ = false

abbrev pub is_queued : JobStatus → Bool
is_queued JobStatus.queued = true
is_queued _ = false

abbrev pub is_running : JobStatus → Bool
is_running JobStatus.running = true
is_running _ = false

-- the value of the column `job_type`
abbrev pub job_type_name : JobType → String
job_type_name JobType.profile_run = "PROFILE_RUN"
job_type_name JobType.validation_run = "VALIDATION_RUN"
job_type_name JobType.staging_build = "STAGING_BUILD"
job_type_name JobType.publish = "PUBLISH"
job_type_name JobType.export = "EXPORT"
job_type_name JobType.discovery_run = "DISCOVERY_RUN"
job_type_name JobType.ai_suggestion = "AI_SUGGESTION"
