-- ===== src/Models/Publishing.antt =====
-- app/db/models/publishing.py
use datacraft_backend.Prelude.{ℕ, String, Bool, Option}
use datacraft_backend.Core.Text.{Text}

pub data PublishStatus : Type 0 where
  pending publishing published failed : PublishStatus

pub data TargetType : Type 0 where
  warehouse_table source_table file_export api : TargetType

pub record PublishRun : Type 0 where
  pub staging_run_id : ℕ
  pub job_id : Option ℕ
  pub status : PublishStatus
  pub target_type : TargetType
  pub target_reference : Text
  pub published_record_count : Option ℕ
  pub drift_acknowledged : Bool
  pub drift_acknowledged_by : Option ℕ
  pub drift_acknowledged_at : Option ℕ
  pub error_message : Option String
  pub published_by : Option ℕ
  pub started_at : Option ℕ
  pub completed_at : Option ℕ
  pub updated_at : Option ℕ

-- the value of the column `status`
abbrev pub publish_status_name : PublishStatus → String
publish_status_name PublishStatus.pending = "PENDING"
publish_status_name PublishStatus.publishing = "PUBLISHING"
publish_status_name PublishStatus.published = "PUBLISHED"
publish_status_name PublishStatus.failed = "FAILED"
