-- ===== src/Models/Staging.antt =====
-- app/db/models/staging.py
use datacraft_backend.Prelude.{ℕ, Bool, true, false, Option}
use datacraft_backend.Core.Text.{Text}

pub data StagingStatus : Type 0 where
  not_started building ready failed : StagingStatus

pub record StagingRun : Type 0 where
  pub review_run_id : ℕ
  pub dataset_id : ℕ
  pub attempt_number : ℕ
  pub is_current : Bool
  pub status : StagingStatus
  pub record_count : ℕ
  pub field_count : ℕ
  pub has_source_drift : Bool
  pub error_message : Option Text
  pub created_by : Option ℕ
  pub started_at : Option ℕ
  pub completed_at : Option ℕ
  pub updated_at : Option ℕ

-- `row_snapshot` is the JSON text of the object.
pub record StagingRecord : Type 0 where
  pub staging_run_id : ℕ
  pub record_ref : Text
  pub row_snapshot : Text

abbrev pub is_ready : StagingStatus → Bool
is_ready StagingStatus.ready = true
is_ready _ = false
