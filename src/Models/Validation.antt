-- ===== src/Models/Validation.antt =====
-- app/db/models/validation.py
use datacraft_backend.Prelude.{ℕ, String, Bool, true, false, Option}
use datacraft_backend.Core.Text.{Text}

-- `validation_runs.status`, and `profile_runs.status`, which lacks CREATED
pub data RunStatus : Type 0 where
  created queued running completed failed cancelled : RunStatus

pub record ValidationRun : Type 0 where
  pub dataset_id : ℕ
  pub job_id : Option ℕ
  pub status : RunStatus
  pub error_message : Option String
  pub completed_at : Option ℕ

pub record ValidationResult : Type 0 where
  pub validation_run_id : ℕ
  pub record_ref : Text
  pub row_index : ℕ

pub record ValidationFailure : Type 0 where
  pub validation_result_id : ℕ
  pub validation_run_id : ℕ
  pub rule_assignment_id : ℕ
  pub column_id : Option ℕ
  pub severity : String
  pub failed_value : Option Text

abbrev pub is_completed : RunStatus → Bool
is_completed RunStatus.completed = true
is_completed _ = false

-- `status in ("QUEUED", "RUNNING")`
abbrev pub is_in_flight : RunStatus → Bool
is_in_flight RunStatus.queued = true
is_in_flight RunStatus.running = true
is_in_flight _ = false

abbrev pub is_queued : RunStatus → Bool
is_queued RunStatus.queued = true
is_queued _ = false
