-- ===== src/Worker/Models.antt =====
-- The rows that the pipeline reads and writes (domains/scans/models.py), the vocabulary of
-- `status_reason` (worker/orchestration.py), and the constraints of the tables.
-- An id is a number, an instant is a number of seconds.
use testing_platform_backend.Core.Enums.{
  ScanClassification, ScanJobStatus, ScanModule, ScanSource, ScanTaskStatus,
}
use testing_platform_backend.Prelude.{List, Option, String, ℕ}

pub data Reason : Type 0 where
  task_timeout task_engine_error task_invalid_input task_module_unavailable : Reason
  task_misrouted task_canceled : Reason
  job_timeout job_canceled job_no_usable_results job_tasks_incomplete : Reason

abbrev pub reason_text : Reason → String
reason_text task_timeout = "task.timeout"
reason_text task_engine_error = "task.engine_error"
reason_text task_invalid_input = "task.invalid_input"
reason_text task_module_unavailable = "task.module_unavailable"
reason_text task_misrouted = "task.misrouted"
reason_text task_canceled = "task.canceled"
reason_text job_timeout = "job.timeout"
reason_text job_canceled = "job.canceled"
reason_text job_no_usable_results = "job.no_usable_results"
reason_text job_tasks_incomplete = "job.tasks_incomplete"

-- A JSON object, which the pipeline only copies.
abbrev pub Options : Type 0
Options = List (String × String)

pub record ScanJob : Type 0 where
  pub id : ℕ
  pub organization_id : Option ℕ
  pub source : ScanSource
  pub asset_id : Option ℕ
  pub target_domain : Option String
  pub file_upload_id : Option ℕ
  pub modules : List ScanModule
  pub module_configuration : List (String × Options)
  pub status : ScanJobStatus
  pub status_reason : Option Reason
  pub claimed_at : Option ℕ
  pub purge_at : Option ℕ
  pub created_at : ℕ
  pub started_at : Option ℕ
  pub finished_at : Option ℕ

pub record ScanTask : Type 0 where
  pub id : ℕ
  pub organization_id : Option ℕ
  pub scan_job_id : ℕ
  pub scan_module : ScanModule
  pub test_key : String
  pub test_version : String
  pub classification : ScanClassification
  pub target_asset_id : Option ℕ
  pub target_domain : Option String
  pub file_upload_id : Option ℕ
  pub configuration : Options
  pub status : ScanTaskStatus
  pub status_reason : Option Reason
  pub cancellation_requested_at : Option ℕ
  pub created_at : ℕ
  pub started_at : Option ℕ
  pub finished_at : Option ℕ
