-- ===== src/Worker/Transitions.antt =====
-- The transitions of one row (worker/orchestration.py). A `ValueError` is an error value.
pub mod Laws
use testing_platform_backend.Core.Enums.{FindingStatus, ScanJobStatus, ScanTaskStatus, new}
use testing_platform_backend.Modules.Registry.{Failure, other_error, runtime_error, value_error}
use testing_platform_backend.Prelude.{
  Option, Result, err, if◌then◌else◌, is_some, not, ok, require, some, ℕ, ◌&&◌, ◌>>=◌, ◌>>◌,
}
use testing_platform_backend.Worker.Models.{
  Reason, ScanJob, ScanTask, task_engine_error, task_invalid_input, task_timeout,
}
use testing_platform_backend.Worker.Status.{
  job_is_queued, task_is_blocked, task_is_queued, task_is_terminal,
}

pub data TransitionError : Type 0 where
  not_queued not_terminal no_reason already_terminal : TransitionError

unfoldable pub mark_job_running : ScanJob → ℕ → ScanJob
mark_job_running job now =
    if job_is_queued job.status
    then record job { status = ScanJobStatus.running; started_at = some now }
    else job

unfoldable pub mark_task_running : ScanTask → ℕ → Result TransitionError ScanTask
mark_task_running task now =
    if task_is_queued task.status
    then ok (record task { status = ScanTaskStatus.running; started_at = some now })
    else err not_queued

unfoldable pub mark_task_terminal :
    ScanTask → ScanTaskStatus → Option Reason → ℕ → Result TransitionError ScanTask
mark_task_terminal task status reason now = do
  require (task_is_terminal status) not_terminal
  require (not (task_is_blocked status && not (is_some reason))) no_reason
  require (not (task_is_terminal task.status)) already_terminal
  ok (record task { status = status; status_reason = reason; finished_at = some now })

-- `classify_failure`: `runtime_error b` says whether the message holds the timeout marker.
unfoldable pub classify_failure : Failure → Reason
classify_failure value_error = task_invalid_input
classify_failure (runtime_error marked) = if marked then task_timeout else task_engine_error
classify_failure other_error = task_engine_error

unfoldable pub derive_finding_status : FindingStatus
derive_finding_status = new
