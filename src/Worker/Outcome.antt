-- ===== src/Worker/Outcome.antt =====
-- `derive_job_outcome` of worker/orchestration.py: the terminal state of a job from the states of
-- its children.
pub mod Laws
use testing_platform_backend.Core.Enums.{ScanJobStatus, ScanTaskStatus}
use testing_platform_backend.Prelude.{
  List, Option, any, count, if◌then◌else◌, length, none, not, some, ◌==◌, ◌||◌,
}
use testing_platform_backend.Worker.Models.{
  Reason, job_canceled, job_no_usable_results, job_tasks_incomplete,
}
use testing_platform_backend.Worker.Status.{task_is_canceled, task_is_completed, task_is_terminal}

abbrev pub Outcome : Type 0
Outcome = ScanJobStatus × Option Reason

-- `reason_override or default`
abbrev pub override : Option Reason → Reason → Option Reason
override none default = some default
override (some r) _ = some r

unfoldable pub derive_job_outcome : List ScanTaskStatus → Option Reason → Option Outcome
derive_job_outcome statuses reason_override =
    if length statuses == 0 || any (λ s. not (task_is_terminal s)) statuses
    then none
    else let completed = count task_is_completed statuses in
      if completed == length statuses
      then some (ScanJobStatus.completed, reason_override)
      else if not (completed == 0)
      then some (ScanJobStatus.partial, override reason_override job_tasks_incomplete)
      else if any task_is_canceled statuses
      then some (ScanJobStatus.canceled, override reason_override job_canceled)
      else some (ScanJobStatus.failed, override reason_override job_no_usable_results)
