-- ===== src/Worker/Status.antt =====
-- The terminal states of the scan-job state machine (worker/orchestration.py) and the constraints
-- that domains/scans/models.py puts on the rows.
use testing_platform_backend.Core.Enums.{
  ScanClassification, ScanJobStatus, ScanModule, ScanSource, ScanTaskStatus, file, guest,
  not_applicable,
}
use testing_platform_backend.Prelude.{
  All, Bool, Option, String, arith, false, if◌then◌else◌, is_some, not, refl, true, ℕ, ◌&&◌, ◌+◌,
  ◌==◌, ◌||◌, ◌≡◌,
}
use testing_platform_backend.Worker.Models.{ScanJob, ScanTask}

-- `status in TERMINAL_TASK_STATUSES`
abbrev pub task_is_terminal : ScanTaskStatus → Bool
task_is_terminal ScanTaskStatus.queued = false
task_is_terminal ScanTaskStatus.running = false
task_is_terminal _ = true

-- `status in TERMINAL_JOB_STATUSES`
abbrev pub job_is_terminal : ScanJobStatus → Bool
job_is_terminal ScanJobStatus.queued = false
job_is_terminal ScanJobStatus.running = false
job_is_terminal _ = true

abbrev pub task_is_queued : ScanTaskStatus → Bool
task_is_queued ScanTaskStatus.queued = true
task_is_queued _ = false

abbrev pub task_is_completed : ScanTaskStatus → Bool
task_is_completed ScanTaskStatus.completed = true
task_is_completed _ = false

abbrev pub task_is_canceled : ScanTaskStatus → Bool
task_is_canceled ScanTaskStatus.canceled = true
task_is_canceled _ = false

abbrev pub task_is_blocked : ScanTaskStatus → Bool
task_is_blocked ScanTaskStatus.blocked = true
task_is_blocked _ = false

abbrev pub job_is_queued : ScanJobStatus → Bool
job_is_queued ScanJobStatus.queued = true
job_is_queued _ = false

abbrev pub job_is_running : ScanJobStatus → Bool
job_is_running ScanJobStatus.running = true
job_is_running _ = false

abbrev pub is_file : ScanModule → Bool
is_file file = true
is_file _ = false

abbrev pub is_not_applicable : ScanClassification → Bool
is_not_applicable not_applicable = true
is_not_applicable _ = false

-- The CHECK constraints of `scan_task` on its state: `blocked_says_why`, `running_has_start` and
-- `terminal_state_has_finish`.
pub record TaskStateOk (t : ScanTask) : Type 0 where
  pub blocked_says_why : t.status ≡ ScanTaskStatus.blocked → is_some t.status_reason ≡ true
  pub running_has_start : t.status ≡ ScanTaskStatus.running → is_some t.started_at ≡ true
  pub terminal_state_has_finish : task_is_terminal t.status ≡ is_some t.finished_at

abbrev is_guest : ScanSource → Bool
is_guest guest = true
is_guest _ = false

-- `source = 'guest' AND claimed_at IS NULL`
abbrev pub is_unclaimed_guest : ScanJob → Bool
is_unclaimed_guest j = is_guest j.source && not (is_some j.claimed_at)

-- The CHECK constraints of `scan_job` on its state: `running_has_start`, `terminal_state_has_finish`
-- and `purge_deadline_placement`.
pub record JobStateOk (j : ScanJob) : Type 0 where
  pub running_has_start : j.status ≡ ScanJobStatus.running → is_some j.started_at ≡ true
  pub terminal_state_has_finish : job_is_terminal j.status ≡ is_some j.finished_at
  pub purge_deadline_placement :
      is_some j.purge_at ≡ (job_is_terminal j.status || is_unclaimed_guest j)

abbrev indicator : Bool → ℕ
indicator b = if b then 1 else 0

-- `num_nonnulls`
abbrev pub num_nonnulls : Option ℕ → Option String → Option ℕ → ℕ
num_nonnulls a b c = indicator (is_some a) + indicator (is_some b) + indicator (is_some c)

-- The CHECK constraints of `scan_task` on its target: `one_task_target`,
-- `not_applicable_is_file_only` and `file_task_targets_upload`.
pub record TaskTargetOk (t : ScanTask) : Type 0 where
  pub one_task_target : num_nonnulls t.target_asset_id t.target_domain t.file_upload_id ≡ 1
  pub not_applicable_is_file_only : is_file t.scan_module ≡ is_not_applicable t.classification
  pub file_task_targets_upload : is_some t.file_upload_id ≡ is_file t.scan_module

abbrev agree : Bool → Bool → Bool
agree a b = if a then b else not b

-- The same constraints as PostgreSQL tests them on a row that is written.
unfoldable pub target_fits : ScanTask → Bool
target_fits t =
    num_nonnulls t.target_asset_id t.target_domain t.file_upload_id == 1
    && agree (is_file t.scan_module) (is_not_applicable t.classification)
    && agree (is_some t.file_upload_id) (is_file t.scan_module)

pub target_fits-TaskTargetOk : (t : ScanTask) → TaskTargetOk t → target_fits t ≡ true
unfolding target_fits
target_fits-TaskTargetOk t h =
    let one : (num_nonnulls t.target_asset_id t.target_domain t.file_upload_id == 1) ≡ true =
      rw h.one_task_target refl in
    rw
      (
        target_fits,
        one,
        agree_same (is_file t.scan_module) (is_not_applicable t.classification)
            h.not_applicable_is_file_only,
        agree_same (is_some t.file_upload_id) (is_file t.scan_module) h.file_task_targets_upload,
      )
      refl
  where
    agree_same : (a b : Bool) → a ≡ b → agree a b ≡ true
    agree_same a b e = ground arith

-- `one_launch_target` of `scan_job`, and modules that fit the kind of the target.
pub record JobTargetOk (j : ScanJob) : Type 0 where
  pub one_launch_target : num_nonnulls j.asset_id j.target_domain j.file_upload_id ≡ 1
  pub modules_fit : All (λ m. is_file m ≡ is_some j.file_upload_id) j.modules

pub is_queued_of : (st : ScanTaskStatus) → task_is_queued st ≡ true → st ≡ ScanTaskStatus.queued
is_queued_of ScanTaskStatus.queued h = refl
is_queued_of _ h = cc
