-- ===== src/Worker/Finalize.antt =====
-- `finalize_job_if_done` and `persist_result` of worker/orchestration.py.
pub mod Laws
use testing_platform_backend.Core.Enums.{ScanTaskStatus}
use testing_platform_backend.Modules.Findings.{ModuleResult}
use testing_platform_backend.Modules.Rows.{FindingRow, finding_rows, scan_result_row}
use testing_platform_backend.Prelude.{
  List, Option, [], find, if◌then◌else◌, keep, length, map, modify, none, or_else, some, ℕ, ◌++◌,
  ◌+◌, ◌∷◌,
}
use testing_platform_backend.Worker.Db.{Db, External, Session, StoredFinding, is_child, is_job}
use testing_platform_backend.Worker.Models.{Reason, ScanJob, ScanTask}
use testing_platform_backend.Worker.Outcome.{Outcome, derive_job_outcome}
use testing_platform_backend.Worker.Status.{job_is_terminal}
use testing_platform_backend.Worker.Transitions.{derive_finding_status}

abbrev thirty_days : ℕ
thirty_days = 2592000

-- the write of the terminal state
unfoldable pub close_job : External → ℕ → Outcome → ScanJob → ScanJob
close_job x now (status, reason) j = record j {
  status = status;
  status_reason = reason;
  finished_at = some now;
  purge_at = some (or_else j.purge_at (x.twelve_months_after now + thirty_days));
}

-- the statuses of the children that the transaction selects
unfoldable pub child_statuses : Session → ℕ → Db → List ScanTaskStatus
child_statuses s job_id db = map (λ t. t.status) (keep (is_child s job_id) db.tasks)

unfoldable pub finalize_job_if_done :
    External → Session → ℕ → ℕ → Option Reason → Db → Option Outcome × Db
unfolding close_job child_statuses
finalize_job_if_done x s job_id now reason_override db = elim (find (is_job s job_id) db.jobs) [
  | none ↦ (none, db)
  | some job ↦
      if job_is_terminal job.status
      then (none, db)
      else elim (derive_job_outcome (child_statuses s job_id db) reason_override) [
        | none ↦ (none, db)
        | some outcome ↦ (
          some outcome,
          record db { jobs = modify (is_job s job_id) (close_job x now outcome) db.jobs },
        )
      ]
]

-- the findings of one result, each under a fresh id
unfoldable pub store_findings : External → ℕ → List FindingRow → List StoredFinding
unfolding derive_finding_status
store_findings x n [] = []
store_findings x n (f ∷ fs) =
    record { id = x.uuid7 n; status = derive_finding_status; row = f } ∷ store_findings x (n + 1) fs

unfoldable pub persist_result : External → ScanTask → ModuleResult → ℕ → Db → Db
unfolding scan_result_row finding_rows store_findings
persist_result x task result completed_at db =
    let result_id = x.uuid7 db.drawn in
    let rows = finding_rows x.dumps result result_id task.organization_id in
    record db {
      results =
          db.results
          ++ record {
            id = result_id;
            row = scan_result_row result task.id completed_at task.organization_id;
          }
            ∷ [];
      findings = db.findings ++ store_findings x (db.drawn + 1) rows;
      drawn = db.drawn + 1 + length rows;
    }
