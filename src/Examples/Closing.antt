-- ===== src/Examples/Closing.antt =====
-- The theorems on one transaction at concrete rows.
use testing_platform_backend.Core.Enums.{ScanJobStatus, ScanTaskStatus}
use testing_platform_backend.Core.Rls.{reaches}
use testing_platform_backend.Examples.{
  chain_test, dnssec_entry, dnssec_module, empty_result, externals, failed_db, one_module,
  queued_job, queued_task, running_db, running_job, tables, worker_session, world,
}
use testing_platform_backend.Modules.Catalog.{tests_for_module}
use testing_platform_backend.Modules.Registry.{by_test_key}
use testing_platform_backend.Prelude.{
  All, Option, [], false, find, none, ok, or_else, refl, some, true, ◌+◌, ◌∷◌, ◌≡◌, ◌⊎◌,
}
use testing_platform_backend.Worker.Db.{Db, hint_session, is_job, is_task}
use testing_platform_backend.Worker.Dispatch.{platform_session}
use testing_platform_backend.Worker.Events.{end_event, finalize_and_publish, job_event, publish}
use testing_platform_backend.Worker.Events.Committed.{finalize_and_publish_lem}
use testing_platform_backend.Worker.Finalize.{child_statuses, finalize_job_if_done}
use testing_platform_backend.Worker.Finalize.Laws.{closed_db, finalize_job_if_done_lem}
use testing_platform_backend.Worker.Matrix.{
  create_tasks, plan_entries, plan_entry, plan_task_matrix, ready_spec,
}
use testing_platform_backend.Worker.Matrix.Rows.{create_tasks-plan_task_matrix}
use testing_platform_backend.Worker.Models.{Reason, ScanJob, ScanTask, job_no_usable_results}
use testing_platform_backend.Worker.Outcome.{Outcome, derive_job_outcome}
use testing_platform_backend.Worker.Outcome.Laws.{Verdict}
use testing_platform_backend.Worker.Reap.{reap_stuck_job}
use testing_platform_backend.Worker.Reap.Laws.{reap_stuck_job-closes}
use testing_platform_backend.Worker.Run.{Claimed, claim, duplicate, gate, record_outcome, resolve}
use testing_platform_backend.Worker.Run.Gate.{claim-claimed, claim-once}
use testing_platform_backend.Worker.Run.Record.{recorded_db}
use testing_platform_backend.Worker.Run.Results.{Ended, record_outcome-Ended}
use testing_platform_backend.Worker.Status.{TaskTargetOk, job_is_terminal, task_is_terminal}
use testing_platform_backend.Worker.Transitions.{mark_task_running, mark_task_terminal}

abbrev running_task : ScanTask
running_task = record queued_task { status = ScanTaskStatus.running; started_at = some 20 }

abbrev claimed_task : Claimed
claimed_task = resolve worker_session 2 dnssec_module queued_task running_db

abbrev claimed_db : Db
claimed_db = tables (running_job ∷ []) (running_task ∷ [])

claim-claimed_example :
    (t : ScanTask) × (find (is_task worker_session 2) running_db.tasks ≡ some t)
    × (t.status ≡ ScanTaskStatus.queued)
unfolding claim reaches hint_session gate by_test_key mark_task_running
claim-claimed_example =
    let (t, k) =
      claim-claimed worker_session 2 one_module "non-intrusive-scan" 20 running_db claimed_task
        claimed_db refl in
    (t, k.0, k.1)

claim-once_example :
    claim worker_session 2 [] "file-analysis" 25 claimed_db
    ≡ (duplicate ScanTaskStatus.running, claimed_db)
unfolding claim reaches hint_session gate by_test_key mark_task_running
claim-once_example =
    claim-once worker_session 2 one_module "non-intrusive-scan" 20 running_db claimed_task
      claimed_db [] "file-analysis" 25 refl

abbrev recorded_end_db : Db
recorded_end_db =
    recorded_db worker_session 2 externals (ok empty_result) 30 claimed_db running_task

record_outcome-Ended_example :
    (t : ScanTask) × (find (is_task worker_session 2) claimed_db.tasks ≡ some t)
    × (task_is_terminal t.status ≡ false)
    × Ended worker_session 2 externals
        (ok empty_result)
        30
        claimed_db
        ScanTaskStatus.completed
        none
        t
        recorded_end_db
    × (find (is_task worker_session 2) recorded_end_db.tasks
        ≡ some (record t {
          status = ScanTaskStatus.completed;
          status_reason = none;
          finished_at = some 30;
        }))
unfolding record_outcome reaches hint_session mark_task_terminal
record_outcome-Ended_example =
    record_outcome-Ended worker_session 2 externals (ok empty_result) 30 claimed_db
      ScanTaskStatus.completed none recorded_end_db refl

abbrev failed_outcome : Outcome
failed_outcome = (ScanJobStatus.failed, some job_no_usable_results)

abbrev closed_failed_db : Db
closed_failed_db = closed_db externals platform_session 1 50 none failed_db failed_outcome

finalize_job_if_done_lem_example :
    (job : ScanJob) × (find (is_job platform_session 1) failed_db.jobs ≡ some job)
    × (job_is_terminal job.status ≡ false)
    × All (λ st. task_is_terminal st ≡ true) (child_statuses platform_session 1 failed_db)
    × Verdict ScanJobStatus.failed (child_statuses platform_session 1 failed_db)
    × (closed_failed_db.tasks ≡ failed_db.tasks)
    × (find (is_job platform_session 1) closed_failed_db.jobs
        ≡ some (record job {
          status = ScanJobStatus.failed;
          status_reason = some job_no_usable_results;
          finished_at = some 50;
          purge_at = some (or_else job.purge_at (50 + 31536000 + 2592000));
        }))
unfolding finalize_job_if_done reaches derive_job_outcome
finalize_job_if_done_lem_example =
    finalize_job_if_done_lem externals platform_session 1 50 none failed_db ScanJobStatus.failed
      (some job_no_usable_results) closed_failed_db refl

finalize_and_publish_lem_example :
    (finalize_and_publish externals platform_session 1 50 none (world failed_db) ≡ world failed_db)
    ⊎ ((row : ScanJob) × (st : ScanJobStatus) × (r : Option Reason) × (find
            (is_job platform_session 1)
            (finalize_and_publish externals platform_session 1 50 none (world failed_db)).db.jobs
          ≡ some row)
        × (row.status ≡ st)
        × (row.status_reason ≡ r)
        × (row.finished_at ≡ some 50)
        × ((finalize_and_publish externals platform_session 1 50 none (world failed_db)).log
            ≡ publish (job_event 1 st r 50) ∷ publish (end_event 1 st 50) ∷ []))
finalize_and_publish_lem_example =
    finalize_and_publish_lem externals platform_session 1 50 none (world failed_db)

reap_stuck_job-closes_example :
    (row : ScanJob) × (find
        (is_job platform_session 1)
        (reap_stuck_job externals 1 9000 9001 (world claimed_db)).db.jobs
      ≡ some row)
    × (job_is_terminal row.status ≡ true)
unfolding reaches
reap_stuck_job-closes_example =
    reap_stuck_job-closes externals 1 9000 9001 (world claimed_db) running_job refl refl refl

create_tasks-plan_task_matrix_example : All TaskTargetOk (
    create_tasks externals.uuid7 0 queued_job 12
      (ready_spec dnssec_entry dnssec_module chain_test ∷ []))
unfolding plan_task_matrix plan_entries tests_for_module plan_entry by_test_key
create_tasks-plan_task_matrix_example =
    create_tasks-plan_task_matrix externals.uuid7 0 queued_job 12 one_module
      (ready_spec dnssec_entry dnssec_module chain_test ∷ [])
      (record { one_launch_target = refl; modules_fit = (refl, tt) }) refl
