-- ===== src/Examples/Pipeline.antt =====
-- The theorems on the pipeline at concrete rows.
use testing_platform_backend.Examples.{
  delivery, externals, failed_db, failed_task, queued_task, running_db, running_job, world,
}
use testing_platform_backend.Prelude.{find, refl, some, ◌==◌, ◌≡◌}
use testing_platform_backend.Worker.Module.{missing, run_module}
use testing_platform_backend.Worker.Module.Hint.{run_module-wrong_org}
use testing_platform_backend.Worker.Reap.{reap_transaction}
use testing_platform_backend.Worker.Status.{JobStateOk, TaskStateOk}
use testing_platform_backend.Worker.Steps.{Steps, and_then, at_rest, sweeping}
use testing_platform_backend.Worker.Steps.Handlers.{run_module-Steps}
use testing_platform_backend.Worker.Steps.Invariants.{DbOk, Steps-DbOk, Steps-task_frozen}

queued_task-TaskStateOk : TaskStateOk queued_task
queued_task-TaskStateOk = record {
  blocked_says_why = λ q. cc;
  running_has_start = λ q. cc;
  terminal_state_has_finish = refl;
}

running_job-JobStateOk : JobStateOk running_job
running_job-JobStateOk = record {
  running_has_start = λ q. refl;
  terminal_state_has_finish = refl;
  purge_deadline_placement = refl;
}

running_db-DbOk : DbOk running_db
running_db-DbOk = record {
  tasks_ok = (queued_task-TaskStateOk, tt);
  jobs_ok = (running_job-JobStateOk, tt);
  results_owned = tt;
}

-- the run of one delivery: claim, record, close
abbrev delivered :
    Steps externals running_db (run_module externals (delivery (some 7)) 2 (world running_db)).1.db
delivered = run_module-Steps externals (delivery (some 7)) 2 (world running_db) (λ v. at_rest v.db)

Steps-DbOk_example : DbOk (run_module externals (delivery (some 7)) 2 (world running_db)).1.db
Steps-DbOk_example =
    Steps-DbOk externals running_db
      (run_module externals (delivery (some 7)) 2 (world running_db)).1.db delivered running_db-DbOk

Steps-task_frozen_example :
    find (λ u. u.id == 2) (reap_transaction 1 40 failed_db).1.tasks ≡ some failed_task
Steps-task_frozen_example =
    Steps-task_frozen externals failed_db (reap_transaction 1 40 failed_db).1 2 failed_task
      (and_then failed_db (reap_transaction 1 40 failed_db).1 (reap_transaction 1 40 failed_db).1
        (sweeping 1 40 failed_db) (at_rest (reap_transaction 1 40 failed_db).1))
      refl refl

run_module-wrong_org_example :
    run_module externals (delivery (some 8)) 2 (world running_db) ≡ (missing, world running_db)
run_module-wrong_org_example =
    run_module-wrong_org externals (delivery (some 8)) 2 (world running_db) 8 refl refl
      ((λ e h. cc), tt)
