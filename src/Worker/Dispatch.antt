-- ===== src/Worker/Dispatch.antt =====
-- `dispatch` of worker/tasks.py, the task `scan.dispatch` on the platform queue.
pub mod Routing
pub mod Fanout
use testing_platform_backend.Core.Enums.{ScanJobStatus, ScanTaskStatus}
use testing_platform_backend.Core.Rls.{no_context, platform}
use testing_platform_backend.Modules.Registry.{RegistryError, Roster, queue_for}
use testing_platform_backend.Prelude.{
  Bool, List, Option, Result, String, [], all, any, err, find, if◌then◌else◌, is_some, length, map,
  modify, none, not, ok, some, ℕ, ◌++◌, ◌+◌, ◌>>=◌, ◌>>◌, ◌||◌, ◌∷◌,
}
use testing_platform_backend.Worker.Db.{Db, External, Session, is_child, is_job}
use testing_platform_backend.Worker.Events.{
  Effect, World, emit, finalize_and_publish, job_event, publish, send_child,
}
use testing_platform_backend.Worker.Matrix.{create_tasks, plan_task_matrix}
use testing_platform_backend.Worker.Models.{ScanJob, ScanTask, task_module_unavailable}
use testing_platform_backend.Worker.Status.{
  job_is_queued, job_is_terminal, target_fits, task_is_queued,
}
use testing_platform_backend.Worker.Transitions.{
  TransitionError, mark_job_running, mark_task_terminal,
}

abbrev pub platform_session : Session
platform_session = record { role = platform; context = no_context }

-- One row of the loop over the tasks: the row after it, and the message to publish.
unfoldable pub route_task :
    Roster → ℕ → ScanTask → Result TransitionError (ScanTask × Option (ℕ × String))
route_task roster now task =
    if not (task_is_queued task.status) || is_some task.cancellation_requested_at
    then ok (task, none)
    else elim (queue_for roster task.test_key) [
      | err _ ↦ do
        blocked_task ←
            mark_task_terminal task ScanTaskStatus.blocked (some task_module_unavailable) now
        ok (blocked_task, none)
      | ok queue ↦ ok (task, some (task.id, queue))
    ]

abbrev pub with_message : Option (ℕ × String) → List (ℕ × String) → List (ℕ × String)
with_message none ms = ms
with_message (some m) ms = m ∷ ms

-- The loop over the children among the rows of the table; the other rows are not touched.
unfoldable pub route_rows :
    (ScanTask → Bool)
    → Roster
    → ℕ
    → List ScanTask
    → Result TransitionError (List ScanTask × List (ℕ × String))
route_rows child roster now [] = ok ([], [])
route_rows child roster now (t ∷ ts) = do
  (t', message) ← if child t then route_task roster now t else ok (t, none)
  (ts', messages) ← route_rows child roster now ts
  ok (t' ∷ ts', with_message message messages)

-- An exception of the matrix: from the roster, or the refusal of a CHECK constraint of `scan_task`
-- when the new rows are flushed.
pub data MatrixError : Type 0 where
  registry_failed : RegistryError → MatrixError
  check_violation : MatrixError

-- the insert of new rows, all or none, which the commit flushes, and the ids that they draw
unfoldable pub insert_rows : List ScanTask → Db → Result MatrixError (List ScanTask × ℕ)
unfolding target_fits
insert_rows rows db =
    if all target_fits rows
    then ok (db.tasks ++ rows, db.drawn + length rows)
    else err check_violation

-- `if not tasks: …`: the rows of the table with the matrix, and the ids drawn
unfoldable pub ensure_matrix :
    External → Roster → ScanJob → ℕ → Db → Result MatrixError (List ScanTask × ℕ)
unfolding plan_task_matrix create_tasks insert_rows
ensure_matrix x roster job now db =
    if any (is_child platform_session job.id) db.tasks
    then ok (db.tasks, db.drawn)
    else elim (plan_task_matrix job.modules roster) [
      | err e ↦ err (registry_failed e)
      | ok specs ↦ insert_rows (create_tasks x.uuid7 db.drawn job now specs) db
    ]

-- How the transaction ends. `dispatch_raised` stands for an exception that escapes, after a rollback.
pub data Dispatched : Type 0 where
  absent already_closed dispatch_raised : Dispatched
  fanned_out : Option ℕ → Bool → List (ℕ × String) → Dispatched

unfoldable pub dispatch_rows : Roster → ScanJob → ℕ → List ScanTask × ℕ → Db → Dispatched × Db
dispatch_rows roster job now (tasks, drawn) db =
    elim (route_rows (is_child platform_session job.id) roster now tasks) [
      | err _ ↦ (dispatch_raised, db)
      | ok (tasks', messages) ↦ (
        fanned_out job.organization_id (job_is_queued job.status) messages,
        record db {
          tasks = tasks';
          drawn = drawn;
          jobs = modify (is_job platform_session job.id) (λ j. mark_job_running j now) db.jobs;
        },
      )
    ]

-- the transaction under the lock on the job
unfoldable pub dispatch_transaction : External → Roster → ℕ → ℕ → Db → Dispatched × Db
unfolding dispatch_rows ensure_matrix
dispatch_transaction x roster job_id now db = elim (find (is_job platform_session job_id) db.jobs) [
  | none ↦ (absent, db)
  | some job ↦
      if job_is_terminal job.status
      then (already_closed, db)
      else elim (ensure_matrix x roster job now db) [
        | err _ ↦ (dispatch_raised, db)
        | ok rows ↦ dispatch_rows roster job now rows db
      ]
]

abbrev running_event : ℕ → ℕ → Bool → List Effect
running_event job_id now announced =
    if announced then publish (job_event job_id ScanJobStatus.running none now) ∷ [] else []

-- what follows the commit: the running event, the messages, and the close of a matrix that is
-- blocked from the start
unfoldable pub after_dispatch : External → ℕ → ℕ → ℕ → World → Dispatched × Db → World × Option ℕ
after_dispatch x job_id now closing w (absent, db) = (w, some 0)
after_dispatch x job_id now closing w (already_closed, db) = (w, some 0)
after_dispatch x job_id now closing w (dispatch_raised, db) = (w, none)
after_dispatch x job_id now closing w (fanned_out org announced messages, db) =
    let sent = map (λ m. send_child m.0 org job_id m.1) messages in
    let published = emit (running_event job_id now announced ++ sent) (record w { db = db }) in
    (finalize_and_publish x platform_session job_id closing none published, some (length messages))

-- The whole task. The second component is what it returns.
unfoldable pub dispatch : External → Roster → ℕ → ℕ → ℕ → World → World × Option ℕ
unfolding after_dispatch
dispatch x roster job_id now closing w =
    after_dispatch x job_id now closing w (dispatch_transaction x roster job_id now w.db)
