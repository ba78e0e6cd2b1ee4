-- ===== src/Worker/Reap.antt =====
-- `reap`, `_reap_stuck_job` and `heartbeat` of worker/tasks.py, the sweeps of the beat.
pub mod Laws
use testing_platform_backend.Core.Enums.{ScanTaskStatus}
use testing_platform_backend.Prelude.{
  Bool, List, Option, Result, [], any, err, false, if◌then◌else◌, keep, length, ltb, map, none, not,
  ok, some, ℕ, ◌&&◌, ◌++◌, ◌+◌, ◌==◌, ◌>>=◌, ◌>>◌, ◌||◌, ◌∷◌,
}
use testing_platform_backend.Worker.Db.{Db, External}
use testing_platform_backend.Worker.Dispatch.{platform_session}
use testing_platform_backend.Worker.Events.{
  Effect, World, emit, finalize_and_publish, heartbeat_event, publish, revoke, send_dispatch,
  task_event,
}
use testing_platform_backend.Worker.Models.{Reason, ScanJob, ScanTask, job_timeout}
use testing_platform_backend.Worker.Status.{
  job_is_queued, job_is_running, task_is_queued, task_is_terminal,
}
use testing_platform_backend.Worker.Transitions.{TransitionError, mark_task_terminal}

-- What a sweep reads of the clock: the two limits, and the instants at which the `n`th stuck job is
-- swept and then closed.
pub record Sweep : Type 0 where
  pub clock : ℕ → ℕ × ℕ
  pub stale_before : ℕ
  pub timeout_before : ℕ

-- `column < limit`, which a NULL fails
abbrev pub is_before : Option ℕ → ℕ → Bool
is_before none limit = false
is_before (some t) limit = ltb t limit

abbrev pub undelivered_child : ℕ → ScanJob → ScanTask → Bool
undelivered_child stale_before j t =
    t.scan_job_id == j.id && task_is_queued t.status && ltb t.created_at stale_before

unfoldable pub is_stranded : Sweep → Db → ScanJob → Bool
is_stranded w db j =
    (job_is_queued j.status && ltb j.created_at w.stale_before)
    || (job_is_running j.status && any (undelivered_child w.stale_before j) db.tasks)

unfoldable pub is_stuck : Sweep → ScanJob → Bool
is_stuck w j = job_is_running j.status && is_before j.started_at w.timeout_before

-- The rows of the table after the sweep of one job, and the ids of the tasks that it failed.
unfoldable pub sweep_rows : ℕ → ℕ → List ScanTask → Result TransitionError (List ScanTask × List ℕ)
sweep_rows job_id swept [] = ok ([], [])
sweep_rows job_id swept (t ∷ ts) =
    if t.scan_job_id == job_id && not (task_is_terminal t.status)
    then (do
      t' ← mark_task_terminal t ScanTaskStatus.failed (some job_timeout) swept
      (ts', ids) ← sweep_rows job_id swept ts
      ok (t' ∷ ts', t.id ∷ ids))
    else (do (ts', ids) ← sweep_rows job_id swept ts; ok (t ∷ ts', ids))

-- the transaction of `_reap_stuck_job`; `none` when an exception escapes it
unfoldable pub reap_transaction : ℕ → ℕ → Db → Option (List ℕ) × Db
unfolding sweep_rows
reap_transaction job_id swept db = elim (sweep_rows job_id swept db.tasks) [
  | err _ ↦ (none, db)
  | ok (tasks, ids) ↦ (some ids, record db { tasks = tasks })
]

abbrev pub timed_out : ℕ → ℕ → ℕ → List Effect
timed_out job_id swept id =
    revoke id ∷ publish (task_event job_id id ScanTaskStatus.failed (some job_timeout) swept) ∷ []

abbrev pub timeout_effects : ℕ → ℕ → List ℕ → List Effect
timeout_effects job_id swept [] = []
timeout_effects job_id swept (id ∷ ids) =
    timed_out job_id swept id ++ timeout_effects job_id swept ids

-- `job.timeout` only when this sweep cut work short
abbrev pub timeout_override : List ℕ → Option Reason
timeout_override [] = none
timeout_override (_ ∷ _) = some job_timeout

-- what follows the transaction: the effects of the timeouts, and the close of the job
unfoldable pub after_sweep : External → ℕ → ℕ → ℕ → World → Option (List ℕ) × Db → World
after_sweep x job_id swept closing w (none, db) = w
after_sweep x job_id swept closing w (some ids, db) =
    finalize_and_publish x platform_session job_id closing (timeout_override ids)
      (emit (timeout_effects job_id swept ids) (record w { db = db }))

unfoldable pub reap_stuck_job : External → ℕ → ℕ → ℕ → World → World
unfolding after_sweep
reap_stuck_job x job_id swept closing w =
    after_sweep x job_id swept closing w (reap_transaction job_id swept w.db)

-- The loop over the stuck jobs, from the `n`th: an exception of one is logged and the sweep goes on.
unfoldable pub reap_all : External → (ℕ → ℕ × ℕ) → ℕ → List ScanJob → World → World
unfolding reap_stuck_job
reap_all x clock n [] w = w
reap_all x clock n (j ∷ js) w =
    reap_all x clock (n + 1) js (reap_stuck_job x j.id (clock n).0 (clock n).1 w)

-- `reap`, with the number of jobs sent again and of jobs timed out
unfoldable pub reap : External → Sweep → World → World × ℕ × ℕ
unfolding is_stranded is_stuck reap_all
reap x sweep w =
    let stranded = keep (is_stranded sweep w.db) w.db.jobs in
    let stuck = keep (is_stuck sweep) w.db.jobs in
    (
      reap_all x sweep.clock 0 stuck (emit (map (λ j. send_dispatch j.id) stranded) w),
      length stranded,
      length stuck,
    )

-- `heartbeat`
unfoldable heartbeat : ℕ → World → World × ℕ
heartbeat now w =
    let running_jobs = keep (λ j. job_is_running j.status) w.db.jobs in
    (emit (map (λ j. publish (heartbeat_event j.id now)) running_jobs) w, length running_jobs)
