-- ===== src/Worker/Run/Record.antt =====
-- The last transaction of `run_module`: one outcome per task, and a result just with `completed`.
use testing_platform_backend.Modules.Findings.{ModuleResult}
use testing_platform_backend.Prelude.{
  Bool-cases, Option-cases, Result, Result-cases, false, find, inl, inr, is_some, none, not, ok,
  refl, some, true, ℕ, ◌&&◌, ◌≡◌, ◌⊎◌,
}
use testing_platform_backend.Worker.Db.{Db, External, Session, is_task}
use testing_platform_backend.Worker.Evolution.{TaskEvolves}
use testing_platform_backend.Worker.Finalize.{persist_result}
use testing_platform_backend.Worker.Models.{Reason, ScanTask}
use testing_platform_backend.Worker.Run.{
  RecordEnd, closed_meanwhile, final_outcome, put_task, record_outcome, record_row, recorded,
  store_outcome, vanished,
}
use testing_platform_backend.Worker.Status.{task_is_blocked, task_is_terminal}
use testing_platform_backend.Worker.Transitions.{mark_task_terminal}
use testing_platform_backend.Worker.Transitions.Laws.{
  mark_task_terminal-TaskEvolves, mark_task_terminal_iff,
}

-- the reason of an end that is not `completed`
abbrev pub finished_row : ScanTask → Result Reason ModuleResult → ℕ → ScanTask
finished_row t outcome finished =
    let (st, reason) = final_outcome t outcome in
    record t { status = st; status_reason = reason; finished_at = some finished }

final_outcome-terminal :
    (t : ScanTask) (outcome : Result Reason ModuleResult)
    → (task_is_terminal (final_outcome t outcome).0 ≡ true)
      × (not (
            task_is_blocked (final_outcome t outcome).0
            && not (is_some (final_outcome t outcome).1))
          ≡ true)
final_outcome-terminal t outcome = elim (Bool-cases (is_some t.cancellation_requested_at)) [
  | inl y ↦ rw y (refl, refl)
  | inr n ↦ elim (Result-cases outcome) [
    | inl (e, f) ↦ rw (n, f) (refl, refl)
    | inr (a, f) ↦ rw (n, f) (refl, refl)
  ]
]

module _ (s : Session) (task_id : ℕ) (x : External) (outcome : Result Reason ModuleResult)
    (finished : ℕ) (db : Db) where
  -- the state after the outcome of the row `t` is recorded
  abbrev pub recorded_db : ScanTask → Db
  recorded_db t =
      put_task s task_id (finished_row t outcome finished) (store_outcome x t outcome finished db)

  abbrev pub Recording : RecordEnd × Db → Type 0
  Recording res =
      ((find (is_task s task_id) db.tasks ≡ none) × (res ≡ (vanished, db)))
      ⊎ ((t : ScanTask) × (find (is_task s task_id) db.tasks ≡ some t)
          × (task_is_terminal t.status ≡ true)
          × (res ≡ (closed_meanwhile t.status, db)))
      ⊎ ((t : ScanTask) × (find (is_task s task_id) db.tasks ≡ some t)
          × (task_is_terminal t.status ≡ false)
          × (res
              ≡ (recorded (final_outcome t outcome).0 (final_outcome t outcome).1, recorded_db t)))

  -- Recording an outcome never raises: the row is gone, or it was closed meanwhile and nothing is
  -- written, or it takes the one outcome of the run.
  pub record_outcome-Recording : Recording (record_outcome s task_id x outcome finished db)
  unfolding record_outcome record_row
  record_outcome-Recording = elim (Option-cases (find (is_task s task_id) db.tasks)) [
    | inl n ↦ inl (n, rw (record_outcome, n) refl)
    | inr (t, f) ↦ elim (Bool-cases (task_is_terminal t.status)) [
      | inl y ↦ inr (inl (t, f, y, rw (record_outcome, f, record_row, y) refl))
      | inr live ↦
          let (a, b) = final_outcome-terminal t outcome in
          let e : mark_task_terminal t (final_outcome t outcome).0 (final_outcome t outcome).1
                finished
              ≡ ok (finished_row t outcome finished) =
            (mark_task_terminal_iff t (finished_row t outcome finished) (final_outcome t outcome).0
                (final_outcome t outcome).1 finished).1
              (a, b, live, refl) in
          inr (inr (t, f, live, rw (record_outcome, f, record_row, live, e) refl))
    ]
  ]

  pub store_outcome-keeps :
      (t : ScanTask)
      → ((store_outcome x t outcome finished db).tasks ≡ db.tasks)
        × ((store_outcome x t outcome finished db).jobs ≡ db.jobs)
  unfolding persist_result
  store_outcome-keeps t = elim (Bool-cases (is_some t.cancellation_requested_at)) [
    | inl y ↦ rw y (refl, refl)
    | inr n ↦ elim (Result-cases outcome) [
      | inl (e, f) ↦ rw (n, f) (refl, refl)
      | inr (a, f) ↦ rw (n, f) (refl, refl)
    ]
  ]

  pub finished_row-TaskEvolves :
      (t : ScanTask)
      → task_is_terminal t.status ≡ false
      → TaskEvolves t (finished_row t outcome finished)
  finished_row-TaskEvolves t live =
      let (a, b) = final_outcome-terminal t outcome in
      mark_task_terminal-TaskEvolves t (finished_row t outcome finished) (final_outcome t outcome).0
        (final_outcome t outcome).1 finished
        ((mark_task_terminal_iff t (finished_row t outcome finished) (final_outcome t outcome).0
            (final_outcome t outcome).1 finished).1
          (a, b, live, refl))
