-- ===== src/Worker/Dispatch/Fanout.antt =====
-- The fan-out transaction of a job: how it ends, and that it creates one matrix.
use testing_platform_backend.Modules.Registry.{Roster}
use testing_platform_backend.Prelude.{
  All-all, All-map, Bool-cases, Grows-append, Grows-modify, Grows-refl, Grows-trans, List,
  Option-cases, String, all, any, err, false, find, if◌then◌else◌, inl, inr, length, modify, none,
  ok, refl, some, subst, sym, true, ℕ, ◌++◌, ◌+◌, ◌≡◌, ◌⊎◌,
}
use testing_platform_backend.Worker.Db.{Db, External, is_child, is_job}
use testing_platform_backend.Worker.Dispatch.{
  Dispatched, absent, already_closed, check_violation, dispatch_raised, dispatch_rows,
  dispatch_transaction, ensure_matrix, fanned_out, insert_rows, platform_session,
}
use testing_platform_backend.Worker.Dispatch.Routing.{SentAll, route_rows-Routed, task_ids}
use testing_platform_backend.Worker.Evolution.{
  DbEvolves, DbEvolves-refl, JobEvolves, JobEvolves-refl, TaskEvolves, TaskEvolves-refl,
  TaskEvolves-trans, Tasks,
}
use testing_platform_backend.Worker.Matrix.{TaskSpec, create_tasks, plan_task_matrix}
use testing_platform_backend.Worker.Matrix.Planning.{plan_task_matrix-Planned}
use testing_platform_backend.Worker.Matrix.Rows.{
  create_tasks-TaskStateOk, create_tasks-plan_task_matrix,
}
use testing_platform_backend.Worker.Models.{ScanJob, ScanTask}
use testing_platform_backend.Worker.Status.{
  JobStateOk, JobTargetOk, TaskStateOk, TaskTargetOk, job_is_queued, job_is_terminal, target_fits,
  target_fits-TaskTargetOk,
}
use testing_platform_backend.Worker.Transitions.{mark_job_running}
use testing_platform_backend.Worker.Transitions.Laws.{mark_job_running-JobEvolves}

-- The matrix of a job without children: its planned rows are new, and each meets the constraints on
-- targets.
abbrev pub Created : External → Roster → ScanJob → ℕ → Db → List ScanTask → Type 0
Created x r job now db rows =
    (specs : List TaskSpec) × (plan_task_matrix job.modules r ≡ ok specs)
    × (all target_fits (create_tasks x.uuid7 db.drawn job now specs) ≡ true)
    × (rows ≡ db.tasks ++ create_tasks x.uuid7 db.drawn job now specs)

-- The rows that the loop goes over: those of an earlier dispatch, or the planned matrix.
abbrev pub Matrix : External → Roster → ScanJob → ℕ → Db → List ScanTask → Type 0
Matrix x r job now db rows =
    if any (is_child platform_session job.id) db.tasks
    then rows ≡ db.tasks
    else Created x r job now db rows

-- The planned rows of a job without children break a constraint on targets, so that the job does
-- not have one target that fits its modules.
abbrev pub Refused : External → Roster → ScanJob → ℕ → Db → Type 0
Refused x r job now db =
    (any (is_child platform_session job.id) db.tasks ≡ false)
    × ((specs : List TaskSpec) × (plan_task_matrix job.modules r ≡ ok specs)
        × (all target_fits (create_tasks x.uuid7 db.drawn job now specs) ≡ false))
    × (¬ JobTargetOk job)

module _ (x : External) (r : Roster) (job : ScanJob) (now : ℕ) (db : Db) where
  abbrev Built : Type 0
  Built =
      (rows : List ScanTask) × (n : ℕ) × (ensure_matrix x r job now db ≡ ok (rows, n))
      × Matrix x r job now db rows
      × Tasks db.tasks rows

  planned :
      (specs : List TaskSpec)
      → any (is_child platform_session job.id) db.tasks ≡ false
      → plan_task_matrix job.modules r ≡ ok specs
      → Built ⊎ ((ensure_matrix x r job now db ≡ err check_violation) × Refused x r job now db)
  unfolding ensure_matrix insert_rows
  planned specs n e =
      let created = create_tasks x.uuid7 db.drawn job now specs in
      elim (Bool-cases (all target_fits created)) [
        | inl y ↦ inl (
          db.tasks ++ created,
          db.drawn + length created,
          rw (ensure_matrix, n, e, insert_rows, y) refl,
          rw n (specs, e, y, refl),
          Grows-append TaskEvolves TaskStateOk TaskEvolves-refl db.tasks created
              (create_tasks-TaskStateOk x.uuid7 db.drawn job now specs),
        )
        | inr z ↦ inr (
          rw (ensure_matrix, n, e, insert_rows, z) refl,
          (
            n,
            (specs, e, z),
            λ fits.
                let y : all target_fits created ≡ true = All-all target_fits created (
                  All-map TaskTargetOk _ created target_fits-TaskTargetOk
                    (create_tasks-plan_task_matrix x.uuid7 db.drawn job now r specs fits e)) in
                cc,
          ),
        )
      ]

  ensure_matrix-Matrix :
      Built ⊎ ((ensure_matrix x r job now db ≡ err check_violation) × Refused x r job now db)
  unfolding ensure_matrix
  ensure_matrix-Matrix = elim (Bool-cases (any (is_child platform_session job.id) db.tasks)) [
    | inl y ↦ inl (
      db.tasks,
      db.drawn,
      rw (ensure_matrix, y) refl,
      rw y refl,
      Grows-refl TaskEvolves TaskStateOk TaskEvolves-refl db.tasks,
    )
    | inr n ↦ let (specs, e, p) = plan_task_matrix-Planned job.modules r in planned specs n e
  ]

-- What a fan-out does: the rows of the matrix and no other, the job running, the messages of the
-- rows that wait.
abbrev pub FansOut : External → Roster → ℕ → ℕ → Db → ScanJob → List (ℕ × String) → Db → Type 0
FansOut x r job_id now db job messages after =
    (rows : List ScanTask) × Matrix x r job now db rows
    × (task_ids after.tasks ≡ task_ids rows)
    × SentAll r after.tasks messages
    × (after.results ≡ db.results)
    × (after.jobs ≡ modify (is_job platform_session job.id) (λ j. mark_job_running j now) db.jobs)

-- the two ways a dispatch of a live job ends
abbrev pub Launching : External → Roster → ℕ → ℕ → Db → ScanJob → Dispatched × Db → Type 0
Launching x r job_id now db job res =
    ((res ≡ (dispatch_raised, db)) × Refused x r job now db)
    ⊎ ((messages : List (ℕ × String)) × (after : Db) × (res
          ≡ (fanned_out job.organization_id (job_is_queued job.status) messages, after))
        × FansOut x r job_id now db job messages after)

-- the four ways a dispatch ends
abbrev pub Dispatching : External → Roster → ℕ → ℕ → Db → Dispatched × Db → Type 0
Dispatching x r job_id now db res =
    ((res ≡ (absent, db)) × (find (is_job platform_session job_id) db.jobs ≡ none))
    ⊎ ((job : ScanJob) × (find (is_job platform_session job_id) db.jobs ≡ some job)
        × (((job_is_terminal job.status ≡ true) × (res ≡ (already_closed, db)))
            ⊎ ((job_is_terminal job.status ≡ false) × Launching x r job_id now db job res)))

module _ (x : External) (r : Roster) (job_id now : ℕ) (db : Db) where
  abbrev Ends : Dispatched × Db → Type 0
  Ends res = Dispatching x r job_id now db res × DbEvolves db res.1

  fans_out :
      (job : ScanJob)
      → find (is_job platform_session job_id) db.jobs ≡ some job
      → job_is_terminal job.status ≡ false
      → Built x r job now db
      → Ends (dispatch_transaction x r job_id now db)
  unfolding dispatch_transaction dispatch_rows
  fans_out job f live (rows, n, e, m, g) =
      let child = is_child platform_session job.id in
      let (us, ms, h, k, s, i) = route_rows-Routed child r now rows in
      let jobs = modify (is_job platform_session job.id) (λ j. mark_job_running j now) db.jobs in
      let after = record db { tasks = us; drawn = n; jobs = jobs } in
      let reached : dispatch_transaction x r job_id now db
          ≡ (fanned_out job.organization_id (job_is_queued job.status) ms, after) =
        rw (dispatch_transaction, f, live, e, dispatch_rows, h) refl in
      subst Ends (sym reached) (
        inr (job, f, inr (live, inr (ms, after, refl, (rows, m, i, s, refl, refl)))),
        record {
          tasks_evolve =
              Grows-trans TaskEvolves TaskStateOk TaskEvolves-trans (λ t u c v. v.keeps c) db.tasks
                rows us g k;
          jobs_evolve =
              Grows-modify JobEvolves JobStateOk JobEvolves-refl (is_job platform_session job.id)
                (λ j. mark_job_running j now) db.jobs λ j _. mark_job_running-JobEvolves j now;
        },
      )

  launches :
      (job : ScanJob)
      → find (is_job platform_session job_id) db.jobs ≡ some job
      → job_is_terminal job.status ≡ false
      → Ends (dispatch_transaction x r job_id now db)
  unfolding dispatch_transaction
  launches job f live = elim (ensure_matrix-Matrix x r job now db) [
    | inl built ↦ fans_out job f live built
    | inr (e, broken) ↦
        let raises : dispatch_transaction x r job_id now db ≡ (dispatch_raised, db) =
          rw (dispatch_transaction, f, live, e) refl in
        subst Ends (sym raises) (inr (job, f, inr (live, inl (refl, broken))), DbEvolves-refl db)
  ]

  pub dispatch_transaction-Dispatching : Ends (dispatch_transaction x r job_id now db)
  unfolding dispatch_transaction
  dispatch_transaction-Dispatching =
      elim (Option-cases (find (is_job platform_session job_id) db.jobs)) [
        | inl n ↦
            let e : dispatch_transaction x r job_id now db ≡ (absent, db) =
              rw (dispatch_transaction, n) refl in
            subst Ends (sym e) (inl (refl, n), DbEvolves-refl db)
        | inr (job, f) ↦ elim (Bool-cases (job_is_terminal job.status)) [
          | inl y ↦
              let e : dispatch_transaction x r job_id now db ≡ (already_closed, db) =
                rw (dispatch_transaction, f, y) refl in
              subst Ends (sym e) (inr (job, f, inl (y, refl)), DbEvolves-refl db)
          | inr live ↦ launches job f live
        ]
      ]
