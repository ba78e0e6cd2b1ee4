-- ===== src/Worker/Reap/Laws.antt =====
-- The sweep of one stuck job: it fails the live children of that job and closes the job.
use testing_platform_backend.Core.Enums.{ScanTaskStatus}
use testing_platform_backend.Core.Rls.{reaches}
use testing_platform_backend.Prelude.{
  All, All2, Bool-cases, List, [], any, ap, arith, false, find, if◌then◌else◌, inl, inr, keep, map,
  not, ok, refl, some, true, ℕ, ◌&&◌, ◌==◌, ◌∙◌, ◌∷◌, ◌≡◌, ◌≢◌,
}
use testing_platform_backend.Worker.Db.{Db, External, Session, is_child, is_job}
use testing_platform_backend.Worker.Dispatch.{platform_session}
use testing_platform_backend.Worker.Events.{World, emit, finalize_and_publish}
use testing_platform_backend.Worker.Events.Committed.{finalize_and_publish_db}
use testing_platform_backend.Worker.Evolution.{TaskEvolves, TaskEvolves-refl, Tasks}
use testing_platform_backend.Worker.Finalize.{child_statuses, close_job}
use testing_platform_backend.Worker.Finalize.Laws.{
  Verdict-terminal, closed_db, finalize-inverse, finalize_job_if_done-closes,
}
use testing_platform_backend.Worker.Models.{ScanJob, ScanTask, job_timeout}
use testing_platform_backend.Worker.Reap.{
  after_sweep, reap_stuck_job, reap_transaction, sweep_rows, timeout_effects, timeout_override,
}
use testing_platform_backend.Worker.Status.{job_is_terminal, task_is_terminal}
use testing_platform_backend.Worker.Transitions.{mark_task_terminal}
use testing_platform_backend.Worker.Transitions.Laws.{
  mark_task_terminal-TaskEvolves, mark_task_terminal_iff,
}

abbrev pub swept_row : ℕ → ScanTask → ScanTask
swept_row swept t = record t {
  status = ScanTaskStatus.failed;
  status_reason = some job_timeout;
  finished_at = some swept;
}

-- the row before and after the sweep of the job
abbrev pub Swept : ℕ → ℕ → ScanTask → ScanTask → Type 0
Swept job_id swept t u =
    u
    ≡ (if t.scan_job_id == job_id && not (task_is_terminal t.status) then swept_row swept t else t)

swept_row-TaskEvolves :
    (swept : ℕ) (t : ScanTask)
    → task_is_terminal t.status ≡ false
    → TaskEvolves t (swept_row swept t)
swept_row-TaskEvolves swept t live =
    mark_task_terminal-TaskEvolves t (swept_row swept t) ScanTaskStatus.failed (some job_timeout)
      swept
      ((mark_task_terminal_iff t (swept_row swept t) ScanTaskStatus.failed (some job_timeout)
          swept).1
        (refl, refl, live, refl))

sweep_rows-Swept :
    (job_id swept : ℕ) (ts : List ScanTask)
    → (us : List ScanTask) × (ids : List ℕ) × (sweep_rows job_id swept ts ≡ ok (us, ids))
      × All2 (Swept job_id swept) ts us
      × Tasks ts us
unfolding sweep_rows
sweep_rows-Swept job_id swept [] = ([], [], refl, tt, tt)
sweep_rows-Swept job_id swept (t ∷ ts) =
    let (us, ids, e, h, g) = sweep_rows-Swept job_id swept ts in
    elim (Bool-cases (t.scan_job_id == job_id && not (task_is_terminal t.status))) [
      | inl y ↦
          let live : task_is_terminal t.status ≡ false = ground arith in
          let f : mark_task_terminal t ScanTaskStatus.failed (some job_timeout) swept
              ≡ ok (swept_row swept t) =
            (mark_task_terminal_iff t (swept_row swept t) ScanTaskStatus.failed (some job_timeout)
                swept).1
              (refl, refl, live, refl) in
          (
            swept_row swept t ∷ us,
            t.id ∷ ids,
            rw (y, f, e) refl,
            (rw y refl, h),
            (swept_row-TaskEvolves swept t live, g),
          )
      | inr n ↦ (t ∷ us, ids, rw (n, e) refl, (rw n refl, h), (TaskEvolves-refl t, g))
    ]

-- The sweep of a job never raises: it fails with `job.timeout` the live children of that job, and
-- leaves every other row as it is.
pub reap_transaction-Swept :
    (job_id swept : ℕ) (db : Db)
    → (ids : List ℕ) × (us : List ScanTask) × (reap_transaction job_id swept db
        ≡ (some ids, record db { tasks = us }))
      × All2 (Swept job_id swept) db.tasks us
      × Tasks db.tasks us
unfolding reap_transaction
reap_transaction-Swept job_id swept db =
    let (us, ids, e, h, g) = sweep_rows-Swept job_id swept db.tasks in
    (ids, us, rw (reap_transaction, e) refl, h, g)

Swept-child :
    (job_id swept : ℕ) (t u : ScanTask)
    → Swept job_id swept t u
    → (u.scan_job_id == job_id) ≡ true
    → task_is_terminal u.status ≡ true
Swept-child job_id swept t u h c =
    elim (Bool-cases (t.scan_job_id == job_id && not (task_is_terminal t.status))) [
      | inl y ↦ rw (rw y at h) refl
      | inr n ↦
          let e : u ≡ t = rw n at h in
          let d : (t.scan_job_id == job_id) ≡ true = rw e at c in rw e (ground arith)
    ]

-- the children after a sweep have all ended
Swept-children :
    (s : Session) (job_id swept : ℕ) (ts us : List ScanTask)
    → All2 (Swept job_id swept) ts us
    → All (λ st. task_is_terminal st ≡ true) (map (λ t. t.status) (keep (is_child s job_id) us))
Swept-children s job_id swept [] [] h = tt
Swept-children s job_id swept [] (u ∷ us) h = absurd h
Swept-children s job_id swept (t ∷ ts) [] h = absurd h
Swept-children s job_id swept (t ∷ ts) (u ∷ us) h =
    let rest = Swept-children s job_id swept ts us h.1 in
    elim (Bool-cases (is_child s job_id u)) [
      | inl y ↦ rw y (Swept-child job_id swept t u h.0 (ground arith), rest)
      | inr n ↦ rw n rest
    ]

Swept-same_job :
    (job_id swept : ℕ) (t u : ScanTask) → Swept job_id swept t u → u.scan_job_id ≡ t.scan_job_id
Swept-same_job job_id swept t u h =
    elim (Bool-cases (t.scan_job_id == job_id && not (task_is_terminal t.status))) [
      | inl y ↦ ap (λ v. v.scan_job_id) (rw y at h)
      | inr n ↦ ap (λ v. v.scan_job_id) (rw n at h)
    ]

-- the sweep changes no parent, so a child stays a child
Swept-child_stays :
    (job_id swept : ℕ) (ts us : List ScanTask)
    → All2 (Swept job_id swept) ts us
    → any (is_child platform_session job_id) ts ≡ true
    → map (λ t. t.status) (keep (is_child platform_session job_id) us) ≢ []
unfolding reaches
Swept-child_stays job_id swept [] [] h a e = cc
Swept-child_stays job_id swept [] (u ∷ us) h a e = absurd h
Swept-child_stays job_id swept (t ∷ ts) [] h a e = absurd h
Swept-child_stays job_id swept (t ∷ ts) (u ∷ us) h a e =
    elim (Bool-cases (is_child platform_session job_id u)) [
      | inl y ↦
          let f : ◌≡◌ {A = List ScanTaskStatus}
              (u.status ∷ map (λ t. t.status) (keep (is_child platform_session job_id) us)) [] =
            rw y at e in
          cc
      | inr n ↦
          let same = Swept-same_job job_id swept t u h.0 in
          let m : is_child platform_session job_id t ≡ false = ground (arith) in
          Swept-child_stays job_id swept ts us h.1 (rw m at a) (rw n at e)
    ]

module _ (x : External) (job_id swept closing : ℕ) (w : World) where
  -- A sweep of a live job that has a child closes the job: afterwards its row is terminal, whatever
  -- state the children were in.
  pub reap_stuck_job-closes :
      (job : ScanJob)
      → find (is_job platform_session job_id) w.db.jobs ≡ some job
      → job_is_terminal job.status ≡ false
      → any (is_child platform_session job_id) w.db.tasks ≡ true
      → (row : ScanJob) × (find
            (is_job platform_session job_id)
            (reap_stuck_job x job_id swept closing w).db.jobs
          ≡ some row)
        × (job_is_terminal row.status ≡ true)
  unfolding reap_stuck_job after_sweep child_statuses close_job
  reap_stuck_job-closes job f live a =
      let (ids, us, e, h, g) = reap_transaction-Swept job_id swept w.db in
      let db = record w.db { tasks = us } in
      let o = timeout_override ids in
      let swept_world = emit (timeout_effects job_id swept ids) (record w { db = db }) in
      let reached : reap_stuck_job x job_id swept closing w
          ≡ finalize_and_publish x platform_session job_id closing o swept_world =
        ap (after_sweep x job_id swept closing w) e in
      let (out, c) =
        finalize_job_if_done-closes x platform_session job_id closing o db job f live
          (Swept-child_stays job_id swept w.db.tasks us h a)
          (Swept-children platform_session job_id swept w.db.tasks us h) in
      let (job', f', live', all_ended, v, tasks, found) =
        finalize-inverse x platform_session job_id closing o db out
          (closed_db x platform_session job_id closing o db out) c in
      let committed : (reap_stuck_job x job_id swept closing w).db
          ≡ closed_db x platform_session job_id closing o db out =
        ap (λ v. v.db) reached
        ∙ finalize_and_publish_db x platform_session job_id closing o swept_world
        ∙ ap (λ p. p.1) c in
      (
        close_job x closing out job',
        rw committed found,
        Verdict-terminal out.0 (child_statuses platform_session job_id db) v,
      )
