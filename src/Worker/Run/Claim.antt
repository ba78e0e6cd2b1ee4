-- ===== src/Worker/Run/Claim.antt =====
-- The first transaction of `run_module`: who may claim a task, and what every other end leaves.
use testing_platform_backend.Core.Enums.{ScanTaskStatus}
use testing_platform_backend.Modules.Registry.{LoadedModule, Roster}
use testing_platform_backend.Prelude.{
  Bool-cases, Grows-modify, Grows-refl, Option-cases, Result-cases, String, ap, arith, err, false,
  find, inl, inr, is_some, none, ok, refl, some, some-injective, subst, sym, true, ℕ, ◌∙◌, ◌≡◌, ◌⊎◌,
}
use testing_platform_backend.Worker.Db.{Db, Session, is_task}
use testing_platform_backend.Worker.Evolution.{
  DbEvolves, DbEvolves-refl, JobEvolves, JobEvolves-refl, TaskEvolves, TaskEvolves-refl,
}
use testing_platform_backend.Worker.Models.{Reason, ScanTask, task_canceled}
use testing_platform_backend.Worker.Run.{
  ClaimEnd, claim, claim_row, claimed, close_claim, closed, duplicate, gate, put_task, resolve,
  unreachable,
}
use testing_platform_backend.Worker.Status.{
  JobStateOk, TaskStateOk, is_queued_of, task_is_queued, task_is_terminal,
}
use testing_platform_backend.Worker.Transitions.{mark_task_running, mark_task_terminal}
use testing_platform_backend.Worker.Transitions.Laws.{
  mark_task_running-TaskEvolves, mark_task_terminal-TaskEvolves, mark_task_terminal_iff,
}

module _ (s : Session) (task_id : ℕ) (r : Roster) (worker_queue : String) (now : ℕ) (db : Db) where
  -- the row with another state
  abbrev pub moved : ScanTask → Db
  moved u = put_task s task_id u db

  abbrev pub running_row : ScanTask → ScanTask
  running_row t = record t { status = ScanTaskStatus.running; started_at = some now }

  abbrev pub closed_row : ScanTask → ScanTaskStatus → Reason → ScanTask
  closed_row t st reason = record t {
    status = st;
    status_reason = some reason;
    finished_at = some now;
  }

  -- the ends of a claim of the row `t`
  abbrev pub Claiming : ScanTask → ClaimEnd × Db → Type 0
  Claiming t res =
      ((task_is_queued t.status ≡ false) × (res ≡ (duplicate t.status, db)))
      ⊎ ((t.status ≡ ScanTaskStatus.queued)
          × (is_some t.cancellation_requested_at ≡ true)
          × (res ≡ (
            closed t.scan_job_id ScanTaskStatus.canceled task_canceled,
            moved (closed_row t ScanTaskStatus.canceled task_canceled),
          )))
      ⊎ ((reason : Reason) × (t.status ≡ ScanTaskStatus.queued)
          × (t.cancellation_requested_at ≡ none)
          × (gate r worker_queue t.test_key ≡ err reason)
          × (res ≡ (
            closed t.scan_job_id ScanTaskStatus.blocked reason,
            moved (closed_row t ScanTaskStatus.blocked reason),
          )))
      ⊎ ((e : LoadedModule) × (t.status ≡ ScanTaskStatus.queued)
          × (t.cancellation_requested_at ≡ none)
          × (gate r worker_queue t.test_key ≡ ok e)
          × (res ≡ (claimed (resolve s task_id e t db), moved (running_row t))))

  close_claim_lem :
      (t : ScanTask) (st : ScanTaskStatus) (reason : Reason)
      → task_is_terminal st ≡ true
      → t.status ≡ ScanTaskStatus.queued
      → close_claim s task_id t st reason now db
        ≡ (closed t.scan_job_id st reason, moved (closed_row t st reason))
  unfolding close_claim
  close_claim_lem t st reason terminal q =
      let e : mark_task_terminal t st (some reason) now ≡ ok (closed_row t st reason) =
        (mark_task_terminal_iff t (closed_row t st reason) st (some reason) now).1
          (terminal, ground arith, ap task_is_terminal q, refl) in
      rw (close_claim, e) refl

  claim_row-Claiming : (t : ScanTask) → Claiming t (claim_row s task_id r worker_queue now t db)
  unfolding claim_row mark_task_running
  claim_row-Claiming t = elim (Bool-cases (task_is_queued t.status)) [
    | inr n ↦ inl (n, rw (claim_row, n) refl)
    | inl y ↦
        let q = is_queued_of t.status y in
        elim (Bool-cases (is_some t.cancellation_requested_at)) [
          | inl c ↦ inr (
              inl (
                q,
                c,
                rw (claim_row, y, c)
                    (close_claim_lem t ScanTaskStatus.canceled task_canceled refl q),
              ))
          | inr n ↦
              let m : t.cancellation_requested_at ≡ none = ground arith in
              elim (Result-cases (gate r worker_queue t.test_key)) [
                | inl (reason, g) ↦ inr (
                    inr (
                      inl (
                        reason,
                        q,
                        m,
                        g,
                        rw (claim_row, y, n, g)
                            (close_claim_lem t ScanTaskStatus.blocked reason refl q),
                      )))
                | inr (e, g) ↦
                    inr (inr (inr (e, q, m, g, rw (claim_row, y, n, g, mark_task_running, y) refl)))
              ]
        ]
  ]

  closed_row-TaskEvolves :
      (t : ScanTask) (st : ScanTaskStatus) (reason : Reason)
      → task_is_terminal st ≡ true
      → t.status ≡ ScanTaskStatus.queued
      → TaskEvolves t (closed_row t st reason)
  closed_row-TaskEvolves t st reason terminal q =
      mark_task_terminal-TaskEvolves t (closed_row t st reason) st (some reason) now (
        (mark_task_terminal_iff t (closed_row t st reason) st (some reason) now).1
          (terminal, ground arith, ap task_is_terminal q, refl))

  running_row-TaskEvolves :
      (t : ScanTask) → t.status ≡ ScanTaskStatus.queued → TaskEvolves t (running_row t)
  unfolding mark_task_running
  running_row-TaskEvolves t q =
      mark_task_running-TaskEvolves t (running_row t) now (rw (mark_task_running, q) refl)

  moved-DbEvolves :
      (t u : ScanTask)
      → find (is_task s task_id) db.tasks ≡ some t
      → TaskEvolves t u
      → DbEvolves db (moved u)
  moved-DbEvolves t u f k = record {
    tasks_evolve =
        Grows-modify TaskEvolves TaskStateOk TaskEvolves-refl (is_task s task_id) (λ _. u) db.tasks
          λ v g. subst (λ w. TaskEvolves w u) (some-injective _ _ (sym f ∙ g)) k;
    jobs_evolve = Grows-refl JobEvolves JobStateOk JobEvolves-refl db.jobs;
  }

  Claiming-DbEvolves :
      (t : ScanTask) (res : ClaimEnd × Db)
      → find (is_task s task_id) db.tasks ≡ some t
      → Claiming t res
      → DbEvolves db res.1
  Claiming-DbEvolves t res f (inl (n, e)) = rw e (DbEvolves-refl db)
  Claiming-DbEvolves t res f (inr (inl (q, c, e))) = rw e (
      moved-DbEvolves t (closed_row t ScanTaskStatus.canceled task_canceled) f
        (closed_row-TaskEvolves t ScanTaskStatus.canceled task_canceled refl q))
  Claiming-DbEvolves t res f (inr (inr (inl (reason, q, c, g, e)))) = rw e (
      moved-DbEvolves t (closed_row t ScanTaskStatus.blocked reason) f
        (closed_row-TaskEvolves t ScanTaskStatus.blocked reason refl q))
  Claiming-DbEvolves t res f (inr (inr (inr (entry, q, c, g, e)))) =
      rw e (moved-DbEvolves t (running_row t) f (running_row-TaskEvolves t q))

  -- A claim of a row that the session does not reach writes nothing; a claim of one that it reaches
  -- ends in exactly one of four ways, and never raises.
  pub claim-Claiming :
      ((find (is_task s task_id) db.tasks ≡ none)
        × (claim s task_id r worker_queue now db ≡ (unreachable, db)))
      ⊎ ((t : ScanTask) × (find (is_task s task_id) db.tasks ≡ some t)
          × Claiming t (claim s task_id r worker_queue now db))
  unfolding claim
  claim-Claiming = elim (Option-cases (find (is_task s task_id) db.tasks)) [
    | inl n ↦ inl (n, rw (claim, n) refl)
    | inr (t, f) ↦
        let e : claim s task_id r worker_queue now db
            ≡ claim_row s task_id r worker_queue now t db =
          rw (claim, f) refl in
        inr (t, f, subst (Claiming t) (sym e) (claim_row-Claiming t))
  ]

  pub claim-DbEvolves : DbEvolves db (claim s task_id r worker_queue now db).1
  claim-DbEvolves = elim claim-Claiming [
    | inl (n, e) ↦ rw e (DbEvolves-refl db)
    | inr (t, f, c) ↦ Claiming-DbEvolves t (claim s task_id r worker_queue now db) f c
  ]
