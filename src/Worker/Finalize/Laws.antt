-- ===== src/Worker/Finalize/Laws.antt =====
-- The close of a job: when it happens, what it writes, and that it happens once.
use testing_platform_backend.Core.Enums.{ScanJobStatus, ScanTaskStatus}
use testing_platform_backend.Prelude.{
  All, Bool-cases, Grows-modify, Grows-refl, List, Option, Option-cases, [], ap, arith, false, find,
  find-modify, find_holds, inl, inr, modify, none, or_else, refl, some, some-injective, subst, sym,
  true, ℕ, ◌+◌, ◌∙◌, ◌≡◌, ◌≢◌, ◌⊎◌,
}
use testing_platform_backend.Worker.Db.{Db, External, Session, is_job}
use testing_platform_backend.Worker.Evolution.{
  DbEvolves, DbEvolves-refl, JobEvolves, JobEvolves-refl, TaskEvolves, TaskEvolves-refl,
}
use testing_platform_backend.Worker.Finalize.{child_statuses, close_job, finalize_job_if_done}
use testing_platform_backend.Worker.Models.{Reason, ScanJob}
use testing_platform_backend.Worker.Outcome.{Outcome, derive_job_outcome}
use testing_platform_backend.Worker.Outcome.Laws.{
  Verdict, derive_job_outcome-Verdict, derive_job_outcome-total,
}
use testing_platform_backend.Worker.Status.{
  JobStateOk, TaskStateOk, job_is_terminal, task_is_terminal,
}

pub Verdict-terminal :
    (st : ScanJobStatus) (ss : List ScanTaskStatus) → Verdict st ss → job_is_terminal st ≡ true
Verdict-terminal ScanJobStatus.completed ss v = refl
Verdict-terminal ScanJobStatus.partial ss v = refl
Verdict-terminal ScanJobStatus.canceled ss v = refl
Verdict-terminal ScanJobStatus.failed ss v = refl
Verdict-terminal ScanJobStatus.queued ss v = absurd v
Verdict-terminal ScanJobStatus.running ss v = absurd v

outcome-terminal :
    (ss : List ScanTaskStatus) (o : Option Reason) (out : Outcome)
    → derive_job_outcome ss o ≡ some out
    → job_is_terminal out.0 ≡ true
outcome-terminal ss o (st, r) e = Verdict-terminal st ss (derive_job_outcome-Verdict ss o st r e).2

close_job-JobEvolves :
    (x : External) (now : ℕ) (out : Outcome) (j : ScanJob)
    → job_is_terminal j.status ≡ false
    → job_is_terminal out.0 ≡ true
    → JobEvolves j (close_job x now out j)
unfolding close_job
close_job-JobEvolves x now (st, r) j live closes = record {
  same_id = refl;
  same_org = refl;
  frozen = λ f. ground arith;
  keeps = λ k. record {
    running_has_start = λ q. ground arith;
    terminal_state_has_finish = closes;
    purge_deadline_placement = rw closes refl;
  };
}

module _ (x : External) (s : Session) (job_id now : ℕ) (o : Option Reason) (db : Db) where
  -- the job that is closed, and with which outcome
  abbrev pub Closing : ScanJob → Outcome → Type 0
  Closing job out =
      (find (is_job s job_id) db.jobs ≡ some job)
      × (job_is_terminal job.status ≡ false)
      × (derive_job_outcome (child_statuses s job_id db) o ≡ some out)

  abbrev pub closed_db : Outcome → Db
  closed_db out = record db { jobs = modify (is_job s job_id) (close_job x now out) db.jobs }

  -- how the call ends: with nothing to close, or with a close
  abbrev pub Finalizing : Option Outcome × Db → Type 0
  Finalizing r =
      (r ≡ (none, db))
      ⊎ ((job : ScanJob) × (out : Outcome) × Closing job out × (r ≡ (some out, closed_db out)))

  pub finalize-cases : Finalizing (finalize_job_if_done x s job_id now o db)
  unfolding finalize_job_if_done
  finalize-cases = elim (Option-cases (find (is_job s job_id) db.jobs)) [
    | inl n ↦ inl (rw (finalize_job_if_done, n) refl)
    | inr (job, f) ↦ elim (Bool-cases (job_is_terminal job.status)) [
      | inl y ↦ inl (rw (finalize_job_if_done, f, y) refl)
      | inr n ↦ elim (Option-cases (derive_job_outcome (child_statuses s job_id db) o)) [
        | inl m ↦ inl (rw (finalize_job_if_done, f, n, m) refl)
        | inr (out, e) ↦ inr (job, out, (f, n, e), rw (finalize_job_if_done, f, n, e) refl)
      ]
    ]
  ]

  pub finalize_job_if_done-DbEvolves : DbEvolves db (finalize_job_if_done x s job_id now o db).1
  finalize_job_if_done-DbEvolves = elim finalize-cases [
    | inl e ↦ rw e (DbEvolves-refl db)
    | inr (job, out, (f, live, d), e) ↦ rw e (record {
      tasks_evolve = Grows-refl TaskEvolves TaskStateOk TaskEvolves-refl db.tasks;
      jobs_evolve =
          Grows-modify JobEvolves JobStateOk JobEvolves-refl (is_job s job_id) (close_job x now out)
            db.jobs
            λ j g.
              close_job-JobEvolves x now out j
                (subst (λ k. job_is_terminal k.status ≡ false) (some-injective _ _ (sym f ∙ g))
                  live)
                (outcome-terminal (child_statuses s job_id db) o out d);
    })
  ]

  close_job-is_job :
      (out : Outcome) (j : ScanJob) → is_job s job_id (close_job x now out j) ≡ is_job s job_id j
  unfolding close_job
  close_job-is_job (st, r) j = refl

  -- what a call that closes found and wrote
  pub finalize-inverse :
      (out : Outcome) (after : Db)
      → finalize_job_if_done x s job_id now o db ≡ (some out, after)
      → (job : ScanJob) × (find (is_job s job_id) db.jobs ≡ some job)
        × (job_is_terminal job.status ≡ false)
        × All (λ st. task_is_terminal st ≡ true) (child_statuses s job_id db)
        × Verdict out.0 (child_statuses s job_id db)
        × (after.tasks ≡ db.tasks)
        × (find (is_job s job_id) after.jobs ≡ some (close_job x now out job))
  finalize-inverse (st, r) after h = elim finalize-cases [
    | inl e ↦ ground (arith, sym e ∙ h)
    | inr (job, out, (f, live, d), e) ↦
        let q : out ≡ (st, r) = some-injective _ _ (ap (λ p. p.0) (sym e ∙ h)) in
        let a : closed_db (st, r) ≡ after = rw (sym q) (ap (λ p. p.1) (sym e ∙ h)) in
        let v = derive_job_outcome-Verdict (child_statuses s job_id db) o st r (rw q at d) in
        (
          job,
          f,
          live,
          v.1,
          v.2,
          sym (ap (λ z. z.tasks) a),
          rw (sym a) (
              find-modify (is_job s job_id) (close_job x now (st, r)) db.jobs f
                (close_job-is_job (st, r) job ∙ find_holds (is_job s job_id) db.jobs f)),
        )
  ]

  -- Nothing happens unless the job is live and its children have ended; a close writes the state by
  -- the rule, the reason, the instant, and a purge date that keeps an earlier one, and changes
  -- nothing else in the row of the job and no task.
  pub finalize_job_if_done_lem :
      (st : ScanJobStatus) (r : Option Reason) (after : Db)
      → finalize_job_if_done x s job_id now o db ≡ (some (st, r), after)
      → (job : ScanJob) × (find (is_job s job_id) db.jobs ≡ some job)
        × (job_is_terminal job.status ≡ false)
        × All (λ c. task_is_terminal c ≡ true) (child_statuses s job_id db)
        × Verdict st (child_statuses s job_id db)
        × (after.tasks ≡ db.tasks)
        × (find (is_job s job_id) after.jobs
            ≡ some (record job {
              status = st;
              status_reason = r;
              finished_at = some now;
              purge_at = some (or_else job.purge_at (x.twelve_months_after now + 2592000));
            }))
  unfolding close_job
  finalize_job_if_done_lem st r after h = finalize-inverse (st, r) after h

  -- Whichever call closed the job, a later one on that state finds nothing to do.
  finalize_job_if_done-once :
      (out : Outcome) (after : Db) (later : ℕ) (o' : Option Reason)
      → finalize_job_if_done x s job_id now o db ≡ (some out, after)
      → finalize_job_if_done x s job_id later o' after ≡ (none, after)
  unfolding finalize_job_if_done close_job
  finalize_job_if_done-once out after later o' h =
      let (job, f, live, terminal, v, tasks, found) = finalize-inverse out after h in
      let closes : job_is_terminal (close_job x now out job).status ≡ true =
        (Verdict-terminal out.0 (child_statuses s job_id db) v) in
      rw (finalize_job_if_done, found, closes) refl

  -- A live job with children that have all ended is closed by the call.
  pub finalize_job_if_done-closes :
      (job : ScanJob)
      → find (is_job s job_id) db.jobs ≡ some job
      → job_is_terminal job.status ≡ false
      → child_statuses s job_id db ≢ []
      → All (λ st. task_is_terminal st ≡ true) (child_statuses s job_id db)
      → (out : Outcome) × (finalize_job_if_done x s job_id now o db ≡ (some out, closed_db out))
  unfolding finalize_job_if_done
  finalize_job_if_done-closes job f live n all_ended =
      let (out, e) = derive_job_outcome-total (child_statuses s job_id db) o n all_ended in
      (out, rw (finalize_job_if_done, f, live, e) refl)
