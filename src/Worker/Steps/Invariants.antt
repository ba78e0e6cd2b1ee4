-- ===== src/Worker/Steps/Invariants.antt =====
-- What no order of the transactions breaks.
use testing_platform_backend.Modules.Registry.{Roster}
use testing_platform_backend.Prelude.{
  All, All-Grows, Grows-refl, Option, String, ap, find, find-Grows, inl, inr, refl, some, true, ℕ,
  ◌==◌, ◌∙◌, ◌≡◌,
}
use testing_platform_backend.Worker.Db.{Db, External, Session}
use testing_platform_backend.Worker.Dispatch.{dispatch_transaction}
use testing_platform_backend.Worker.Dispatch.Fanout.{dispatch_transaction-Dispatching}
use testing_platform_backend.Worker.Evolution.{
  DbEvolves, DbEvolves-refl, DbEvolves-trans, JobEvolves, JobEvolves-refl, TaskEvolves,
}
use testing_platform_backend.Worker.Finalize.{finalize_job_if_done}
use testing_platform_backend.Worker.Finalize.Laws.{finalize-cases, finalize_job_if_done-DbEvolves}
use testing_platform_backend.Worker.Models.{Reason, ScanJob, ScanTask}
use testing_platform_backend.Worker.Reap.{reap_transaction}
use testing_platform_backend.Worker.Reap.Laws.{reap_transaction-Swept}
use testing_platform_backend.Worker.Run.{ClaimEnd, claim}
use testing_platform_backend.Worker.Run.Claim.{Claiming, claim-Claiming, claim-DbEvolves}
use testing_platform_backend.Worker.Run.Results.{
  ResultsOwned, record_outcome-DbEvolves, record_outcome-ResultsOwned, results_stay_owned,
}
use testing_platform_backend.Worker.Status.{
  JobStateOk, TaskStateOk, job_is_terminal, task_is_terminal,
}
use testing_platform_backend.Worker.Steps.{
  Step, Steps, and_then, at_rest, claiming, dispatching, finalizing, recording, sweeping,
}

reap_transaction-DbEvolves :
    (job_id swept : ℕ) (db : Db) → DbEvolves db (reap_transaction job_id swept db).1
reap_transaction-DbEvolves job_id swept db =
    let (ids, us, e, h, g) = reap_transaction-Swept job_id swept db in
    rw e (record {
      tasks_evolve = g;
      jobs_evolve = Grows-refl JobEvolves JobStateOk JobEvolves-refl db.jobs;
    })

module _ (x : External) where
  Step-DbEvolves : (a b : Db) → Step x a b → DbEvolves a b
  Step-DbEvolves _ _ (dispatching r job_id now db) =
      (dispatch_transaction-Dispatching x r job_id now db).1
  Step-DbEvolves _ _ (claiming s task_id r queue now db) = claim-DbEvolves s task_id r queue now db
  Step-DbEvolves _ _ (recording s task_id outcome finished db) =
      record_outcome-DbEvolves s task_id x outcome finished db
  Step-DbEvolves _ _ (finalizing s job_id now o db) =
      finalize_job_if_done-DbEvolves x s job_id now o db
  Step-DbEvolves _ _ (sweeping job_id swept db) = reap_transaction-DbEvolves job_id swept db

  Steps-DbEvolves : (a b : Db) → Steps x a b → DbEvolves a b
  Steps-DbEvolves _ _ (at_rest db) = DbEvolves-refl db
  Steps-DbEvolves _ _ (and_then a b c s r) =
      DbEvolves-trans a b c (Step-DbEvolves a b s) (Steps-DbEvolves b c r)

  -- A task that has ended, however it ended, is never written again: after any run of the machine
  -- the row under its id is the same row.
  pub Steps-task_frozen :
      (before after : Db) (id : ℕ) (t : ScanTask)
      → Steps x before after
      → find (λ u. u.id == id) before.tasks ≡ some t
      → task_is_terminal t.status ≡ true
      → find (λ u. u.id == id) after.tasks ≡ some t
  Steps-task_frozen before after id t r f h =
      let (u, e, k) =
        find-Grows TaskEvolves TaskStateOk (λ u. u.id == id) before.tasks after.tasks {a = t}
          (λ u v k. ap (λ i. i == id) k.same_id) (Steps-DbEvolves before after r).tasks_evolve f in
      e ∙ ap some (k.frozen h)

  -- The same for a job: a closed job keeps its state, its reason, its instants and its purge date.
  Steps-job_frozen :
      (before after : Db) (id : ℕ) (j : ScanJob)
      → Steps x before after
      → find (λ k. k.id == id) before.jobs ≡ some j
      → job_is_terminal j.status ≡ true
      → find (λ k. k.id == id) after.jobs ≡ some j
  Steps-job_frozen before after id j r f h =
      let (u, e, k) =
        find-Grows JobEvolves JobStateOk (λ k. k.id == id) before.jobs after.jobs {a = j}
          (λ u v k. ap (λ i. i == id) k.same_id) (Steps-DbEvolves before after r).jobs_evolve f in
      e ∙ ap some (k.frozen h)

-- The CHECK constraints on the states of tasks and jobs, and the ownership of results.
pub record DbOk (db : Db) : Type 0 where
  pub tasks_ok : All TaskStateOk db.tasks
  pub jobs_ok : All JobStateOk db.jobs
  pub results_owned : ResultsOwned db

Claiming-results :
    (s : Session) (task_id : ℕ) (r : Roster) (queue : String) (now : ℕ) (db : Db) (t : ScanTask)
    (res : ClaimEnd × Db)
    → Claiming s task_id r queue now db t res
    → (res.1).results ≡ db.results
Claiming-results s task_id r queue now db t res (inl (n, e)) = rw e refl
Claiming-results s task_id r queue now db t res (inr (inl (q, c, e))) = rw e refl
Claiming-results s task_id r queue now db t res (inr (inr (inl (reason, q, c, g, e)))) = rw e refl
Claiming-results s task_id r queue now db t res (inr (inr (inr (entry, q, c, g, e)))) = rw e refl

claim-results :
    (s : Session) (task_id : ℕ) (r : Roster) (queue : String) (now : ℕ) (db : Db)
    → (claim s task_id r queue now db).1.results ≡ db.results
claim-results s task_id r queue now db = elim (claim-Claiming s task_id r queue now db) [
  | inl (n, e) ↦ rw e refl
  | inr (t, f, k) ↦ Claiming-results s task_id r queue now db t (claim s task_id r queue now db) k
]

dispatch_transaction-results :
    (x : External) (r : Roster) (job_id now : ℕ) (db : Db)
    → (dispatch_transaction x r job_id now db).1.results ≡ db.results
dispatch_transaction-results x r job_id now db =
    elim (dispatch_transaction-Dispatching x r job_id now db).0 [
      | inl (e, n) ↦ rw e refl
      | inr (job, f, k) ↦ elim k [
        | inl (y, e) ↦ rw e refl
        | inr (live, way) ↦ elim way [
          | inl (e, broken) ↦ rw e refl
          | inr (messages, after, e, (rows, m, i, s, same, jobs)) ↦ rw e same
        ]
      ]
    ]

finalize_job_if_done-results :
    (x : External) (s : Session) (job_id now : ℕ) (o : Option Reason) (db : Db)
    → (finalize_job_if_done x s job_id now o db).1.results ≡ db.results
finalize_job_if_done-results x s job_id now o db = elim (finalize-cases x s job_id now o db) [
  | inl e ↦ rw e refl
  | inr (job, out, c, e) ↦ rw e refl
]

reap_transaction-results :
    (job_id swept : ℕ) (db : Db) → (reap_transaction job_id swept db).1.results ≡ db.results
reap_transaction-results job_id swept db =
    let (ids, us, e, h, g) = reap_transaction-Swept job_id swept db in rw e refl

module _ (x : External) where
  stay : (a b : Db) → DbEvolves a b → b.results ≡ a.results → ResultsOwned a → ResultsOwned b
  stay a b d e h = rw e (results_stay_owned a b d h)

  Step-ResultsOwned : (a b : Db) → Step x a b → ResultsOwned a → ResultsOwned b
  Step-ResultsOwned _ _ (recording s task_id outcome finished db) h =
      record_outcome-ResultsOwned s task_id x outcome finished db h
  Step-ResultsOwned a b (dispatching r job_id now db) h =
      stay a b (Step-DbEvolves x a b (dispatching r job_id now db))
        (dispatch_transaction-results x r job_id now db) h
  Step-ResultsOwned a b (claiming s task_id r queue now db) h =
      stay a b (Step-DbEvolves x a b (claiming s task_id r queue now db))
        (claim-results s task_id r queue now db) h
  Step-ResultsOwned a b (finalizing s job_id now o db) h =
      stay a b (Step-DbEvolves x a b (finalizing s job_id now o db))
        (finalize_job_if_done-results x s job_id now o db) h
  Step-ResultsOwned a b (sweeping job_id swept db) h =
      stay a b (Step-DbEvolves x a b (sweeping job_id swept db))
        (reap_transaction-results job_id swept db) h

  Steps-ResultsOwned : (a b : Db) → Steps x a b → ResultsOwned a → ResultsOwned b
  Steps-ResultsOwned _ _ (at_rest db) h = h
  Steps-ResultsOwned _ _ (and_then a b c s r) h =
      Steps-ResultsOwned b c r (Step-ResultsOwned a b s h)

  -- No run of the machine breaks a CHECK constraint on the state of a task or of a job, or stores a
  -- result for a task that has not completed.
  pub Steps-DbOk : (before after : Db) → Steps x before after → DbOk before → DbOk after
  Steps-DbOk before after r h =
      let d = Steps-DbEvolves x before after r in
      record {
        tasks_ok =
            All-Grows TaskEvolves TaskStateOk TaskStateOk (λ t u k e. e.keeps k) (λ t k. k)
              before.tasks after.tasks h.tasks_ok d.tasks_evolve;
        jobs_ok =
            All-Grows JobEvolves JobStateOk JobStateOk (λ t u k e. e.keeps k) (λ t k. k) before.jobs
              after.jobs h.jobs_ok d.jobs_evolve;
        results_owned = Steps-ResultsOwned before after r h.results_owned;
      }
