-- ===== src/Worker/Evolution.antt =====
-- What a transaction of the pipeline may do to the rows of `scan_task` and `scan_job`: a terminal
-- row is frozen, an id and a parent never change, and the CHECK constraints stay true.
use testing_platform_backend.Prelude.{
  Grows, Grows-refl, Grows-trans, List, refl, subst, sym, true, ◌∙◌, ◌≡◌,
}
use testing_platform_backend.Worker.Db.{Db}
use testing_platform_backend.Worker.Models.{ScanJob, ScanTask}
use testing_platform_backend.Worker.Status.{
  JobStateOk, TaskStateOk, job_is_terminal, task_is_terminal,
}

pub record TaskEvolves (t u : ScanTask) : Type 0 where
  pub same_id : u.id ≡ t.id
  pub same_job : u.scan_job_id ≡ t.scan_job_id
  pub same_org : u.organization_id ≡ t.organization_id
  pub same_test : u.test_key ≡ t.test_key
  pub frozen : task_is_terminal t.status ≡ true → u ≡ t
  pub keeps : TaskStateOk t → TaskStateOk u

pub record JobEvolves (j k : ScanJob) : Type 0 where
  pub same_id : k.id ≡ j.id
  pub same_org : k.organization_id ≡ j.organization_id
  pub frozen : job_is_terminal j.status ≡ true → k ≡ j
  pub keeps : JobStateOk j → JobStateOk k

pub TaskEvolves-refl : (t : ScanTask) → TaskEvolves t t
TaskEvolves-refl t = record {
  same_id = refl;
  same_job = refl;
  same_org = refl;
  same_test = refl;
  frozen = λ _. refl;
  keeps = λ k. k;
}

pub JobEvolves-refl : (j : ScanJob) → JobEvolves j j
JobEvolves-refl j = record { same_id = refl; same_org = refl; frozen = λ _. refl; keeps = λ k. k }

pub TaskEvolves-trans : (t u v : ScanTask) → TaskEvolves t u → TaskEvolves u v → TaskEvolves t v
TaskEvolves-trans t u v f g = record {
  same_id = g.same_id ∙ f.same_id;
  same_job = g.same_job ∙ f.same_job;
  same_org = g.same_org ∙ f.same_org;
  same_test = g.same_test ∙ f.same_test;
  frozen = λ h.
      let e = f.frozen h in
      let terminal : task_is_terminal u.status ≡ true =
        subst (λ w. task_is_terminal w.status ≡ true) (sym e) h in
      g.frozen terminal ∙ e;
  keeps = λ k. g.keeps (f.keeps k);
}

JobEvolves-trans : (i j k : ScanJob) → JobEvolves i j → JobEvolves j k → JobEvolves i k
JobEvolves-trans i j k f g = record {
  same_id = g.same_id ∙ f.same_id;
  same_org = g.same_org ∙ f.same_org;
  frozen = λ h.
      let e = f.frozen h in
      let terminal : job_is_terminal j.status ≡ true =
        subst (λ w. job_is_terminal w.status ≡ true) (sym e) h in
      g.frozen terminal ∙ e;
  keeps = λ s. g.keeps (f.keeps s);
}

abbrev pub Tasks : List ScanTask → List ScanTask → Type 0
Tasks = Grows TaskEvolves TaskStateOk

abbrev pub Jobs : List ScanJob → List ScanJob → Type 0
Jobs = Grows JobEvolves JobStateOk

-- Two states of the database.
pub record DbEvolves (before after : Db) : Type 0 where
  pub tasks_evolve : Tasks before.tasks after.tasks
  pub jobs_evolve : Jobs before.jobs after.jobs

pub DbEvolves-refl : (db : Db) → DbEvolves db db
DbEvolves-refl db = record {
  tasks_evolve = Grows-refl TaskEvolves TaskStateOk TaskEvolves-refl db.tasks;
  jobs_evolve = Grows-refl JobEvolves JobStateOk JobEvolves-refl db.jobs;
}

pub DbEvolves-trans : (a b c : Db) → DbEvolves a b → DbEvolves b c → DbEvolves a c
DbEvolves-trans a b c f g = record {
  tasks_evolve =
      Grows-trans TaskEvolves TaskStateOk TaskEvolves-trans (λ t u k e. e.keeps k) a.tasks b.tasks
        c.tasks f.tasks_evolve g.tasks_evolve;
  jobs_evolve =
      Grows-trans JobEvolves JobStateOk JobEvolves-trans (λ i j k e. e.keeps k) a.jobs b.jobs c.jobs
        f.jobs_evolve g.jobs_evolve;
}
