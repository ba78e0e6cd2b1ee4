-- ===== src/Worker/Matrix/Rows.antt =====
-- The rows of the matrix against its plan, and the constraints of the table.
use testing_platform_backend.Core.Enums.{ScanModule, ScanTaskStatus, dnssec, email, file, pqc, web}
use testing_platform_backend.Modules.Catalog.{CatalogEntry, tests_for_module}
use testing_platform_backend.Modules.Registry.{Roster}
use testing_platform_backend.Prelude.{
  All, All-append, All-map, All2, All2-All, Bool-cases, List, Option-cases, [], ap, arith,
  if◌then◌else◌, inl, inr, is_some, ok, ok-injective, refl, subst, sym, ℕ, ◌+◌, ◌∙◌, ◌∷◌, ◌≡◌,
}
use testing_platform_backend.Worker.Matrix.{TaskSpec, create_task, create_tasks, plan_task_matrix}
use testing_platform_backend.Worker.Matrix.Planning.{Planned, plan_task_matrix-Planned, requested}
use testing_platform_backend.Worker.Models.{ScanJob, ScanTask}
use testing_platform_backend.Worker.Status.{
  JobTargetOk, TaskStateOk, TaskTargetOk, is_file, is_not_applicable,
}

-- The row of one spec: it is of this job and its organization, runs the planned test, and waits in
-- the queue exactly when a module was found.
abbrev pub Row : ScanJob → TaskSpec → ScanTask → Type 0
Row job s t =
    (t.scan_job_id ≡ job.id)
    × (t.organization_id ≡ job.organization_id)
    × (t.test_key ≡ s.test_key)
    × (t.test_version ≡ s.test_version)
    × (t.status
        ≡ (if is_some s.blocked_reason then ScanTaskStatus.blocked else ScanTaskStatus.queued))
    × (t.status_reason ≡ s.blocked_reason)
    × TaskStateOk t

create_task-TaskStateOk :
    (job : ScanJob) (now : ℕ) (s : TaskSpec) (id : ℕ) → TaskStateOk (create_task job now s id)
unfolding create_task
create_task-TaskStateOk job now s id = elim (Option-cases s.blocked_reason) [
  | inl n ↦ rw n (record {
    blocked_says_why = λ q. cc;
    running_has_start = λ q. cc;
    terminal_state_has_finish = refl;
  })
  | inr (r, e) ↦ rw e (record {
    blocked_says_why = λ q. refl;
    running_has_start = λ q. cc;
    terminal_state_has_finish = refl;
  })
]

-- One row per spec, in the order of the specs; every row satisfies the state constraints.
create_tasks-Row :
    (ids : ℕ → ℕ) (n : ℕ) (job : ScanJob) (now : ℕ) (ss : List TaskSpec)
    → All2 (Row job) ss (create_tasks ids n job now ss)
unfolding create_tasks create_task
create_tasks-Row ids n job now [] = tt
create_tasks-Row ids n job now (s ∷ ss) = (
  (refl, refl, refl, refl, refl, refl, create_task-TaskStateOk job now s (ids n)),
  create_tasks-Row ids (n + 1) job now ss,
)

pub create_tasks-TaskStateOk :
    (ids : ℕ → ℕ) (n : ℕ) (job : ScanJob) (now : ℕ) (ss : List TaskSpec)
    → All TaskStateOk (create_tasks ids n job now ss)
unfolding create_tasks
create_tasks-TaskStateOk ids n job now [] = tt
create_tasks-TaskStateOk ids n job now (s ∷ ss) =
    (create_task-TaskStateOk job now s (ids n), create_tasks-TaskStateOk ids (n + 1) job now ss)

-- what a spec has to say for its row to have a target
abbrev Fits : ScanJob → TaskSpec → Type 0
Fits job s =
    (is_file s.spec_module ≡ is_some job.file_upload_id)
    × (is_file s.spec_module ≡ is_not_applicable s.classification)

create_task-TaskTargetOk :
    (job : ScanJob) (now : ℕ) (s : TaskSpec) (id : ℕ)
    → JobTargetOk job
    → Fits job s
    → TaskTargetOk (create_task job now s id)
unfolding create_task
create_task-TaskTargetOk job now s id ok_job (f, g) = elim (Bool-cases (is_file s.spec_module)) [
  | inl y ↦ record {
    one_task_target = let w = ok_job.one_launch_target in ground arith;
    not_applicable_is_file_only = g;
    file_task_targets_upload = ground arith;
  }
  | inr n ↦ record {
    one_task_target = let w = ok_job.one_launch_target in ground arith;
    not_applicable_is_file_only = g;
    file_task_targets_upload = ground arith;
  }
]

create_tasks-TaskTargetOk :
    (ids : ℕ → ℕ) (n : ℕ) (job : ScanJob) (now : ℕ) (ss : List TaskSpec)
    → JobTargetOk job
    → All (Fits job) ss
    → All TaskTargetOk (create_tasks ids n job now ss)
unfolding create_tasks
create_tasks-TaskTargetOk ids n job now [] j h = tt
create_tasks-TaskTargetOk ids n job now (s ∷ ss) j h = (
  create_task-TaskTargetOk job now s (ids n) j h.0,
  create_tasks-TaskTargetOk ids (n + 1) job now ss j h.1,
)

-- the entries of the catalog for one module
entries_fit :
    (m : ScanModule)
    → All
        (λ e. (e.entry_module ≡ m) × (is_file m ≡ is_not_applicable e.classification))
        (tests_for_module m)
unfolding tests_for_module
entries_fit email = ((refl, refl), tt)
entries_fit web = ((refl, refl), ((refl, refl), ((refl, refl), tt)))
entries_fit file = ((refl, refl), ((refl, refl), ((refl, refl), ((refl, refl), tt))))
entries_fit pqc = ((refl, refl), tt)
entries_fit dnssec = ((refl, refl), tt)

abbrev EntryFits : ScanJob → CatalogEntry → Type 0
EntryFits job e =
    (is_file e.entry_module ≡ is_some job.file_upload_id)
    × (is_file e.entry_module ≡ is_not_applicable e.classification)

requested_fit :
    (job : ScanJob) (ms : List ScanModule)
    → All (λ m. is_file m ≡ is_some job.file_upload_id) ms
    → All (EntryFits job) (requested ms)
requested_fit job [] h = tt
requested_fit job (m ∷ ms) h =
    All-append (EntryFits job) (tests_for_module m) (requested ms)
      (All-map _ (EntryFits job) (tests_for_module m)
        (λ e (p, q). (ap is_file p ∙ h.0, ap is_file p ∙ q)) (entries_fit m))
      (requested_fit job ms h.1)

-- The matrix of a job with one target that fits its modules breaks no constraint on targets: every
-- task has exactly one target, and it is the upload just for the tests of the file module.
pub create_tasks-plan_task_matrix :
    (ids : ℕ → ℕ) (n : ℕ) (job : ScanJob) (now : ℕ) (r : Roster) (ss : List TaskSpec)
    → JobTargetOk job
    → plan_task_matrix job.modules r ≡ ok ss
    → All TaskTargetOk (create_tasks ids n job now ss)
create_tasks-plan_task_matrix ids n job now r ss j h =
    let (ss', e, p) = plan_task_matrix-Planned job.modules r in
    let q : ss' ≡ ss = ok-injective (sym e ∙ h) in
    let fits : All (Fits job) ss' =
      All2-All (Planned r) (EntryFits job) (Fits job) (requested job.modules) ss'
        (λ c s f k.
          ((ap is_file k.1) ∙ f.0, (ap is_file k.1) ∙ f.1 ∙ sym (ap is_not_applicable k.2)))
        (requested_fit job job.modules j.modules_fit) p in
    create_tasks-TaskTargetOk ids n job now ss j (subst (All (Fits job)) q fits)
