-- ===== src/Worker/Matrix.antt =====
-- The planning half of worker/orchestration.py: the matrix of tasks of a job, and its rows.
pub mod Rows
pub mod Planning
use testing_platform_backend.Core.Enums.{
  ScanClassification, ScanModule, ScanTaskStatus, module_value,
}
use testing_platform_backend.Modules.Catalog.{CatalogEntry, tests_for_module}
use testing_platform_backend.Modules.Contract.{TestDeclaration}
use testing_platform_backend.Modules.Registry.{
  LoadedModule, RegistryError, Roster, by_test_key, not_implemented,
}
use testing_platform_backend.Prelude.{
  List, Option, Result, String, [], err, find, if◌then◌else◌, is_some, none, ok, some, str_eq, ℕ,
  ◌++◌, ◌+◌, ◌>>=◌, ◌>>◌, ◌∷◌,
}
use testing_platform_backend.Worker.Models.{
  Options, Reason, ScanJob, ScanTask, task_module_unavailable,
}
use testing_platform_backend.Worker.Status.{is_file}

pub record TaskSpec : Type 0 where
  pub test_key : String
  pub test_version : String
  pub spec_module : ScanModule
  pub classification : ScanClassification
  pub queue : Option String
  pub blocked_reason : Option Reason

-- `next((t for t in tests if t.test_key == key), None)`
unfoldable pub find_test : String → List TestDeclaration → Option TestDeclaration
find_test key = find (λ t. str_eq t.test_key key)

abbrev pub blocked_spec : CatalogEntry → TaskSpec
blocked_spec entry = record {
  test_key = entry.test_key;
  test_version = "unknown";
  spec_module = entry.entry_module;
  classification = entry.classification;
  queue = none;
  blocked_reason = some task_module_unavailable;
}

abbrev pub ready_spec : CatalogEntry → LoadedModule → TestDeclaration → TaskSpec
ready_spec entry loaded declared = record {
  test_key = entry.test_key;
  test_version = declared.test_version;
  spec_module = entry.entry_module;
  classification = entry.classification;
  queue = some loaded.descriptor.queue;
  blocked_reason = none;
}

-- One entry of the catalog, resolved against the roster.
unfoldable pub plan_entry : Roster → CatalogEntry → Result RegistryError TaskSpec
unfolding find_test
plan_entry roster entry = elim (by_test_key roster entry.test_key) [
  | err _ ↦ ok (blocked_spec entry)
  | ok loaded ↦ elim (find_test entry.test_key loaded.descriptor.tests) [
    | none ↦ err not_implemented
    | some declared ↦ ok (ready_spec entry loaded declared)
  ]
]

unfoldable pub plan_entries : Roster → List CatalogEntry → Result RegistryError (List TaskSpec)
plan_entries roster [] = ok []
plan_entries roster (e ∷ es) = do
  s ← plan_entry roster e
  rest ← plan_entries roster es
  ok (s ∷ rest)

unfoldable pub plan_task_matrix : List ScanModule → Roster → Result RegistryError (List TaskSpec)
plan_task_matrix [] roster = ok []
plan_task_matrix (m ∷ ms) roster = do
  specs ← plan_entries roster (tests_for_module m)
  rest ← plan_task_matrix ms roster
  ok (specs ++ rest)

-- `module_configuration.get(module.value, {})`
unfoldable pub configuration_for : String → List (String × Options) → Options
configuration_for key [] = []
configuration_for key ((k, o) ∷ c) = if str_eq k key then o else configuration_for key c

-- One row of `create_tasks`; `id` is the fresh UUID of the row.
unfoldable pub create_task : ScanJob → ℕ → TaskSpec → ℕ → ScanTask
unfolding configuration_for
create_task job now spec id =
    let file_test = is_file spec.spec_module in
    let is_blocked = is_some spec.blocked_reason in
    record {
      id = id;
      organization_id = job.organization_id;
      scan_job_id = job.id;
      scan_module = spec.spec_module;
      test_key = spec.test_key;
      test_version = spec.test_version;
      classification = spec.classification;
      target_asset_id = if file_test then none else job.asset_id;
      target_domain = if file_test then none else job.target_domain;
      file_upload_id = if file_test then job.file_upload_id else none;
      configuration = configuration_for (module_value spec.spec_module) job.module_configuration;
      status = if is_blocked then ScanTaskStatus.blocked else ScanTaskStatus.queued;
      status_reason = spec.blocked_reason;
      cancellation_requested_at = none;
      created_at = now;
      started_at = none;
      finished_at = if is_blocked then some now else none;
    }

-- `uuid` gives the ids that `uuid7()` returns one after the other, `n` how many were drawn.
unfoldable pub create_tasks : (ℕ → ℕ) → ℕ → ScanJob → ℕ → List TaskSpec → List ScanTask
create_tasks uuid n job now [] = []
create_tasks uuid n job now (spec ∷ specs) =
    create_task job now spec (uuid n) ∷ create_tasks uuid (n + 1) job now specs
