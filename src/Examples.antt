-- ===== src/Examples.antt =====
-- Concrete data for the examples: one guest-free job on one asset, and the module for its one test.
pub mod Pipeline
pub mod Closing
pub mod Rosters
pub mod Domains
pub mod Access
pub mod Registering
pub mod Checks
pub mod Limits
use testing_platform_backend.Core.Enums.{
  ScanJobStatus, ScanTaskStatus, dnssec, manual, non_intrusive,
}
use testing_platform_backend.Core.Rls.{app}
use testing_platform_backend.Modules.Catalog.{CatalogEntry}
use testing_platform_backend.Modules.Contract.{ModuleDescriptor, TestDeclaration}
use testing_platform_backend.Modules.Findings.{ModuleResult}
use testing_platform_backend.Modules.Registry.{LoadedModule, Roster}
use testing_platform_backend.Prelude.{List, Option, [], none, ok, some, ℕ, ◌+◌, ◌∷◌}
use testing_platform_backend.Worker.Db.{Db, External, Session, hint_session}
use testing_platform_backend.Worker.Events.{World}
use testing_platform_backend.Worker.Models.{ScanJob, ScanTask, task_engine_error}
use testing_platform_backend.Worker.Module.{Delivery}

abbrev pub externals : External
externals = record {
  uuid7 = λ n. 100 + n;
  dumps = λ _. [];
  twelve_months_after = λ n. n + 31536000;
}

abbrev pub chain_test : TestDeclaration
chain_test = record { test_key = "dnssec.chainvalidator"; test_version = "1.2.0" }

abbrev pub dnssec_descriptor : ModuleDescriptor
dnssec_descriptor = record {
  name = dnssec;
  classification = non_intrusive;
  queue = "non-intrusive-scan";
  engine = "dnssec-engine";
  engine_version = "1.2.0";
  tests = chain_test ∷ [];
}

abbrev pub dnssec_module : LoadedModule
dnssec_module = record { entry_point = "dnssec"; descriptor = dnssec_descriptor }

abbrev pub dnssec_entry : CatalogEntry
dnssec_entry = record {
  test_key = "dnssec.chainvalidator";
  entry_module = dnssec;
  classification = non_intrusive;
}

abbrev pub one_module : Roster
one_module = dnssec_module ∷ []

abbrev pub queued_job : ScanJob
queued_job = record {
  id = 1;
  organization_id = some 7;
  source = manual;
  asset_id = some 3;
  target_domain = none;
  file_upload_id = none;
  modules = dnssec ∷ [];
  module_configuration = [];
  status = ScanJobStatus.queued;
  status_reason = none;
  claimed_at = none;
  purge_at = none;
  created_at = 10;
  started_at = none;
  finished_at = none;
}

abbrev pub queued_task : ScanTask
queued_task = record {
  id = 2;
  organization_id = some 7;
  scan_job_id = 1;
  scan_module = dnssec;
  test_key = "dnssec.chainvalidator";
  test_version = "1.2.0";
  classification = non_intrusive;
  target_asset_id = some 3;
  target_domain = none;
  file_upload_id = none;
  configuration = [];
  status = ScanTaskStatus.queued;
  status_reason = none;
  cancellation_requested_at = none;
  created_at = 12;
  started_at = none;
  finished_at = none;
}

abbrev pub running_job : ScanJob
running_job = record queued_job { status = ScanJobStatus.running; started_at = some 12 }

abbrev pub failed_task : ScanTask
failed_task = record queued_task {
  status = ScanTaskStatus.failed;
  status_reason = some task_engine_error;
  finished_at = some 20;
}

abbrev pub tables : List ScanJob → List ScanTask → Db
tables jobs tasks = record {
  jobs = jobs;
  tasks = tasks;
  results = [];
  findings = [];
  assets = record { id = 3; organization_id = some 7; value = "example.org" } ∷ [];
  uploads = [];
  drawn = 0;
}

-- a job that waits
abbrev pub fresh_db : Db
fresh_db = tables (queued_job ∷ []) []

-- a job that runs, with a task that waits
abbrev pub running_db : Db
running_db = tables (running_job ∷ []) (queued_task ∷ [])

-- a job whose only task has failed
abbrev pub failed_db : Db
failed_db = tables (running_job ∷ []) (failed_task ∷ [])

abbrev pub worker_session : Session
worker_session = hint_session app (some 7) (some 1)

abbrev pub empty_result : ModuleResult
empty_result = record {
  schema_version = [];
  raw_output = [];
  summary = [];
  findings = [];
  grade = none;
}

abbrev pub delivery : Option ℕ → Delivery
delivery org = record {
  roster = one_module;
  worker_queue = "non-intrusive-scan";
  role = app;
  org_hint = org;
  job_hint = some 1;
  now = 20;
  finished = 30;
  closing = 31;
  run = λ _ _. ok empty_result;
  meanwhile = λ w. w;
}

abbrev pub world : Db → World
world db = record { db = db; log = [] }
