-- ===== src/Worker/Run.antt =====
-- `run_module` of worker/tasks.py, the task `scan.run_module` on an egress queue: two transactions
-- with the engine run between them, in which other tasks may do anything.
pub mod Claim
pub mod Gate
pub mod Record
pub mod Results
use mathlib.Core.Bool.{xor}
use mathlib.Core.Option
use testing_platform_backend.Core.Enums.{ScanTaskStatus}
use testing_platform_backend.Core.Rls.{current, sql_eq}
use testing_platform_backend.Modules.Findings.{ModuleResult}
use testing_platform_backend.Modules.Namespaced.{codes}
use testing_platform_backend.Modules.Registry.{
  Failure, LoadedModule, Roster, by_test_key, value_error,
}
use testing_platform_backend.Prelude.{
  Bool, Option, Result, String, [], any, err, false, find, if◌then◌else◌, is_some, modify, none,
  not, ok, require, some, str_eq, true, ℕ, ◌&&◌, ◌==◌, ◌>>=◌, ◌>>◌, ◌||◌,
}
use testing_platform_backend.Text.{strip}
use testing_platform_backend.Worker.Db.{AssetRow, Db, External, Session, UploadRow, is_task}
use testing_platform_backend.Worker.Finalize.{persist_result}
use testing_platform_backend.Worker.Models.{
  Options, Reason, ScanJob, ScanTask, task_canceled, task_misrouted, task_module_unavailable,
}
use testing_platform_backend.Worker.Status.{task_is_queued, task_is_terminal}
use testing_platform_backend.Worker.Transitions.{
  classify_failure, mark_task_running, mark_task_terminal,
}

-- `ScanInput` of modules/contract.py; its `timeout` is the default here and always valid.
pub record ScanInput : Type 0 where
  pub target_domain : Option String
  pub file_path : Option String
  pub options : Options

-- `not value.strip()` is false
abbrev pub is_filled : Option String → Bool
is_filled none = true
is_filled (some v) = elim (strip (codes v)) [ [] ↦ false | _ ↦ true ]

-- `ScanInput.__post_init__`
unfoldable pub scan_input : Option String → Option String → Options → Result Failure ScanInput
unfolding strip
scan_input domain path options = do
  require (xor (is_some domain) (is_some path)) value_error
  require (is_filled domain && is_filled path) value_error
  ok (record { target_domain = domain; file_path = path; options = options })

-- `unit.get(Asset, id)`, under the tenant policy of `asset`
unfoldable pub asset_value : Session → ℕ → Db → Option String
asset_value s id db =
    Option.map (λ a. a.value)
      (find (λ (a : AssetRow). a.id == id && sql_eq a.organization_id (current s.context.org))
        db.assets)

-- the upload of a job, as the policy of `file_upload` reads it
abbrev pub is_upload_of : Option ℕ → ℕ → ScanJob → Bool
is_upload_of job id j = sql_eq j.file_upload_id (some id) && sql_eq (some j.id) job

-- `unit.get(FileUpload, id)`, under the tenant policy of `file_upload`
unfoldable upload_key : Session → ℕ → Db → Option String
upload_key s id db =
    elim (find
      (λ (u : UploadRow).
        u.id == id
        && (sql_eq u.organization_id (current s.context.org)
            || any (is_upload_of (current s.context.job) id) db.jobs))
      db.uploads) [ none ↦ none | some u ↦ u.storage_key ]

-- What the first transaction hands to the run.
pub record Claimed : Type 0 where
  pub job_id : ℕ
  pub entry : LoadedModule
  pub target_domain : Option String
  pub file_path : Option String
  pub configuration : Options

-- How the first transaction ends: no row in this context, another state than `queued`, closed with
-- a reason (`canceled` or `blocked`), an escaping exception, or claimed.
pub data ClaimEnd : Type 0 where
  unreachable claim_raised : ClaimEnd
  duplicate : ScanTaskStatus → ClaimEnd
  closed : ℕ → ScanTaskStatus → Reason → ClaimEnd
  claimed : Claimed → ClaimEnd

-- The roster and the egress gate: the module, or the reason to refuse the task.
unfoldable pub gate : Roster → String → String → Result Reason LoadedModule
gate roster worker_queue key = elim (by_test_key roster key) [
  | err _ ↦ err task_module_unavailable
  | ok e ↦ if str_eq e.descriptor.queue worker_queue then ok e else err task_misrouted
]

module _ (s : Session) (task_id : ℕ) where
  abbrev pub put_task : ScanTask → Db → Db
  put_task t db = record db { tasks = modify (is_task s task_id) (λ _. t) db.tasks }

  -- `mark_task_terminal` with its write, in the first transaction
  unfoldable pub close_claim : ScanTask → ScanTaskStatus → Reason → ℕ → Db → ClaimEnd × Db
  close_claim task status reason now db = elim (mark_task_terminal task status (some reason) now) [
    | err _ ↦ (claim_raised, db)
    | ok t ↦ (closed task.scan_job_id status reason, put_task t db)
  ]

  unfoldable pub resolve : LoadedModule → ScanTask → Db → Claimed
  unfolding asset_value upload_key
  resolve e task db = record {
    job_id = task.scan_job_id;
    entry = e;
    target_domain = elim task.target_asset_id [
      | some a ↦ asset_value s a db
      | none ↦ task.target_domain
    ];
    file_path = elim task.file_upload_id [ some u ↦ upload_key s u db | none ↦ none ];
    configuration = task.configuration;
  }

  -- the tests on the locked row
  unfoldable pub claim_row : Roster → String → ℕ → ScanTask → Db → ClaimEnd × Db
  unfolding close_claim
  claim_row roster worker_queue now task db =
      if not (task_is_queued task.status)
      then (duplicate task.status, db)
      else if is_some task.cancellation_requested_at
      then close_claim task ScanTaskStatus.canceled task_canceled now db
      else elim (gate roster worker_queue task.test_key) [
        | err reason ↦ close_claim task ScanTaskStatus.blocked reason now db
        | ok e ↦ elim (mark_task_running task now) [
          | err _ ↦ (claim_raised, db)
          | ok t ↦ (claimed (resolve e task db), put_task t db)
        ]
      ]

  -- Phase 1
  unfoldable pub claim : Roster → String → ℕ → Db → ClaimEnd × Db
  unfolding claim_row
  claim roster worker_queue now db = elim (find (is_task s task_id) db.tasks) [
    | none ↦ (unreachable, db)
    | some task ↦ claim_row roster worker_queue now task db
  ]

-- Phase 2. The module itself is a parameter: what its `run` returns or raises for an input.
unfoldable pub run_phase :
    (LoadedModule → ScanInput → Result Failure ModuleResult) → Claimed → Result Reason ModuleResult
unfolding scan_input
run_phase run c = elim (scan_input c.target_domain c.file_path c.configuration >>= run c.entry) [
  | err e ↦ err (classify_failure e)
  | ok r ↦ ok r
]

-- How the last transaction ends.
pub data RecordEnd : Type 0 where
  vanished record_raised : RecordEnd
  closed_meanwhile : ScanTaskStatus → RecordEnd
  recorded : ScanTaskStatus → Option Reason → RecordEnd

-- the one outcome of a run: canceled, failed or completed
abbrev pub final_outcome : ScanTask → Result Reason ModuleResult → ScanTaskStatus × Option Reason
final_outcome task outcome =
    if is_some task.cancellation_requested_at
    then (ScanTaskStatus.canceled, some task_canceled)
    else elim outcome [
      | err reason ↦ (ScanTaskStatus.failed, some reason)
      | ok _ ↦ (ScanTaskStatus.completed, none)
    ]

-- the result is stored only with the outcome `completed`
abbrev pub store_outcome : External → ScanTask → Result Reason ModuleResult → ℕ → Db → Db
store_outcome x task outcome finished db =
    if is_some task.cancellation_requested_at
    then db
    else elim outcome [ err _ ↦ db | ok r ↦ persist_result x task r finished db ]

-- Phase 3
module _ (s : Session) (task_id : ℕ) where
  unfoldable pub record_row :
      External → Result Reason ModuleResult → ℕ → ScanTask → Db → RecordEnd × Db
  record_row x outcome finished task db =
      if task_is_terminal task.status
      then (closed_meanwhile task.status, db)
      else let (status, reason) = final_outcome task outcome in
        elim (mark_task_terminal task status reason finished) [
          | err _ ↦ (record_raised, db)
          | ok t ↦ (
            recorded status reason,
            put_task s task_id t (store_outcome x task outcome finished db),
          )
        ]

  unfoldable pub record_outcome : External → Result Reason ModuleResult → ℕ → Db → RecordEnd × Db
  unfolding record_row
  record_outcome x outcome finished db = elim (find (is_task s task_id) db.tasks) [
    | none ↦ (vanished, db)
    | some task ↦ record_row x outcome finished task db
  ]
