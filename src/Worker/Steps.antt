-- ===== src/Worker/Steps.antt =====
-- The transactions of all the workers as the steps of one machine, in any order and any number.
pub mod Invariants
pub mod Handlers
use testing_platform_backend.Modules.Findings.{ModuleResult}
use testing_platform_backend.Modules.Registry.{Roster}
use testing_platform_backend.Prelude.{Option, Result, String, ℕ}
use testing_platform_backend.Worker.Db.{Db, External, Session}
use testing_platform_backend.Worker.Dispatch.{dispatch_transaction}
use testing_platform_backend.Worker.Finalize.{finalize_job_if_done}
use testing_platform_backend.Worker.Models.{Reason}
use testing_platform_backend.Worker.Reap.{reap_transaction}
use testing_platform_backend.Worker.Run.{claim, record_outcome}

-- One committed transaction of `dispatch`, `run_module` or `reap`.
pub data Step (x : External) : Db → Db → Type 0 where
  dispatching :
      (r : Roster) (job_id now : ℕ) (db : Db) → Step x db (dispatch_transaction x r job_id now db).1
  claiming :
      (s : Session) (task_id : ℕ) (r : Roster) (queue : String) (now : ℕ) (db : Db)
      → Step x db (claim s task_id r queue now db).1
  recording :
      (s : Session) (task_id : ℕ) (outcome : Result Reason ModuleResult) (finished : ℕ) (db : Db)
      → Step x db (record_outcome s task_id x outcome finished db).1
  finalizing :
      (s : Session) (job_id now : ℕ) (o : Option Reason) (db : Db)
      → Step x db (finalize_job_if_done x s job_id now o db).1
  sweeping : (job_id swept : ℕ) (db : Db) → Step x db (reap_transaction job_id swept db).1

-- A run of the machine.
pub data Steps (x : External) : Db → Db → Type 0 where
  at_rest : (db : Db) → Steps x db db
  and_then : (a b c : Db) → Step x a b → Steps x b c → Steps x a c
