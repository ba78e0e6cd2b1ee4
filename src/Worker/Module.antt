-- ===== src/Worker/Module.antt =====
-- The whole of `run_module`: the transactions, the effects between them, and what it returns.
pub mod Hint
use testing_platform_backend.Core.Enums.{ScanTaskStatus, running}
use testing_platform_backend.Core.Rls.{Role}
use testing_platform_backend.Modules.Findings.{ModuleResult}
use testing_platform_backend.Modules.Registry.{Failure, LoadedModule, Roster}
use testing_platform_backend.Prelude.{Option, Result, String, [], none, some, ℕ, ◌∷◌}
use testing_platform_backend.Worker.Db.{Db, External, Session, hint_session}
use testing_platform_backend.Worker.Events.{World, emit, finalize_and_publish, publish, task_event}
use testing_platform_backend.Worker.Models.{Reason}
use testing_platform_backend.Worker.Run.{
  ClaimEnd, Claimed, RecordEnd, ScanInput, claim, claim_raised, claimed, closed, closed_meanwhile,
  duplicate, record_outcome, record_raised, recorded, run_phase, unreachable, vanished,
}

-- What a delivery is given: the worker's role and queue, the hints, the clock readings, the code of
-- the modules, and what other tasks do to the database while the engine runs.
pub record Delivery : Type 0 where
  pub roster : Roster
  pub worker_queue : String
  pub role : Role
  pub org_hint : Option ℕ
  pub job_hint : Option ℕ
  pub now : ℕ
  pub finished : ℕ
  pub closing : ℕ
  pub run : LoadedModule → ScanInput → Result Failure ModuleResult
  pub meanwhile : World → World

-- `missing` for a row that is not reached, else the status; `raised` for an escaping exception.
pub data Returned : Type 0 where
  missing escaped : Returned
  ended : ScanTaskStatus → Returned

abbrev pub session_of : Delivery → Session
session_of d = hint_session d.role d.org_hint d.job_hint

-- the event of a closed task, then the close of the job
unfoldable pub announce :
    External → Delivery → ℕ → ℕ → ScanTaskStatus → Option Reason → ℕ → World → World
unfolding finalize_and_publish
announce x d job_id task_id st reason at w =
    finalize_and_publish x (session_of d) job_id d.closing none
      (emit (publish (task_event job_id task_id st reason at) ∷ []) w)

-- what follows the last transaction
unfoldable pub after_record :
    External → Delivery → ℕ → ℕ → World → RecordEnd × Db → Returned × World
unfolding announce
after_record x d task_id job_id w (vanished, db) = (missing, w)
after_record x d task_id job_id w (record_raised, db) = (escaped, w)
after_record x d task_id job_id w (closed_meanwhile st, db) = (ended st, w)
after_record x d task_id job_id w (recorded st reason, db) =
    (ended st, announce x d job_id task_id st reason d.finished (record w { db = db }))

-- from the claim on: the running event, the run, and the record of its outcome
unfoldable pub finish_run : External → Delivery → ℕ → Claimed → World → Returned × World
unfolding after_record
finish_run x d task_id c w =
    let running =
      emit (publish (task_event c.job_id task_id ScanTaskStatus.running none d.now) ∷ []) w in
    let later = d.meanwhile running in
    after_record x d task_id c.job_id later
      (record_outcome (session_of d) task_id x (run_phase d.run c) d.finished later.db)

-- what follows the first transaction
unfoldable pub after_claim : External → Delivery → ℕ → World → ClaimEnd × Db → Returned × World
unfolding finish_run
after_claim x d task_id w (unreachable, db) = (missing, w)
after_claim x d task_id w (claim_raised, db) = (escaped, w)
after_claim x d task_id w (duplicate st, db) = (ended st, w)
after_claim x d task_id w (closed job_id st reason, db) =
    (ended st, announce x d job_id task_id st (some reason) d.now (record w { db = db }))
after_claim x d task_id w (claimed c, db) = finish_run x d task_id c (record w { db = db })

unfoldable pub run_module : External → Delivery → ℕ → World → Returned × World
unfolding after_claim
run_module x d task_id w =
    after_claim x d task_id w (claim (session_of d) task_id d.roster d.worker_queue d.now w.db)
