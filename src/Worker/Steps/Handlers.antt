-- ===== src/Worker/Steps/Handlers.antt =====
-- The tasks of the worker as runs of the machine.
use testing_platform_backend.Core.Enums.{ScanTaskStatus}
use testing_platform_backend.Modules.Registry.{Roster}
use testing_platform_backend.Prelude.{List, Option, [], keep, map, none, some, ℕ, ◌+◌, ◌∷◌}
use testing_platform_backend.Worker.Db.{Db, External, Session}
use testing_platform_backend.Worker.Dispatch.{
  Dispatched, absent, after_dispatch, already_closed, dispatch, dispatch_raised,
  dispatch_transaction, fanned_out, platform_session,
}
use testing_platform_backend.Worker.Events.{
  World, emit, finalize_and_publish, publish, send_dispatch, task_event,
}
use testing_platform_backend.Worker.Events.Committed.{finalize_and_publish_db}
use testing_platform_backend.Worker.Finalize.{finalize_job_if_done}
use testing_platform_backend.Worker.Models.{Reason, ScanJob}
use testing_platform_backend.Worker.Module.{
  Delivery, after_claim, after_record, announce, finish_run, run_module, session_of,
}
use testing_platform_backend.Worker.Reap.{
  Sweep, after_sweep, is_stranded, is_stuck, reap, reap_all, reap_stuck_job, reap_transaction,
  timeout_override,
}
use testing_platform_backend.Worker.Run.{
  ClaimEnd, Claimed, RecordEnd, claim, claim_raised, claimed, closed, closed_meanwhile, duplicate,
  record_outcome, record_raised, recorded, run_phase, unreachable, vanished,
}
use testing_platform_backend.Worker.Steps.{
  Step, Steps, and_then, at_rest, claiming, dispatching, finalizing, recording, sweeping,
}

module _ (x : External) where
  Steps-trans : (a b c : Db) → Steps x a b → Steps x b c → Steps x a c
  Steps-trans _ _ c (at_rest db) t = t
  Steps-trans _ _ d (and_then a b c s r) t = and_then a b d s (Steps-trans b c d r t)

  one : (a b : Db) → Step x a b → Steps x a b
  one a b s = and_then a b b s (at_rest b)

  closes :
      (s : Session) (job_id now : ℕ) (o : Option Reason) (w : World)
      → Steps x w.db (finalize_and_publish x s job_id now o w).db
  closes s job_id now o w =
      rw (finalize_and_publish_db x s job_id now o w)
        (one w.db (finalize_job_if_done x s job_id now o w.db).1 (finalizing s job_id now o w.db))

  dispatched :
      (job_id now closing : ℕ) (w : World) (p : Dispatched × Db)
      → Steps x w.db p.1
      → Steps x w.db (after_dispatch x job_id now closing w p).0.db
  unfolding after_dispatch
  dispatched job_id now closing w (absent, db) r = at_rest w.db
  dispatched job_id now closing w (already_closed, db) r = at_rest w.db
  dispatched job_id now closing w (dispatch_raised, db) r = at_rest w.db
  dispatched job_id now closing w (fanned_out org ann messages, db) r =
      Steps-trans w.db db _ r (closes platform_session job_id closing none _)

  -- What `dispatch` commits is a run of the machine.
  dispatch-Steps :
      (r : Roster) (job_id now closing : ℕ) (w : World)
      → Steps x w.db (dispatch x r job_id now closing w).0.db
  unfolding dispatch
  dispatch-Steps r job_id now closing w =
      dispatched job_id now closing w (dispatch_transaction x r job_id now w.db)
        (one w.db (dispatch_transaction x r job_id now w.db).1 (dispatching r job_id now w.db))

  announced_steps :
      (d : Delivery) (job_id task_id : ℕ) (st : ScanTaskStatus) (reason : Option Reason) (at : ℕ)
      (w : World)
      → Steps x w.db (announce x d job_id task_id st reason at w).db
  unfolding announce
  announced_steps d job_id task_id st reason at w = closes (session_of d) job_id d.closing none _

  record_steps :
      (d : Delivery) (task_id job_id : ℕ) (w : World) (p : RecordEnd × Db)
      → Steps x w.db p.1
      → Steps x w.db (after_record x d task_id job_id w p).1.db
  unfolding after_record
  record_steps d task_id job_id w (vanished, db) r = at_rest w.db
  record_steps d task_id job_id w (record_raised, db) r = at_rest w.db
  record_steps d task_id job_id w (closed_meanwhile st, db) r = at_rest w.db
  record_steps d task_id job_id w (recorded st reason, db) r =
      Steps-trans w.db db _ r
        (announced_steps d job_id task_id st reason d.finished (record w { db = db }))

  finish_run-Steps :
      (d : Delivery) (task_id : ℕ) (c : Claimed) (w : World)
      → ((v : World) → Steps x v.db (d.meanwhile v).db)
      → Steps x w.db (finish_run x d task_id c w).1.db
  unfolding finish_run
  finish_run-Steps d task_id c w m =
      let running =
        emit (publish (task_event c.job_id task_id ScanTaskStatus.running none d.now) ∷ []) w in
      let later = d.meanwhile running in
      let end = record_outcome (session_of d) task_id x (run_phase d.run c) d.finished later.db in
      Steps-trans w.db later.db _ (m running) (
        record_steps d task_id c.job_id later end (
          one later.db end.1
            (recording (session_of d) task_id (run_phase d.run c) d.finished later.db)))

  claim_steps :
      (d : Delivery) (task_id : ℕ) (w : World) (p : ClaimEnd × Db)
      → ((v : World) → Steps x v.db (d.meanwhile v).db)
      → Steps x w.db p.1
      → Steps x w.db (after_claim x d task_id w p).1.db
  unfolding after_claim
  claim_steps d task_id w (unreachable, db) m r = at_rest w.db
  claim_steps d task_id w (claim_raised, db) m r = at_rest w.db
  claim_steps d task_id w (duplicate st, db) m r = at_rest w.db
  claim_steps d task_id w (closed job_id st reason, db) m r =
      Steps-trans w.db db _ r
        (announced_steps d job_id task_id st (some reason) d.now (record w { db = db }))
  claim_steps d task_id w (claimed c, db) m r =
      Steps-trans w.db db _ r (finish_run-Steps d task_id c (record w { db = db }) m)

  -- What `run_module` commits, together with what the other tasks commit while its engine runs, is a
  -- run of the machine, as long as those commit runs of the machine.
  pub run_module-Steps :
      (d : Delivery) (task_id : ℕ) (w : World)
      → ((v : World) → Steps x v.db (d.meanwhile v).db)
      → Steps x w.db (run_module x d task_id w).1.db
  unfolding run_module
  run_module-Steps d task_id w m =
      let end = claim (session_of d) task_id d.roster d.worker_queue d.now w.db in
      claim_steps d task_id w end m
        (one w.db end.1 (claiming (session_of d) task_id d.roster d.worker_queue d.now w.db))

  sweep_steps :
      (job_id swept closing : ℕ) (w : World) (p : Option (List ℕ) × Db)
      → Steps x w.db p.1
      → Steps x w.db (after_sweep x job_id swept closing w p).db
  unfolding after_sweep
  sweep_steps job_id swept closing w (none, db) r = at_rest w.db
  sweep_steps job_id swept closing w (some ids, db) r =
      Steps-trans w.db db _ r (closes platform_session job_id closing (timeout_override ids) _)

  reap_all-Steps :
      (clock : ℕ → ℕ × ℕ) (n : ℕ) (js : List ScanJob) (w : World)
      → Steps x w.db (reap_all x clock n js w).db
  unfolding reap_all reap_stuck_job
  reap_all-Steps clock n [] w = at_rest w.db
  reap_all-Steps clock n (j ∷ js) w =
      let (swept, closing) = clock n in
      let first = reap_stuck_job x j.id swept closing w in
      Steps-trans w.db first.db _
        (sweep_steps j.id swept closing w (reap_transaction j.id swept w.db)
          (one w.db (reap_transaction j.id swept w.db).1 (sweeping j.id swept w.db)))
        (reap_all-Steps clock (n + 1) js first)

  -- What `reap` commits is a run of the machine.
  reap-Steps : (sweep : Sweep) (w : World) → Steps x w.db (reap x sweep w).0.db
  unfolding reap
  reap-Steps sweep w =
      reap_all-Steps sweep.clock 0 (keep (is_stuck sweep) w.db.jobs)
        (emit (map (λ j. send_dispatch j.id) (keep (is_stranded sweep w.db) w.db.jobs)) w)
