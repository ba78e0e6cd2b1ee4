-- ===== src/Worker/Events.antt =====
-- worker/events.py: the events of the channel of one job, and the messages to the queues. A failed
-- publish is logged and swallowed, so publishing never changes what the caller does next.
pub mod Committed
use testing_platform_backend.Core.Enums.{ScanJobStatus, ScanTaskStatus}
use testing_platform_backend.Prelude.{
  List, Option, String, [], if◌then◌else◌, map, none, some, ℕ, ◌++◌, ◌∷◌,
}
use testing_platform_backend.Worker.Db.{Db, External, Session}
use testing_platform_backend.Worker.Finalize.{finalize_job_if_done}
use testing_platform_backend.Worker.Models.{Reason}
use testing_platform_backend.Worker.Outcome.{Outcome}
use testing_platform_backend.Worker.Status.{job_is_terminal}

pub data Event : Type 0 where
  job_event : ℕ → ScanJobStatus → Option Reason → ℕ → Event
  end_event : ℕ → ScanJobStatus → ℕ → Event
  task_event : ℕ → ℕ → ScanTaskStatus → Option Reason → ℕ → Event
  heartbeat_event : ℕ → ℕ → Event

-- `publish_job_event`: a terminal state also ends the stream
unfoldable pub publish_job_event : ℕ → Outcome → ℕ → List Event
publish_job_event job_id (status, reason) at =
    job_event job_id status reason at
    ∷ (if job_is_terminal status then end_event job_id status at ∷ [] else [])

-- What a task of the worker does besides its transactions: it publishes events, sends a child to a
-- queue, sends a job to `scan.dispatch`, and revokes a child.
pub data Effect : Type 0 where
  publish : Event → Effect
  send_child : ℕ → Option ℕ → ℕ → String → Effect
  send_dispatch : ℕ → Effect
  revoke : ℕ → Effect

-- The committed database and the effects so far.
pub record World : Type 0 where
  pub db : Db
  pub log : List Effect

abbrev pub emit : List Effect → World → World
emit es w = record w { log = w.log ++ es }

-- `unit.commit()`, then the events of an outcome
unfoldable pub publish_outcome : ℕ → ℕ → World → Option Outcome × Db → World
unfolding publish_job_event
publish_outcome job_id now w (none, db) = record w { db = db }
publish_outcome job_id now w (some out, db) =
    emit (map publish (publish_job_event job_id out now)) (record w { db = db })

-- `_finalize_and_publish`: the commit first, then the events of what it committed
unfoldable pub finalize_and_publish : External → Session → ℕ → ℕ → Option Reason → World → World
unfolding publish_outcome
finalize_and_publish x s job_id now reason_override w =
    publish_outcome job_id now w (finalize_job_if_done x s job_id now reason_override w.db)
