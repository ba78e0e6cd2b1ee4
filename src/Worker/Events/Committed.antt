-- ===== src/Worker/Events/Committed.antt =====
-- `_finalize_and_publish`: what it publishes is what it committed.
use testing_platform_backend.Core.Enums.{ScanJobStatus}
use testing_platform_backend.Prelude.{
  Option, [], ap, find, inl, inr, none, refl, some, true, ℕ, ◌++◌, ◌∙◌, ◌∷◌, ◌≡◌, ◌⊎◌,
}
use testing_platform_backend.Worker.Db.{Db, External, Session, is_job}
use testing_platform_backend.Worker.Events.{
  World, end_event, finalize_and_publish, job_event, publish, publish_job_event, publish_outcome,
}
use testing_platform_backend.Worker.Finalize.{child_statuses, close_job, finalize_job_if_done}
use testing_platform_backend.Worker.Finalize.Laws.{
  Verdict-terminal, closed_db, finalize-cases, finalize-inverse,
}
use testing_platform_backend.Worker.Models.{Reason, ScanJob}
use testing_platform_backend.Worker.Outcome.{Outcome}
use testing_platform_backend.Worker.Status.{job_is_terminal}

module _ (x : External) (s : Session) (job_id now : ℕ) (o : Option Reason) (w : World) where
  publish_outcome_db : (p : Option Outcome × Db) → (publish_outcome job_id now w p).db ≡ p.1
  unfolding publish_outcome
  publish_outcome_db (none, db) = refl
  publish_outcome_db (some out, db) = refl

  pub finalize_and_publish_db :
      (finalize_and_publish x s job_id now o w).db ≡ (finalize_job_if_done x s job_id now o w.db).1
  unfolding finalize_and_publish
  finalize_and_publish_db = publish_outcome_db (finalize_job_if_done x s job_id now o w.db)

  -- Either nothing is written and nothing is published, or the job is closed and the two events that
  -- follow, one with the state and one that ends the stream, carry the state, the reason and the
  -- instant of the row that is committed.
  pub finalize_and_publish_lem :
      (finalize_and_publish x s job_id now o w ≡ w)
      ⊎ ((row : ScanJob) × (st : ScanJobStatus) × (r : Option Reason) × (find
              (is_job s job_id)
              (finalize_and_publish x s job_id now o w).db.jobs
            ≡ some row)
          × (row.status ≡ st)
          × (row.status_reason ≡ r)
          × (row.finished_at ≡ some now)
          × ((finalize_and_publish x s job_id now o w).log
              ≡ w.log
                ++ publish (job_event job_id st r now) ∷ publish (end_event job_id st now) ∷ []))
  unfolding finalize_and_publish publish_outcome publish_job_event close_job
  finalize_and_publish_lem = elim (finalize-cases x s job_id now o w.db) [
    | inl e ↦ inl (ap (publish_outcome job_id now w) e)
    | inr (job, (st, r), c, e) ↦
        let (job', f, live, all_ended, v, tasks, found) =
          finalize-inverse x s job_id now o w.db (st, r) (closed_db x s job_id now o w.db (st, r))
            e in
        let closes : job_is_terminal st ≡ true =
          Verdict-terminal st (child_statuses s job_id w.db) v in
        inr (
          close_job x now (st, r) job',
          st,
          r,
          rw (finalize_and_publish_db, e) found,
          refl,
          refl,
          refl,
          ap (λ p. (publish_outcome job_id now w p).log) e ∙ rw (publish_job_event, closes) refl,
        )
  ]
