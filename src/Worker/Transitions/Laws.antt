-- ===== src/Worker/Transitions/Laws.antt =====
-- The transitions of one row: when they are allowed, and what they keep.
use testing_platform_backend.Core.Enums.{ScanTaskStatus}
use testing_platform_backend.Prelude.{
  Bool-cases, Option, arith, false, inl, inr, is_some, not, ok, ok-injective, refl, require-ok,
  some, subst, sym, true, ℕ, ◌&&◌, ◌↔◌, ◌∙◌, ◌≡◌,
}
use testing_platform_backend.Worker.Evolution.{JobEvolves, JobEvolves-refl, TaskEvolves}
use testing_platform_backend.Worker.Models.{Reason, ScanJob, ScanTask}
use testing_platform_backend.Worker.Status.{
  job_is_queued, job_is_terminal, task_is_blocked, task_is_queued, task_is_terminal,
}
use testing_platform_backend.Worker.Transitions.{
  already_terminal, mark_job_running, mark_task_running, mark_task_terminal, no_reason,
  not_terminal,
}

-- A task closes just when the new state is terminal, a blocked task has a reason, and the row is
-- still open; the row then has the state, the reason and the instant, and nothing else changes.
pub mark_task_terminal_iff :
    (t u : ScanTask) (st : ScanTaskStatus) (r : Option Reason) (now : ℕ)
    → (mark_task_terminal t st r now ≡ ok u) ↔ (
        (task_is_terminal st ≡ true)
        × (not (task_is_blocked st && not (is_some r)) ≡ true)
        × (task_is_terminal t.status ≡ false)
        × (u ≡ record t { status = st; status_reason = r; finished_at = some now }))
unfolding mark_task_terminal
mark_task_terminal_iff t u st r now = (
  (λ h.
      let (a, h1) = require-ok (task_is_terminal st) not_terminal _ h in
      let (b, h2) = require-ok (not (task_is_blocked st && not (is_some r))) no_reason _ h1 in
      let (c, h3) = require-ok (not (task_is_terminal t.status)) already_terminal _ h2 in
      (a, b, ground arith, sym (ok-injective h3))),
  (λ h. rw (h.0, h.1, h.2, h.3) refl),
)

pub mark_task_terminal-TaskEvolves :
    (t u : ScanTask) (st : ScanTaskStatus) (r : Option Reason) (now : ℕ)
    → mark_task_terminal t st r now ≡ ok u
    → TaskEvolves t u
mark_task_terminal-TaskEvolves t u st r now h =
    let (a, b, c, e) = (mark_task_terminal_iff t u st r now).0 h in
    subst (TaskEvolves t) (sym e) (record {
      same_id = refl;
      same_job = refl;
      same_org = refl;
      same_test = refl;
      frozen = λ f. ground arith;
      keeps = λ k. record {
        blocked_says_why = λ q. ground arith;
        running_has_start = λ q. ground arith;
        terminal_state_has_finish = a;
      };
    })

pub mark_task_running-TaskEvolves :
    (t u : ScanTask) (now : ℕ) → mark_task_running t now ≡ ok u → TaskEvolves t u
unfolding mark_task_running
mark_task_running-TaskEvolves t u now h = elim (Bool-cases (task_is_queued t.status)) [
  | inl y ↦
      let q : task_is_terminal t.status ≡ false = ground arith in
      subst (TaskEvolves t) (ok-injective (rw y at h)) (record {
        same_id = refl;
        same_job = refl;
        same_org = refl;
        same_test = refl;
        frozen = λ f. ground arith;
        keeps = λ k. record {
          blocked_says_why = λ q. cc;
          running_has_start = λ q. refl;
          terminal_state_has_finish = sym q ∙ k.terminal_state_has_finish;
        };
      })
  | inr n ↦ ground arith
]

pub mark_job_running-JobEvolves : (j : ScanJob) (now : ℕ) → JobEvolves j (mark_job_running j now)
unfolding mark_job_running
mark_job_running-JobEvolves j now = elim (Bool-cases (job_is_queued j.status)) [
  | inl y ↦
      let q : job_is_terminal j.status ≡ false = ground arith in
      rw y (record {
        same_id = refl;
        same_org = refl;
        frozen = λ f. ground arith;
        keeps = λ k. record {
          running_has_start = λ q. refl;
          terminal_state_has_finish = sym q ∙ k.terminal_state_has_finish;
          purge_deadline_placement = k.purge_deadline_placement ∙ rw q refl;
        };
      })
  | inr n ↦ rw n (JobEvolves-refl j)
]
