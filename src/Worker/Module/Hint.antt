-- ===== src/Worker/Module/Hint.antt =====
-- The hint of a message selects what the worker may read, and the row decides.
use testing_platform_backend.Core.Rls.{app, no_context, reaches, set_org_context}
use testing_platform_backend.Core.Rls.Reach.{reaches-set_org_context}
use testing_platform_backend.Prelude.{
  ==_iff, All, All-map, Bool-cases, List, Option, [], ap, arith, false, find, inl, inr, none, refl,
  some, ℕ, ◌==◌, ◌∷◌, ◌≡◌, ◌≢◌,
}
use testing_platform_backend.Worker.Db.{External, Session, hint_session, is_task, sees_task}
use testing_platform_backend.Worker.Events.{World}
use testing_platform_backend.Worker.Models.{ScanTask}
use testing_platform_backend.Worker.Module.{Delivery, after_claim, missing, run_module, session_of}
use testing_platform_backend.Worker.Run.{claim, unreachable}

find-none :
    (s : Session) (id : ℕ) (ts : List ScanTask)
    → All (λ t. t.id ≡ id → sees_task s t ≡ false) ts
    → find (is_task s id) ts ≡ none
find-none s id [] h = refl
find-none s id (t ∷ ts) h = elim (Bool-cases (t.id == id)) [
  | inl y ↦
      let n : is_task s id t ≡ false = rw (h.0 ((==_iff t.id id).0 y)) (ground arith) in
      rw n (find-none s id ts h.1)
  | inr n ↦ rw n (find-none s id ts h.1)
]

hint_hides :
    (org : ℕ) (job : Option ℕ) (t : ScanTask)
    → t.organization_id ≢ some org
    → sees_task (hint_session app (some org) job) t ≡ false
unfolding hint_session
hint_hides org job t n =
    elim (Bool-cases
      (reaches app (set_org_context org none no_context) t.organization_id t.scan_job_id)) [
        | inl y ↦
            absurd (
              n ((reaches-set_org_context no_context org none t.organization_id t.scan_job_id).0 y))
        | inr m ↦ m
      ]

module _ (x : External) (d : Delivery) (task_id : ℕ) (w : World) where
  unseen :
      All (λ t. t.id ≡ task_id → sees_task (session_of d) t ≡ false) w.db.tasks
      → run_module x d task_id w ≡ (missing, w)
  unfolding run_module after_claim claim
  unseen h =
      let e : claim (session_of d) task_id d.roster d.worker_queue d.now w.db
          ≡ (unreachable, w.db) =
        rw (claim, find-none (session_of d) task_id w.db.tasks h) refl in
      ap (after_claim x d task_id w) e

  -- On an egress queue a message whose organization hint is not the organization of the task ends
  -- with `missing`: nothing is read of the task, nothing is written, and nothing is published.
  pub run_module-wrong_org :
      (org : ℕ)
      → d.role ≡ app
      → d.org_hint ≡ some org
      → All (λ t. t.id ≡ task_id → t.organization_id ≢ some org) w.db.tasks
      → run_module x d task_id w ≡ (missing, w)
  run_module-wrong_org org a b h = unseen (
      All-map (λ t. t.id ≡ task_id → t.organization_id ≢ some org)
        (λ t. t.id ≡ task_id → sees_task (session_of d) t ≡ false) w.db.tasks
        (λ t f e. rw (a, b) (hint_hides org d.job_hint t (f e))) h)
