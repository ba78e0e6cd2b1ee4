-- ===== src/Worker/Run/Gate.antt =====
-- What a worker that claimed a task may rely on: the egress gate, and one claim per task.
use testing_platform_backend.Core.Enums.{ScanTaskStatus}
use testing_platform_backend.Modules.Registry.{LoadedModule, Roster, by_test_key}
use testing_platform_backend.Prelude.{
  Result-cases, String, ap, arith, find, find-modify, find_holds, inl, inr, none, ok, refl, some,
  str_eq_iff, subst, sym, ℕ, ◌∙◌, ◌≡◌,
}
use testing_platform_backend.Worker.Db.{Db, Session, is_task}
use testing_platform_backend.Worker.Models.{ScanTask, task_canceled}
use testing_platform_backend.Worker.Run.{
  Claimed, claim, claim_row, claimed, closed, duplicate, gate, resolve, unreachable,
}
use testing_platform_backend.Worker.Run.Claim.{Claiming, claim-Claiming, moved, running_row}

gate-ok :
    (r : Roster) (worker_queue key : String) (e : LoadedModule)
    → gate r worker_queue key ≡ ok e
    → (by_test_key r key ≡ ok e) × (e.descriptor.queue ≡ worker_queue)
unfolding gate
gate-ok r worker_queue key e h = elim (Result-cases (by_test_key r key)) [
  | inl (x, f) ↦ ground arith
  | inr (m, f) ↦ ground (arith, str_eq_iff m.descriptor.queue worker_queue)
]

module _ (s : Session) (task_id : ℕ) (r : Roster) (worker_queue : String) (now : ℕ) (db : Db) where
  -- what a claim that succeeded says of the row `t` and of the state after it
  abbrev Owns : Claimed → Db → ScanTask → Type 0
  Owns c after t =
      (find (is_task s task_id) db.tasks ≡ some t)
      × (t.status ≡ ScanTaskStatus.queued)
      × (t.cancellation_requested_at ≡ none)
      × (by_test_key r t.test_key ≡ ok c.entry)
      × (c.entry.descriptor.queue ≡ worker_queue)
      × (c.job_id ≡ t.scan_job_id)
      × (find (is_task s task_id) after.tasks
          ≡ some (running_row s task_id r worker_queue now db t))

  found_running :
      (t : ScanTask)
      → find (is_task s task_id) db.tasks ≡ some t
      → find
          (is_task s task_id)
          (moved s task_id r worker_queue now db
            (running_row s task_id r worker_queue now db t)).tasks
        ≡ some (running_row s task_id r worker_queue now db t)
  found_running t f =
      find-modify (is_task s task_id) (λ _. running_row s task_id r worker_queue now db t) db.tasks
        f (find_holds (is_task s task_id) db.tasks f)

  Claiming-Owns :
      (t : ScanTask) (c : Claimed) (after : Db)
      → find (is_task s task_id) db.tasks ≡ some t
      → Claiming s task_id r worker_queue now db t (claimed c, after)
      → Owns c after t
  unfolding resolve
  Claiming-Owns t c after f (inl (n, e)) =
      let z : claimed c ≡ duplicate t.status = ap (λ p. p.0) e in cc
  Claiming-Owns t c after f (inr (inl (q, n, e))) =
      let z : claimed c ≡ closed t.scan_job_id ScanTaskStatus.canceled task_canceled =
        ap (λ p. p.0) e in
      cc
  Claiming-Owns t c after f (inr (inr (inl (reason, q, n, g, e)))) =
      let z : claimed c ≡ closed t.scan_job_id ScanTaskStatus.blocked reason = ap (λ p. p.0) e in cc
  Claiming-Owns t c after f (inr (inr (inr (entry, q, n, g, e)))) =
      let (k, o) = gate-ok r worker_queue t.test_key entry g in
      let z : claimed c ≡ claimed (resolve s task_id entry t db) = ap (λ p. p.0) e in
      let same : c ≡ resolve s task_id entry t db = cc in
      let there = ap (λ p. p.1) e in
      (f, q, n, rw same k, rw same o, rw same refl, rw there (found_running t f))

  -- A claim succeeds only on a waiting row without a request for cancellation, for a module that
  -- implements the test of the row and declares the queue of this worker; the row is then running.
  pub claim-claimed :
      (c : Claimed) (after : Db)
      → claim s task_id r worker_queue now db ≡ (claimed c, after)
      → (t : ScanTask) × Owns c after t
  claim-claimed c after h = elim (claim-Claiming s task_id r worker_queue now db) [
    | inl (n, e) ↦ let z : claimed c ≡ unreachable = ap (λ p. p.0) (sym h ∙ e) in cc
    | inr (t, f, k) ↦
        (t, Claiming-Owns t c after f (subst (Claiming s task_id r worker_queue now db t) h k))
  ]

  -- A redelivered message after a claim is a duplicate that writes nothing, on whichever worker and
  -- with whatever roster it arrives.
  pub claim-once :
      (c : Claimed) (after : Db) (r' : Roster) (queue' : String) (later : ℕ)
      → claim s task_id r worker_queue now db ≡ (claimed c, after)
      → claim s task_id r' queue' later after ≡ (duplicate ScanTaskStatus.running, after)
  unfolding claim claim_row
  claim-once c after r' queue' later h =
      let (t, (f, q, n, k, o, same, found)) = claim-claimed c after h in
      rw (claim, found, claim_row) refl
