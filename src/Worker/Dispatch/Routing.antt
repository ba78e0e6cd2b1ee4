-- ===== src/Worker/Dispatch/Routing.antt =====
-- The loop of `dispatch` over the children: it never raises, and it sends what waits.
use testing_platform_backend.Core.Enums.{ScanTaskStatus}
use testing_platform_backend.Modules.Registry.{Roster, queue_for}
use testing_platform_backend.Prelude.{
  All, All-map, Bool, Bool-cases, List, Option, Option-cases, Result-cases, Some, String, [], ap,
  arith, false, inl, inr, is_some, map, none, not, ok, refl, some, subst, ℕ, ◌||◌, ◌∷◌, ◌≡◌,
}
use testing_platform_backend.Worker.Dispatch.{route_rows, route_task}
use testing_platform_backend.Worker.Evolution.{TaskEvolves, TaskEvolves-refl, Tasks}
use testing_platform_backend.Worker.Models.{ScanTask, task_module_unavailable}
use testing_platform_backend.Worker.Status.{is_queued_of, task_is_queued, task_is_terminal}
use testing_platform_backend.Worker.Transitions.{mark_task_terminal}
use testing_platform_backend.Worker.Transitions.Laws.{
  mark_task_terminal-TaskEvolves, mark_task_terminal_iff,
}

-- what the transaction says about the row that it sends
abbrev pub Sent : Roster → ScanTask → Option (ℕ × String) → Type 0
Sent r u none = Unit
Sent r u (some (id, queue)) =
    (id ≡ u.id)
    × (u.status ≡ ScanTaskStatus.queued)
    × (u.cancellation_requested_at ≡ none)
    × (queue_for r u.test_key ≡ ok queue)

abbrev Routed : Roster → ScanTask → ScanTask → Option (ℕ × String) → Type 0
Routed r t u m = TaskEvolves t u × Sent r u m

route_task-Routed :
    (r : Roster) (now : ℕ) (t : ScanTask)
    → (u : ScanTask) × (m : Option (ℕ × String)) × (route_task r now t ≡ ok (u, m)) × Routed r t u m
unfolding route_task
route_task-Routed r now t =
    elim (Bool-cases (not (task_is_queued t.status) || is_some t.cancellation_requested_at)) [
      | inl y ↦ (t, none, rw (route_task, y) refl, (TaskEvolves-refl t, tt))
      | inr n ↦
          let q : t.status ≡ ScanTaskStatus.queued = is_queued_of t.status (ground arith) in
          let live : task_is_terminal t.status ≡ false = ap task_is_terminal q in
          elim (Result-cases (queue_for r t.test_key)) [
            | inl (x, f) ↦
                let u = record t {
                  status = ScanTaskStatus.blocked;
                  status_reason = some task_module_unavailable;
                  finished_at = some now;
                } in
                let e : mark_task_terminal t ScanTaskStatus.blocked (some task_module_unavailable)
                      now
                    ≡ ok u =
                  (mark_task_terminal_iff t u ScanTaskStatus.blocked (some task_module_unavailable)
                      now).1
                    (refl, refl, live, refl) in
                (
                  u,
                  none,
                  rw (route_task, n, f, e) refl,
                  (
                    mark_task_terminal-TaskEvolves t u ScanTaskStatus.blocked
                        (some task_module_unavailable) now e,
                    tt,
                  ),
                )
            | inr (queue, f) ↦
                let c : t.cancellation_requested_at ≡ none = ground arith in
                (
                  t,
                  some (t.id, queue),
                  rw (route_task, n, f) refl,
                  (TaskEvolves-refl t, (refl, q, c, f)),
                )
          ]
    ]

-- The rows after the loop over the children.
abbrev pub SentAll : Roster → List ScanTask → List (ℕ × String) → Type 0
SentAll r us = All (λ m. Some (λ u. Sent r u (some m)) us)

abbrev pub task_ids : List ScanTask → List ℕ
task_ids ts = map (λ t. t.id) ts

behind :
    (r : Roster) (v : ScanTask) (us : List ScanTask) (ms : List (ℕ × String))
    → SentAll r us ms
    → SentAll r (v ∷ us) ms
behind r v us ms s =
    All-map (λ m. Some (λ u. Sent r u (some m)) us) (λ m. Some (λ u. Sent r u (some m)) (v ∷ us)) ms
      (λ m k. inr k) s

pub route_rows-Routed :
    (child : ScanTask → Bool) (r : Roster) (now : ℕ) (ts : List ScanTask)
    → (us : List ScanTask) × (ms : List (ℕ × String)) × (route_rows child r now ts ≡ ok (us, ms))
      × Tasks ts us
      × SentAll r us ms
      × (task_ids us ≡ task_ids ts)
unfolding route_rows
route_rows-Routed child r now [] = ([], [], refl, tt, tt, refl)
route_rows-Routed child r now (t ∷ ts) =
    let (us, ms, e, g, s, i) = route_rows-Routed child r now ts in
    elim (Bool-cases (child t)) [
      | inl y ↦
          let (u, m, f, (k, n)) = route_task-Routed r now t in
          elim (Option-cases m) [
            | inl z ↦ (
              u ∷ us,
              ms,
              rw (y, f, z, e) refl,
              (k, g),
              behind r u us ms s,
              rw (k.same_id, i) refl,
            )
            | inr (a, z) ↦ (
              u ∷ us,
              a ∷ ms,
              rw (y, f, z, e) refl,
              (k, g),
              (inl (subst (Sent r u) z n), behind r u us ms s),
              rw (k.same_id, i) refl,
            )
          ]
      | inr n ↦ (t ∷ us, ms, rw (n, e) refl, (TaskEvolves-refl t, g), behind r t us ms s, rw i refl)
    ]
