-- ===== src/Worker/Matrix/Planning.antt =====
-- The matrix of tasks: what planning gives for each entry of the catalog.
use testing_platform_backend.Core.Enums.{ScanModule}
use testing_platform_backend.Modules.Catalog.{CatalogEntry, tests_for_module}
use testing_platform_backend.Modules.Contract.{TestDeclaration}
use testing_platform_backend.Modules.Registry.{LoadedModule, RegistryError, Roster, by_test_key}
use testing_platform_backend.Modules.Registry.Lookup.{by_test_key-declares}
use testing_platform_backend.Prelude.{
  All2, All2-append, Bool-cases, List, Result, Result-cases, Some, String, [], any, err, inl, inr,
  none, ok, refl, some, str_eq, str_eq_iff, true, ◌++◌, ◌∷◌, ◌≡◌,
}
use testing_platform_backend.Worker.Matrix.{
  TaskSpec, blocked_spec, find_test, plan_entries, plan_entry, plan_task_matrix, ready_spec,
}
use testing_platform_backend.Worker.Models.{task_module_unavailable}

-- the catalog, module by module in the order of the launch
abbrev pub requested : List ScanModule → List CatalogEntry
requested [] = []
requested (m ∷ ms) = tests_for_module m ++ requested ms

-- A test without a module is blocked with the reason; one with a module goes to the queue and has
-- the version that the module declares for it.
abbrev pub Resolved : Result RegistryError LoadedModule → TaskSpec → Type 0
Resolved (err _) s =
    (s.queue ≡ none)
    × (s.blocked_reason ≡ some task_module_unavailable)
    × (s.test_version ≡ "unknown")
Resolved (ok m) s =
    (s.queue ≡ some m.descriptor.queue)
    × (s.blocked_reason ≡ none)
    × Some (λ t. (t.test_key ≡ s.test_key) × (t.test_version ≡ s.test_version)) m.descriptor.tests

abbrev pub Planned : Roster → CatalogEntry → TaskSpec → Type 0
Planned r e s =
    (s.test_key ≡ e.test_key)
    × (s.spec_module ≡ e.entry_module)
    × (s.classification ≡ e.classification)
    × Resolved (by_test_key r e.test_key) s

find_test-declared :
    (k : String) (ts : List TestDeclaration)
    → any (λ t. str_eq t.test_key k) ts ≡ true
    → (t : TestDeclaration) × (find_test k ts ≡ some t)
      × Some (λ d. (d.test_key ≡ k) × (d.test_version ≡ t.test_version)) ts
unfolding find_test
find_test-declared k [] h = cc
find_test-declared k (t ∷ ts) h = elim (Bool-cases (str_eq t.test_key k)) [
  | inl y ↦ (t, rw y refl, inl ((str_eq_iff t.test_key k).0 y, refl))
  | inr n ↦ let (d, f, m) = find_test-declared k ts (rw n at h) in (d, rw n f, inr m)
]

plan_entry-Planned :
    (r : Roster) (e : CatalogEntry) → (s : TaskSpec) × (plan_entry r e ≡ ok s) × Planned r e s
unfolding plan_entry
plan_entry-Planned r e = elim (Result-cases (by_test_key r e.test_key)) [
  | inl (x, f) ↦
      (blocked_spec e, rw (plan_entry, f) refl, rw f (refl, refl, refl, (refl, refl, refl)))
  | inr (m, f) ↦
      let (d, g, declared) =
        find_test-declared e.test_key m.descriptor.tests (by_test_key-declares r e.test_key m f) in
      (
        ready_spec e m d,
        rw (plan_entry, f, g) refl,
        rw f (refl, refl, refl, (refl, refl, declared)),
      )
]

plan_entries-Planned :
    (r : Roster) (es : List CatalogEntry)
    → (ss : List TaskSpec) × (plan_entries r es ≡ ok ss) × All2 (Planned r) es ss
unfolding plan_entries
plan_entries-Planned r [] = ([], refl, tt)
plan_entries-Planned r (e ∷ es) =
    let (s, f, p) = plan_entry-Planned r e in
    let (ss, g, ps) = plan_entries-Planned r es in (s ∷ ss, rw (f, g) refl, (p, ps))

-- Planning raises for no roster and no request: it gives one task per executable test of the
-- requested modules, in launch order and then in catalog order, each resolved against the roster.
pub plan_task_matrix-Planned :
    (ms : List ScanModule) (r : Roster)
    → (ss : List TaskSpec) × (plan_task_matrix ms r ≡ ok ss) × All2 (Planned r) (requested ms) ss
unfolding plan_task_matrix
plan_task_matrix-Planned [] r = ([], refl, tt)
plan_task_matrix-Planned (m ∷ ms) r =
    let (ss, f, p) = plan_entries-Planned r (tests_for_module m) in
    let (rest, g, q) = plan_task_matrix-Planned ms r in
    (
      ss ++ rest,
      rw (f, g) refl,
      All2-append (Planned r) (tests_for_module m) (requested ms) ss rest p q,
    )
