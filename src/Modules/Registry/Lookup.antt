-- ===== src/Modules/Registry/Lookup.antt =====
-- The lookups of a roster (modules/registry.py).
use testing_platform_backend.Modules.Contract.{TestDeclaration}
use testing_platform_backend.Modules.Registry.{
  EntryPoint, LoadedModule, Roster, by_test_key, declares, discover, queue_for, require_on_queue,
}
use testing_platform_backend.Modules.Registry.Discovery.{
  Distinct, Fresh, declared_keys, discover-Distinct, keys_of_tests,
}
use testing_platform_backend.Prelude.{
  Bool, Bool-cases, List, Result-cases, String, [], any, arith, false, inl, inr, ok, refl, str_eq,
  str_eq_iff, subst, true, ◌++◌, ◌||◌, ◌↔◌, ◌∙◌, ◌∷◌, ◌≡◌,
}

abbrev holds : String → List String → Bool
holds k = any (λ j. str_eq j k)

holds-append : (k : String) (xs ys : List String) → holds k (xs ++ ys) ≡ (holds k xs || holds k ys)
holds-append k [] ys = refl
holds-append k (x ∷ xs) ys = ground (arith, holds-append k xs ys)

declares-holds :
    (k : String) (ts : List TestDeclaration)
    → any (λ t. str_eq t.test_key k) ts ≡ holds k (keys_of_tests ts)
declares-holds k [] = refl
declares-holds k (t ∷ ts) = ground (arith, declares-holds k ts)

Fresh-holds :
    (x k : String) (ys : List String) → Fresh x ys → str_eq x k ≡ true → holds k ys ≡ false
Fresh-holds x k [] f e = refl
Fresh-holds x k (y ∷ ys) f e =
    ground (arith, Fresh-holds x k ys f.1 e, str_eq_iff x k, str_eq_iff y k, str_eq_iff x y)

Fresh-append_right : (x : String) (xs ys : List String) → Fresh x (xs ++ ys) → Fresh x ys
Fresh-append_right x [] ys f = f
Fresh-append_right x (z ∷ xs) ys f = Fresh-append_right x xs ys f.1

-- A key of the first part of distinct keys is none of the second.
holds_once :
    (k : String) (xs ys : List String)
    → Distinct (xs ++ ys)
    → holds k ys ≡ true
    → holds k xs ≡ false
holds_once k [] ys d h = refl
holds_once k (x ∷ xs) ys d h =
    ground (arith, holds_once k xs ys d.1 h, Fresh-holds x k ys (Fresh-append_right x xs ys d.0))

Distinct-append_right : (xs ys : List String) → Distinct (xs ++ ys) → Distinct ys
Distinct-append_right [] ys d = d
Distinct-append_right (x ∷ xs) ys d = Distinct-append_right xs ys d.1

-- A declared key is among the keys of any roster that holds its module.
holds_declared :
    (before after : Roster) (e : LoadedModule) (k : String)
    → declares e k ≡ true
    → holds k (declared_keys (before ++ e ∷ after)) ≡ true
holds_declared [] after e k h =
    rw (holds-append k (keys_of_tests e.descriptor.tests) (declared_keys after))
      (ground (arith, declares-holds k e.descriptor.tests))
holds_declared (b ∷ before) after e k h =
    rw (holds-append k (keys_of_tests b.descriptor.tests) (declared_keys (before ++ e ∷ after)))
      (ground (arith, holds_declared before after e k h))

by_test_key-Distinct :
    (before after : Roster) (e : LoadedModule) (k : String)
    → Distinct (declared_keys (before ++ e ∷ after))
    → declares e k ≡ true
    → by_test_key (before ++ e ∷ after) k ≡ ok e
unfolding by_test_key
by_test_key-Distinct [] after e k d h = rw h
by_test_key-Distinct (b ∷ before) after e k d h =
    let rest = declared_keys (before ++ e ∷ after) in
    let bs = keys_of_tests b.descriptor.tests in
    let no_claim : declares b k ≡ false =
      declares-holds k b.descriptor.tests
      ∙ holds_once k bs rest d (holds_declared before after e k h) in
    rw no_claim (by_test_key-Distinct before after e k (Distinct-append_right bs rest d) h)

-- In a discovered roster every test key that a module declares is looked up to that very module,
-- wherever it stands in the roster, and is routed to the queue that this module declares.
by_test_key-discover :
    (ps : List EntryPoint) (before after : Roster) (e : LoadedModule) (k : String)
    → discover ps ≡ ok (before ++ e ∷ after)
    → declares e k ≡ true
    → (by_test_key (before ++ e ∷ after) k ≡ ok e)
      × (queue_for (before ++ e ∷ after) k ≡ ok e.descriptor.queue)
unfolding queue_for
by_test_key-discover ps before after e k h d =
    let found =
      by_test_key-Distinct before after e k (discover-Distinct ps (before ++ e ∷ after) h).1 d in
    (found, rw found)

pub by_test_key-declares :
    (r : Roster) (k : String) (e : LoadedModule) → by_test_key r k ≡ ok e → declares e k ≡ true
unfolding by_test_key
by_test_key-declares [] k e h = cc
by_test_key-declares (x ∷ r) k e h = elim (Bool-cases (declares x k)) [
  | inl y ↦ let q : x ≡ e = ground arith in subst (λ m. declares m k ≡ true) q y
  | inr n ↦ by_test_key-declares r k e (rw n at h)
]

-- The worker's gate passes exactly the module that the lookup finds on the queue it declares:
-- what it returns implements the test and is routed to the queue of the worker, and a test whose
-- module declares the queue of the worker is not refused.
require_on_queue_iff :
    (r : Roster) (k queue : String) (e : LoadedModule)
    → (require_on_queue r k queue ≡ ok e)
      ↔ ((by_test_key r k ≡ ok e) × (e.descriptor.queue ≡ queue))
unfolding require_on_queue
require_on_queue_iff r k queue e = elim (Result-cases (by_test_key r k)) [
  | inl (x, f) ↦ (λ h. ground arith, λ h. ground arith)
  | inr (m, f) ↦ (
    λ h. ground (arith, str_eq_iff m.descriptor.queue queue),
    λ h. ground (arith, str_eq_iff m.descriptor.queue queue),
  )
]
