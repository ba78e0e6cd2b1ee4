-- ===== src/Modules/Contract/Descriptors.antt =====
-- What a module descriptor guarantees (modules/contract.py).
use testing_platform_backend.Core.Enums.{module_value}
use testing_platform_backend.Modules.Contract.{
  ModuleDescriptor, TestDeclaration, has_duplicates, in_namespace, is_prefix, module_descriptor,
  queue_by_classification,
}
use testing_platform_backend.Modules.Namespaced.{codes}
use testing_platform_backend.Modules.Registry.Discovery.{Distinct, keys_of_tests}
use testing_platform_backend.Prelude.{
  All, All-all, All-map, All-not_any, Bool, List, String, [], all, all-All, arith, false, length,
  map, not, not_any-All, ok, refl, str_eq, str_eq_iff, true, ℕ, ◌&&◌, ◌++◌, ◌==◌, ◌↔◌, ◌∷◌, ◌≡◌,
  ◌≢◌,
}

-- The text begins with `start`.
abbrev pub Begins : List ℕ → List ℕ → Type 0
Begins start s = (rest : List ℕ) × (s ≡ start ++ rest)

-- The queue of its classification, an engine, and at least one test; the test keys are distinct and
-- each begins with the name of the module and a dot.
pub record Declared (d : ModuleDescriptor) : Type 0 where
  pub queue_fits : d.queue ≡ queue_by_classification d.classification
  pub has_engine : d.engine ≢ ""
  pub has_engine_version : d.engine_version ≢ ""
  pub has_tests : d.tests ≢ []
  pub keys_distinct : Distinct (keys_of_tests d.tests)
  pub keys_in_namespace :
      All (λ t. Begins (codes (module_value d.name) ++ 46 ∷ []) (codes t.test_key)) d.tests

is_prefix_iff : (p s : List ℕ) → (is_prefix p s ≡ true) ↔ Begins p s
unfolding is_prefix
is_prefix_iff [] s = (λ h. (s, refl), λ h. refl)
is_prefix_iff (p ∷ ps) [] = (λ h. cc, λ h. ground arith)
is_prefix_iff (p ∷ ps) (c ∷ s) = (
  λ h.
      let (rest, e) = (is_prefix_iff ps s).0 (ground arith) in
      let same : c ≡ p = ground arith in (rest, grind arith),
  λ h.
      let (rest, e) = h in
      let tail : is_prefix ps s ≡ true = (is_prefix_iff ps s).1 (rest, grind arith) in
      let same : c ≡ p = grind arith in ground arith,
)

has_duplicates_iff : (ks : List String) → (has_duplicates ks ≡ false) ↔ Distinct ks
unfolding has_duplicates
has_duplicates_iff [] = (λ h. tt, λ h. refl)
has_duplicates_iff (k ∷ ks) = (
  λ h. (not_any-All (λ j. str_eq k j) ks (ground arith), (has_duplicates_iff ks).0 (ground arith)),
  λ h. ground (arith, All-not_any (λ j. str_eq k j) ks h.0, (has_duplicates_iff ks).1 h.1),
)

str_eq-false : (a b : String) → a ≢ b → str_eq a b ≡ false
str_eq-false a b n = ground (arith, str_eq_iff a b)

-- The five tests of the constructor, in its order.
abbrev tests_of : ModuleDescriptor → Bool × Bool × Bool × Bool × Bool
tests_of d = (
  str_eq d.queue (queue_by_classification d.classification),
  not (str_eq d.engine "") && not (str_eq d.engine_version ""),
  not (length d.tests == 0),
  not (has_duplicates (map (λ t. t.test_key) d.tests)),
  all (λ t. in_namespace d.name t.test_key) d.tests,
)

abbrev Passes : Bool × Bool × Bool × Bool × Bool → Type 0
Passes (queue, engine, some_test, distinct, local) =
    (queue ≡ true) × (engine ≡ true) × (some_test ≡ true) × (distinct ≡ true) × (local ≡ true)

module_descriptor-Passes :
    (d : ModuleDescriptor) → (module_descriptor d ≡ ok d) ↔ Passes (tests_of d)
unfolding module_descriptor
module_descriptor-Passes d = (λ h. ground arith, λ h. ground arith)

has_tests_iff : (ts : List TestDeclaration) → (not (length ts == 0) ≡ true) ↔ (ts ≢ [])
has_tests_iff [] = (λ h. cc, λ h. absurd (h refl))
has_tests_iff (t ∷ ts) = (λ h e. cc, λ h. ground arith)

Passes-Declared : (d : ModuleDescriptor) → Passes (tests_of d) → Declared d
Passes-Declared d (q, e, n, u, k) = record {
  queue_fits = ground (arith, str_eq_iff d.queue (queue_by_classification d.classification));
  has_engine = λ x. ground (arith, str_eq_iff d.engine "");
  has_engine_version = λ x. ground (arith, str_eq_iff d.engine_version "");
  has_tests = (has_tests_iff d.tests).0 n;
  keys_distinct = (has_duplicates_iff (keys_of_tests d.tests)).0 (ground arith);
  keys_in_namespace =
      All-map (λ t. in_namespace d.name t.test_key ≡ true)
        (λ t. Begins (codes (module_value d.name) ++ 46 ∷ []) (codes t.test_key)) d.tests
        (λ t. (is_prefix_iff (codes (module_value d.name) ++ 46 ∷ []) (codes t.test_key)).0)
        (all-All (λ t. in_namespace d.name t.test_key) d.tests k);
}

Declared-Passes : (d : ModuleDescriptor) → Declared d → Passes (tests_of d)
Declared-Passes d h = (
  (str_eq_iff d.queue (queue_by_classification d.classification)).1 h.queue_fits,
  ground (
    arith,
    str_eq-false d.engine "" h.has_engine,
    str_eq-false d.engine_version "" h.has_engine_version,
  ),
  (has_tests_iff d.tests).1 h.has_tests,
  ground (arith, (has_duplicates_iff (keys_of_tests d.tests)).1 h.keys_distinct),
  All-all (λ t. in_namespace d.name t.test_key) d.tests
      (All-map (λ t. Begins (codes (module_value d.name) ++ 46 ∷ []) (codes t.test_key))
        (λ t. in_namespace d.name t.test_key ≡ true) d.tests
        (λ t. (is_prefix_iff (codes (module_value d.name) ++ 46 ∷ []) (codes t.test_key)).1)
        h.keys_in_namespace),
)

-- A descriptor is constructed, as it is given, just when it declares the queue of its
-- classification, an engine with a version, and at least one test, the test keys are distinct, and
-- each begins with the name of the module and a dot.
pub module_descriptor_iff : (d : ModuleDescriptor) → (module_descriptor d ≡ ok d) ↔ Declared d
module_descriptor_iff d = (
  λ h. Passes-Declared d ((module_descriptor-Passes d).0 h),
  λ h. (module_descriptor-Passes d).1 (Declared-Passes d h),
)
