-- ===== src/Modules/Registry.antt =====
-- modules/registry.py: the validated roster, its lookups and its discovery.
pub mod Lookup
pub mod Discovery
use testing_platform_backend.Modules.Contract.{ModuleDescriptor, TestDeclaration}
use testing_platform_backend.Prelude.{
  Bool, List, Option, Result, String, [], any, err, if◌then◌else◌, keep, none, not, ok, require,
  some, str_eq, ◌>>=◌, ◌>>◌, ◌∷◌,
}

-- What one task hands a module (`ScanInput`), what one run gives back, and why a run fails.
pub data Failure : Type 0 where
  value_error : Failure
  runtime_error : Bool → Failure
  other_error : Failure

pub record LoadedModule : Type 0 where
  pub entry_point : String
  pub descriptor : ModuleDescriptor

abbrev pub Roster : Type 0
Roster = List LoadedModule

-- the messages of `ModuleRegistryError`
pub data RegistryError : Type 0 where
  not_implemented off_queue registered_twice load_failed : RegistryError
  not_a_test_module bad_descriptor test_key_declared_twice : RegistryError

-- `any(test.test_key == test_key for test in tests)`
abbrev pub declares : LoadedModule → String → Bool
declares e key = any (λ t. str_eq t.test_key key) e.descriptor.tests

unfoldable pub by_test_key : Roster → String → Result RegistryError LoadedModule
by_test_key [] key = err not_implemented
by_test_key (e ∷ r) key = if declares e key then ok e else by_test_key r key

unfoldable for_queue : Roster → String → List LoadedModule
for_queue r queue = keep (λ e. str_eq e.descriptor.queue queue) r

unfoldable pub queue_for : Roster → String → Result RegistryError String
queue_for r key = do e ← by_test_key r key; ok e.descriptor.queue

-- `Roster.require`, the gate of a worker
unfoldable pub require_on_queue : Roster → String → String → Result RegistryError LoadedModule
require_on_queue r key queue = do
  e ← by_test_key r key
  if str_eq e.descriptor.queue queue then ok e else err off_queue

-- What loading an entry point gives: an exception, an object that is no `TestModule`, one whose
-- descriptor is no `ModuleDescriptor`, or an implementation.
pub data Loaded : Type 0 where
  raises no_protocol wrong_descriptor : Loaded
  implementation : ModuleDescriptor → Loaded

pub record EntryPoint : Type 0 where
  pub name : String
  pub loaded : Loaded

-- `seen_test_keys.get(key)`
unfoldable pub claimant : String → List (String × String) → Option String
claimant key [] = none
claimant key ((k, e) ∷ seen) = if str_eq k key then some e else claimant key seen

-- the loop over the tests of one descriptor
unfoldable pub claim_tests :
    String
    → List TestDeclaration
    → List (String × String)
    → Result RegistryError (List (String × String))
claim_tests name [] seen = ok seen
claim_tests name (t ∷ ts) seen = elim (claimant t.test_key seen) [
  | some other ↦ err test_key_declared_twice
  | none ↦ claim_tests name ts ((t.test_key, name) ∷ seen)
]

abbrev pub accept : EntryPoint → Result RegistryError ModuleDescriptor
accept p = elim p.loaded [
  | raises ↦ err load_failed
  | no_protocol ↦ err not_a_test_module
  | wrong_descriptor ↦ err bad_descriptor
  | implementation d ↦ ok d
]

-- the loop over the entry points, with the names and the test keys seen so far
unfoldable pub discover_from :
    List EntryPoint → List String → List (String × String) → Result RegistryError Roster
discover_from [] names seen = ok []
discover_from (p ∷ ps) names seen = do
  require (not (any (λ n. str_eq n p.name) names)) registered_twice
  d ← accept p
  seen' ← claim_tests p.name d.tests seen
  rest ← discover_from ps (p.name ∷ names) seen'
  ok (record { entry_point = p.name; descriptor = d } ∷ rest)

unfoldable pub discover : List EntryPoint → Result RegistryError Roster
unfolding discover_from
discover ps = discover_from ps [] []
