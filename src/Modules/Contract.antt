-- ===== src/Modules/Contract.antt =====
-- modules/contract.py: what a module declares, and the checks of the constructors.
pub mod Descriptors
use testing_platform_backend.Core.Enums.{
  ScanClassification, ScanModule, intrusive, module_value, non_intrusive, not_applicable,
}
use testing_platform_backend.Modules.Namespaced.{codes, full_match}
use testing_platform_backend.Prelude.{
  Bool, List, Result, String, [], all, any, false, length, map, not, ok, require, str_eq, true, ℕ,
  ◌&&◌, ◌++◌, ◌==◌, ◌>>=◌, ◌>>◌, ◌||◌, ◌∷◌,
}

-- the `ValueError`s of the constructors
pub data ContractError : Type 0 where
  bad_test_key empty_test_version wrong_queue no_engine no_tests : ContractError
  duplicate_test_keys foreign_test_key : ContractError

pub record TestDeclaration : Type 0 where
  pub test_key : String
  pub test_version : String

pub record ModuleDescriptor : Type 0 where
  pub name : ScanModule
  pub classification : ScanClassification
  pub queue : String
  pub engine : String
  pub engine_version : String
  pub tests : List TestDeclaration

-- `QUEUE_BY_CLASSIFICATION`
abbrev pub queue_by_classification : ScanClassification → String
queue_by_classification non_intrusive = "non-intrusive-scan"
queue_by_classification intrusive = "intrusive-scan"
queue_by_classification not_applicable = "file-analysis"

-- `TestDeclaration.__post_init__`
unfoldable test_declaration : String → String → Result ContractError TestDeclaration
test_declaration key version = do
  require (full_match (codes key)) bad_test_key
  require (not (str_eq version "")) empty_test_version
  ok (record { test_key = key; test_version = version })

-- `len(set(keys)) != len(keys)`
unfoldable pub has_duplicates : List String → Bool
has_duplicates [] = false
has_duplicates (k ∷ ks) = any (λ j. str_eq k j) ks || has_duplicates ks

-- `text.startswith(prefix)` on code points
unfoldable pub is_prefix : List ℕ → List ℕ → Bool
is_prefix [] s = true
is_prefix (p ∷ ps) [] = false
is_prefix (p ∷ ps) (c ∷ s) = p == c && is_prefix ps s

-- `key.startswith(f"{self.name.value}.")`
abbrev pub in_namespace : ScanModule → String → Bool
in_namespace m key = is_prefix (codes (module_value m) ++ 46 ∷ []) (codes key)

-- `ModuleDescriptor.__post_init__`
unfoldable pub module_descriptor : ModuleDescriptor → Result ContractError ModuleDescriptor
module_descriptor d = do
  require (str_eq d.queue (queue_by_classification d.classification)) wrong_queue
  require (not (str_eq d.engine "") && not (str_eq d.engine_version "")) no_engine
  require (not (length d.tests == 0)) no_tests
  require (not (has_duplicates (map (λ t. t.test_key) d.tests))) duplicate_test_keys
  require (all (λ t. in_namespace d.name t.test_key) d.tests) foreign_test_key
  ok d
