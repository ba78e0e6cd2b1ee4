-- ===== src/Modules/Catalog.antt =====
-- modules/catalog.py: the executable tests of each module.
use testing_platform_backend.Core.Enums.{
  ScanClassification, ScanModule, dnssec, email, file, non_intrusive, not_applicable, pqc,
  same_module, web,
}
use testing_platform_backend.Prelude.{List, String, [], keep, ◌∷◌}

pub record CatalogEntry : Type 0 where
  pub test_key : String
  pub entry_module : ScanModule
  pub classification : ScanClassification

abbrev entry : String → ScanModule → ScanClassification → CatalogEntry
entry key m c = record { test_key = key; entry_module = m; classification = c }

-- `EXECUTABLE_TESTS`, in the order of declaration
abbrev pub executable_tests : List CatalogEntry
executable_tests =
    entry "email.mailvalidator" email non_intrusive
    ∷ entry "web.headers" web non_intrusive
    ∷ entry "web.tls" web non_intrusive
    ∷ entry "web.subdomain_enumeration" web non_intrusive
    ∷ entry "file.hashlookup" file not_applicable
    ∷ entry "file.pandora" file not_applicable
    ∷ entry "file.metadata" file not_applicable
    ∷ entry "file.mime_check" file not_applicable
    ∷ entry "pqc.quantumvalidator" pqc non_intrusive
    ∷ entry "dnssec.chainvalidator" dnssec non_intrusive
    ∷ []

unfoldable pub tests_for_module : ScanModule → List CatalogEntry
tests_for_module m = keep (λ e. same_module e.entry_module m) executable_tests
