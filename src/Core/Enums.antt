-- ===== src/Core/Enums.antt =====
-- src/nc3_testing_platform/core/enums.py: the closed enumerations that the modelled parts use,
-- with the text value of each member where the code reads it.
use testing_platform_backend.Prelude.{Bool, String, ℕ, ◌==◌}

pub data ScanSource : Type 0 where
  guest manual schedule api : ScanSource

pub data ScanJobStatus : Type 0 where
  queued running completed partial failed canceled : ScanJobStatus

pub data ScanTaskStatus : Type 0 where
  queued running completed failed skipped blocked canceled : ScanTaskStatus

pub data ScanModule : Type 0 where
  email web file pqc dnssec : ScanModule

pub data ScanClassification : Type 0 where
  non_intrusive intrusive not_applicable : ScanClassification

pub data FindingSeverity : Type 0 where
  critical high medium low info : FindingSeverity

pub data FindingStatus : Type 0 where
  new regression persistent resolved : FindingStatus

pub data ScanGrade : Type 0 where
  grade_a_plus grade_a grade_b grade_c grade_d grade_f : ScanGrade

pub data VerificationStatus : Type 0 where
  pending verified expired : VerificationStatus

pub data VerificationScope : Type 0 where
  exact zone : VerificationScope

pub data OrganizationRole : Type 0 where
  member organization_admin : OrganizationRole

-- `ScanModule.value`
abbrev pub module_value : ScanModule → String
module_value email = "email"
module_value web = "web"
module_value file = "file"
module_value pqc = "pqc"
module_value dnssec = "dnssec"

-- The position of a member, by which two members are compared.
abbrev pub module_index : ScanModule → ℕ
module_index email = 0
module_index web = 1
module_index file = 2
module_index pqc = 3
module_index dnssec = 4

-- `a is b`
abbrev pub same_module : ScanModule → ScanModule → Bool
same_module a b = module_index a == module_index b
