-- ===== src/Modules/Rows.antt =====
-- modules/normalization/rows.py: a result as the rows to store. The copies that the source makes
-- of mutable payloads are the values themselves here.
use testing_platform_backend.Core.Enums.{FindingSeverity, ScanGrade}
use testing_platform_backend.Modules.Findings.{
  ModuleResult, NormalizedFinding, SeverityCounts, Text, order_findings, severity_counts,
}
use testing_platform_backend.Prelude.{List, Option, map, ℕ}

pub record ScanResultRow : Type 0 where
  pub organization_id : Option ℕ
  pub scan_task_id : ℕ
  pub schema_version : Text
  pub raw_output : Text
  pub summary : Text
  pub grade : Option ScanGrade
  pub severity_counts_of : SeverityCounts
  pub completed_at : ℕ

pub record FindingRow : Type 0 where
  pub organization_id : Option ℕ
  pub scan_result_id : ℕ
  pub check_id : Text
  pub severity : FindingSeverity
  pub title : Text
  pub description : Text
  pub affected_resource : Option Text
  pub remediation : Option Text
  pub evidence : Option Text
  pub external_references : List Text

unfoldable pub scan_result_row : ModuleResult → ℕ → ℕ → Option ℕ → ScanResultRow
scan_result_row r task_id completed_at organization_id = record {
  organization_id = organization_id;
  scan_task_id = task_id;
  schema_version = r.schema_version;
  raw_output = r.raw_output;
  summary = r.summary;
  grade = r.grade;
  severity_counts_of = severity_counts r.findings;
  completed_at = completed_at;
}

unfoldable pub finding_row : ℕ → Option ℕ → NormalizedFinding → FindingRow
finding_row result_id organization_id f = record {
  organization_id = organization_id;
  scan_result_id = result_id;
  check_id = f.check_id;
  severity = f.severity;
  title = f.title;
  description = f.description;
  affected_resource = f.affected_resource;
  remediation = f.remediation;
  evidence = f.evidence;
  external_references = f.external_references;
}

unfoldable pub finding_rows : (List Text → Text) → ModuleResult → ℕ → Option ℕ → List FindingRow
unfolding finding_row
finding_rows dumps r result_id organization_id =
    map (finding_row result_id organization_id) (order_findings dumps r.findings)
