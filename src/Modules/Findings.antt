-- ===== src/Modules/Findings.antt =====
-- modules/normalization/findings.py: the counts and the order of the findings of one result, and
-- the check of their ids.
-- A text is the list of its code points; evidence stands for its canonical JSON, by which the
-- source orders it.
pub mod Counts
pub mod Order
use testing_platform_backend.Core.Enums.{
  FindingSeverity, ScanGrade, critical, high, info, low, medium,
}
use testing_platform_backend.Modules.Namespaced.{full_match}
use testing_platform_backend.Prelude.{
  Bool, List, Option, Result, [], err, if◌then◌else◌, leb, none, not, ok, some, ℕ, ◌++◌, ◌+◌, ◌∷◌,
}
use testing_platform_backend.Sorting.{lex_le, sorted}
use testing_platform_backend.Text.{starts_with}

abbrev pub Text : Type 0
Text = List ℕ

pub record NormalizedFinding : Type 0 where
  pub check_id : Text
  pub severity : FindingSeverity
  pub title : Text
  pub description : Text
  pub affected_resource : Option Text
  pub remediation : Option Text
  pub evidence : Option Text
  pub external_references : List Text

pub record ModuleResult : Type 0 where
  pub schema_version : Text
  pub raw_output : Text
  pub summary : Text
  pub findings : List NormalizedFinding
  pub grade : Option ScanGrade

pub record SeverityCounts : Type 0 where
  pub critical_count : ℕ
  pub high_count : ℕ
  pub medium_count : ℕ
  pub low_count : ℕ
  pub info_count : ℕ

abbrev pub no_counts : SeverityCounts
no_counts = record {
  critical_count = 0;
  high_count = 0;
  medium_count = 0;
  low_count = 0;
  info_count = 0;
}

-- `counts[severity.value] += 1`
unfoldable pub increment : FindingSeverity → SeverityCounts → SeverityCounts
increment critical n = record n { critical_count = n.critical_count + 1 }
increment high n = record n { high_count = n.high_count + 1 }
increment medium n = record n { medium_count = n.medium_count + 1 }
increment low n = record n { low_count = n.low_count + 1 }
increment info n = record n { info_count = n.info_count + 1 }

-- the loop of `severity_counts`
unfoldable pub count_from : SeverityCounts → List NormalizedFinding → SeverityCounts
unfolding increment
count_from n [] = n
count_from n (f ∷ fs) = count_from (increment f.severity n) fs

unfoldable pub severity_counts : List NormalizedFinding → SeverityCounts
unfolding count_from
severity_counts fs = count_from no_counts fs

-- `_SEVERITY_RANK`
abbrev pub severity_rank : FindingSeverity → ℕ
severity_rank critical = 0
severity_rank high = 1
severity_rank medium = 2
severity_rank low = 3
severity_rank info = 4

-- `value or ""`
abbrev pub or_empty : Option Text → Text
or_empty none = []
or_empty (some t) = t

-- `json.dumps` of the references is a parameter: a text for each list of texts.
module _ (dumps : List Text → Text) where
  -- `_order_key`, the rank as a text of one number
  unfoldable pub order_key : NormalizedFinding → List Text
  order_key f =
      (severity_rank f.severity ∷ [])
      ∷ f.check_id
      ∷ or_empty f.affected_resource
      ∷ f.title
      ∷ f.description
      ∷ or_empty f.remediation
      ∷ or_empty f.evidence
      ∷ dumps f.external_references
      ∷ []

-- Python compares the keys as tuples of texts.
abbrev pub key_le : List Text → List Text → Bool
key_le = lex_le (lex_le leb)

unfoldable pub order_findings : (List Text → Text) → List NormalizedFinding → List NormalizedFinding
unfolding order_key
order_findings dumps = sorted (λ f g. key_le (order_key dumps f) (order_key dumps g))

pub data CheckIdError : Type 0 where
  not_namespaced outside_namespace : CheckIdError

-- `validate_check_id`
unfoldable pub validate_check_id : Text → Text → Result CheckIdError Text
unfolding full_match starts_with
validate_check_id check_id module_namespace =
    if not (full_match check_id)
    then err not_namespaced
    else if not (starts_with (module_namespace ++ (46 ∷ [])) check_id)
    then err outside_namespace
    else ok check_id
