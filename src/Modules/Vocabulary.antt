-- ===== src/Modules/Vocabulary.antt =====
-- modules/normalization/severity.py and grading.py: the words of an engine as the platform's
-- severities and grades. A text is the list of its code points.
pub mod Folding
pub mod Grades
use testing_platform_backend.Core.Enums.{
  FindingSeverity, ScanGrade, grade_a, grade_a_plus, grade_b, grade_c, grade_d, grade_f, high, info,
  low, medium,
}
use testing_platform_backend.Modules.Findings.{Text}
use testing_platform_backend.Modules.Namespaced.{codes}
use testing_platform_backend.Prelude.{
  Bool, List, Option, Result, [], err, false, if◌then◌else◌, is_some, leb, map, none, ok, some,
  true, ℕ, ◌&&◌, ◌++◌, ◌-◌, ◌∷◌,
}
use testing_platform_backend.Text.{lower, strip, text_eq}

pub data VocabularyError : Type 0 where
  unnamed_vocabulary empty_table empty_value declared_twice : VocabularyError
  unmapped_value : Text → VocabularyError

-- `_canonical`
unfoldable pub canonical : Text → Text
unfolding strip lower
canonical value = lower (strip value)

-- a table as the list of its entries
abbrev pub SeverityTable : Type 0
SeverityTable = List (Text × FindingSeverity)

pub record EngineVocabulary : Type 0 where
  pub name : Text
  pub table : SeverityTable

-- `table[key]`
unfoldable pub lookup : Text → SeverityTable → Option FindingSeverity
lookup key [] = none
lookup key ((k, severity) ∷ table) =
    let rest = lookup key table in if text_eq k key then some severity else rest

abbrev pub is_empty_text : Text → Bool
is_empty_text [] = true
is_empty_text (c ∷ s) = false

-- the loop of `__post_init__`: the entries still to read, and the canonical ones so far
unfoldable pub fold_table : SeverityTable → SeverityTable → Result VocabularyError SeverityTable
unfolding canonical lookup
fold_table [] folded = ok folded
fold_table ((value, severity) ∷ entries) folded =
    if is_empty_text (canonical value)
    then err empty_value
    else if is_some (lookup (canonical value) folded)
    then err declared_twice
    else fold_table entries (folded ++ ((canonical value, severity) ∷ []))

-- `EngineVocabulary(...)`; the type of the table excludes values that are no severity
unfoldable pub engine_vocabulary : Text → SeverityTable → Result VocabularyError EngineVocabulary
unfolding fold_table strip
engine_vocabulary name table =
    if is_empty_text (strip name) then err unnamed_vocabulary else elim table [
      | [] ↦ err empty_table
      | e ∷ es ↦ elim (fold_table (e ∷ es) []) [
        | err x ↦ err x
        | ok folded ↦ ok (record { name = name; table = folded })
      ]
    ]

-- `map_severity`
unfoldable pub map_severity : EngineVocabulary → Text → Result VocabularyError FindingSeverity
unfolding canonical lookup
map_severity v engine_severity = elim (lookup (canonical engine_severity) v.table) [
  | none ↦ err (unmapped_value engine_severity)
  | some severity ↦ ok severity
]

-- `CHAINVALIDATOR_STATUS`
abbrev pub chainvalidator_table : SeverityTable
chainvalidator_table =
    (codes "secure", info)
    ∷ (codes "insecure", medium)
    ∷ (codes "bogus", high)
    ∷ (codes "error", low)
    ∷ []

-- `QUANTUMVALIDATOR_STATUS`
abbrev pub quantumvalidator_table : SeverityTable
quantumvalidator_table =
    (codes "pass", info)
    ∷ (codes "info", info)
    ∷ (codes "safe", info)
    ∷ (codes "fail", medium)
    ∷ (codes "unsafe", medium)
    ∷ (codes "error", low)
    ∷ []

-- `text.upper()` on ASCII
abbrev upper_char : ℕ → ℕ
upper_char c = if leb 97 c && leb c 122 then c - 32 else c

unfoldable pub upper : Text → Text
upper = map upper_char

-- `ScanGrade.value`
abbrev pub grade_value : ScanGrade → Text
grade_value grade_a_plus = 65 ∷ 43 ∷ []
grade_value grade_a = 65 ∷ []
grade_value grade_b = 66 ∷ []
grade_value grade_c = 67 ∷ []
grade_value grade_d = 68 ∷ []
grade_value grade_f = 70 ∷ []

-- `ScanGrade(value)`: the member of that value, or a `ValueError`
abbrev pub grade_from : Text → List ScanGrade → Option ScanGrade
grade_from value [] = none
grade_from value (g ∷ gs) =
    let rest = grade_from value gs in if text_eq (grade_value g) value then some g else rest

abbrev pub all_grades : List ScanGrade
all_grades = grade_a_plus ∷ grade_a ∷ grade_b ∷ grade_c ∷ grade_d ∷ grade_f ∷ []

-- `map_engine_grade`
unfoldable pub map_engine_grade : Text → Result VocabularyError ScanGrade
unfolding strip upper
map_engine_grade engine_grade = elim (grade_from (upper (strip engine_grade)) all_grades) [
  | none ↦ err (unmapped_value engine_grade)
  | some g ↦ ok g
]
