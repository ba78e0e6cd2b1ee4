-- ===== src/Modules/Pqc.antt =====
-- modules/pqc/mapping.py: the report of the post-quantum engine as findings, and its summary. A
-- report is the part of the JSON document that the mapping reads, as for the DNSSEC module.
pub mod Totality
use testing_platform_backend.Modules.Dnssec.{finding_of, status_or, text_or}
use testing_platform_backend.Modules.Findings.{NormalizedFinding, Text}
use testing_platform_backend.Modules.Namespaced.{codes}
use testing_platform_backend.Modules.Vocabulary.{EngineVocabulary, VocabularyError, map_severity}
use testing_platform_backend.Prelude.{
  Bool, List, Option, Result, [], count, if◌then◌else◌, not, ok, ℕ, ◌++◌, ◌>>=◌, ◌>>◌, ◌||◌, ◌∷◌,
}
use testing_platform_backend.Text.{text_eq}

pub record PqcCheck : Type 0 where
  pub check_status : Option Text
  pub check_name : Option Text
  pub reason : Text
  pub check_evidence : Option Text

pub record QuantumReport : Type 0 where
  pub target : Text
  pub report_verdict : Option Text
  pub quantum_evidence : Option Text
  pub checks : List PqcCheck

-- `_TITLE_BY_VERDICT.get(verdict, _TITLE_BY_VERDICT["unsafe"])`
unfoldable pub title_by_verdict : Text → Text
title_by_verdict verdict =
    if text_eq verdict (codes "safe")
    then codes "Key exchange is post-quantum ready"
    else codes "Key exchange is not post-quantum ready"

abbrev pub verdict_of : QuantumReport → Text
verdict_of r = status_or (codes "unsafe") r.report_verdict

abbrev pub status_of_check : PqcCheck → Text
status_of_check c = status_or (codes "pass") c.check_status

abbrev pub name_of_check : PqcCheck → Text
name_of_check c = status_or (codes "unknown") c.check_name

-- `status in ("fail", "error")`
abbrev pub is_reported : Text → Bool
is_reported status = text_eq status (codes "fail") || text_eq status (codes "error")

module _ (v : EngineVocabulary) (wording : Text → Text) where
  -- the overall finding
  unfoldable pub readiness_finding : QuantumReport → Result VocabularyError NormalizedFinding
  unfolding map_severity title_by_verdict
  readiness_finding r = do
    severity ← map_severity v (verdict_of r)
    ok (
        finding_of (codes "pqc.readiness") severity (title_by_verdict (verdict_of r))
          (codes "quantumvalidator probed "
            ++ (wording r.target
                ++ (codes " and reported the key exchange "
                    ++ (wording (verdict_of r)
                        ++ codes
                            " against CNSA 2.0 / BSI TR-02102 post-quantum migration targets."))))
          r.target r.quantum_evidence)

  abbrev pub title_of_check : Text → Text → Text
  title_of_check name status =
      codes "PQC check "
      ++ (name
          ++ (if text_eq status (codes "fail") then codes " failed" else codes " could not run"))

  -- the finding of a check that failed or could not run
  unfoldable pub check_finding : Text → PqcCheck → Result VocabularyError NormalizedFinding
  unfolding map_severity
  check_finding target c = do
    severity ← map_severity v (status_of_check c)
    ok (
        finding_of (codes "pqc.check." ++ name_of_check c) severity
          (title_of_check (name_of_check c) (status_of_check c))
          (text_or c.reason (
            codes "The "
            ++ (name_of_check c
                ++ (codes " check reported " ++ (wording (status_of_check c) ++ codes ".")))))
          target c.check_evidence)

  -- the loop over the checks
  unfoldable pub check_findings :
      Text → List PqcCheck → Result VocabularyError (List NormalizedFinding)
  unfolding check_finding
  check_findings target [] = ok []
  check_findings target (c ∷ cs) =
      let rest = check_findings target cs in
      if not (is_reported (status_of_check c))
      then rest
      else do f ← check_finding target c; fs ← rest; ok (f ∷ fs)

  -- `normalize`
  unfoldable pub normalize_quantum : QuantumReport → Result VocabularyError (List NormalizedFinding)
  unfolding readiness_finding check_findings
  normalize_quantum r = do
    f ← readiness_finding r
    fs ← check_findings r.target r.checks
    ok (f ∷ fs)

-- what `summarize` computes; the other fields of it are copied from the report
pub record QuantumSummary : Type 0 where
  pub verdict : Text
  pub safe : Bool
  pub failed_checks : ℕ
  pub error_checks : ℕ

abbrev pub has_status : Text → PqcCheck → Bool
has_status status c = text_eq (status_or [] c.check_status) status

-- `summarize`
unfoldable pub summarize_quantum : QuantumReport → QuantumSummary
unfolding text_eq
summarize_quantum r = record {
  verdict = status_or [] r.report_verdict;
  safe = text_eq (status_or [] r.report_verdict) (codes "safe");
  failed_checks = count (has_status (codes "fail")) r.checks;
  error_checks = count (has_status (codes "error")) r.checks;
}
