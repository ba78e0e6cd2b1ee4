-- ===== src/Modules/Dnssec.antt =====
-- modules/dnssec/mapping.py: the report of the DNSSEC engine as findings. A report is the part of
-- the JSON document that the mapping reads; the evidence of a finding is the JSON of the truthy keys,
-- and `wording` is how Python prints a text in quotes.
pub mod Checks
use testing_platform_backend.Core.Enums.{FindingSeverity}
use testing_platform_backend.Modules.Findings.{NormalizedFinding, Text}
use testing_platform_backend.Modules.Namespaced.{codes}
use testing_platform_backend.Modules.Vocabulary.{
  EngineVocabulary, VocabularyError, canonical, map_severity,
}
use testing_platform_backend.Prelude.{
  Bool, List, Option, Result, [], if◌then◌else◌, none, ok, some, ◌++◌, ◌>>=◌, ◌>>◌, ◌∷◌,
}
use testing_platform_backend.Text.{text_eq}

pub record ChainLink : Type 0 where
  pub link_status : Option Text
  pub zone_name : Text
  pub parent_zone : Text
  pub link_evidence : Option Text

pub record Leaf : Type 0 where
  pub leaf_status : Option Text
  pub qname : Option Text
  pub record_type : Text
  pub leaf_evidence : Option Text

pub record DnssecReport : Type 0 where
  pub domain : Text
  pub report_status : Option Text
  pub report_evidence : Option Text
  pub chain : List ChainLink
  pub leaf : Option Leaf

-- `str(source.get("status", default)).strip().lower()`
abbrev pub status_or : Text → Option Text → Text
status_or default_status none = canonical default_status
status_or default_status (some s) = canonical s

-- `x or None`
abbrev pub or_none : Text → Option Text
or_none [] = none
or_none (c ∷ s) = some (c ∷ s)

abbrev pub text_or : Text → Text → Text
text_or [] d = d
text_or (c ∷ s) d = c ∷ s

-- `_TITLE_BY_STATUS.get(status, _TITLE_BY_STATUS["error"])`
unfoldable pub title_by_status : Text → Text
title_by_status status =
    if text_eq status (codes "secure")
    then codes "DNSSEC chain of trust is intact"
    else if text_eq status (codes "insecure")
    then codes "DNSSEC chain is not anchored end to end"
    else if text_eq status (codes "bogus")
    then codes "DNSSEC validation failed"
    else codes "DNSSEC chain could not be validated"

-- `map_status_severity`
unfoldable pub map_status_severity :
    EngineVocabulary → Text → Result VocabularyError FindingSeverity
unfolding map_severity
map_status_severity v status = map_severity v status

abbrev pub finding_of :
    Text → FindingSeverity → Text → Text → Text → Option Text → NormalizedFinding
finding_of check_id severity title description affected evidence = record {
  check_id = check_id;
  severity = severity;
  title = title;
  description = description;
  affected_resource = or_none affected;
  remediation = none;
  evidence = evidence;
  external_references = [];
}

module _ (v : EngineVocabulary) (wording : Text → Text) where
  -- the overall finding
  unfoldable pub chain_finding : DnssecReport → Result VocabularyError NormalizedFinding
  unfolding map_status_severity title_by_status
  chain_finding r = do
    let status = status_or (codes "error") r.report_status
    severity ← map_status_severity v status
    ok (
        finding_of (codes "dnssec.chain_of_trust") severity (title_by_status status)
          (codes "chainvalidator validated the DNSSEC chain of trust for "
            ++ (wording r.domain ++ (codes " and reported " ++ (wording status ++ codes "."))))
          r.domain r.report_evidence)

  -- the finding of a delegation that is not secure
  unfoldable pub link_finding : Text → ChainLink → Result VocabularyError NormalizedFinding
  unfolding map_status_severity
  link_finding status l = do
    severity ← map_status_severity v status
    ok (
        finding_of (codes "dnssec.delegation." ++ status) severity
          (codes "Delegation " ++ (l.zone_name ++ (codes " is " ++ status)))
          (codes "The delegation to "
            ++ (wording l.zone_name
                ++ (codes " from "
                    ++ (wording (text_or l.parent_zone (codes "the root"))
                        ++ (codes " is " ++ (status ++ codes "."))))))
          l.zone_name l.link_evidence)

  abbrev pub is_secure : Text → Bool
  is_secure status = text_eq status (codes "secure")

  abbrev pub status_of_link : ChainLink → Text
  status_of_link l = status_or (codes "secure") l.link_status

  -- the loop over the chain
  unfoldable pub link_findings : List ChainLink → Result VocabularyError (List NormalizedFinding)
  unfolding link_finding
  link_findings [] = ok []
  link_findings (l ∷ ls) =
      let rest = link_findings ls in
      if is_secure (status_of_link l)
      then rest
      else do f ← link_finding (status_of_link l) l; fs ← rest; ok (f ∷ fs)

  abbrev pub name_of_leaf : DnssecReport → Leaf → Text
  name_of_leaf r l = elim l.qname [ none ↦ r.domain | some name ↦ name ]

  abbrev pub status_of_leaf : Leaf → Text
  status_of_leaf l = status_or (codes "secure") l.leaf_status

  unfoldable pub leaf_finding : DnssecReport → Leaf → Result VocabularyError NormalizedFinding
  unfolding map_status_severity
  leaf_finding r l = do
    severity ← map_status_severity v (status_of_leaf l)
    ok (
        finding_of (codes "dnssec.leaf." ++ status_of_leaf l) severity
          (codes "Leaf record " ++ (name_of_leaf r l ++ (codes " is " ++ status_of_leaf l)))
          (codes "The "
            ++ (l.record_type
                ++ (codes " record at "
                    ++ (wording (name_of_leaf r l)
                        ++ (codes " is " ++ (status_of_leaf l ++ codes "."))))))
          (name_of_leaf r l) l.leaf_evidence)

  unfoldable pub leaf_findings : DnssecReport → Result VocabularyError (List NormalizedFinding)
  unfolding leaf_finding
  leaf_findings r = elim r.leaf [
    | none ↦ ok []
    | some l ↦ if is_secure (status_of_leaf l) then ok [] else do f ← leaf_finding r l; ok (f ∷ [])
  ]

  -- `normalize`
  unfoldable pub normalize : DnssecReport → Result VocabularyError (List NormalizedFinding)
  unfolding chain_finding link_findings leaf_findings
  normalize r = do
    f ← chain_finding r
    links ← link_findings r.chain
    leaves ← leaf_findings r
    ok (f ∷ (links ++ leaves))
