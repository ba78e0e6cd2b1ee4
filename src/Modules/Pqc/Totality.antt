-- ===== src/Modules/Pqc/Totality.antt =====
-- Which reports of the post-quantum engine can be normalized, and into how many findings.
use testing_platform_backend.Modules.Dnssec.{status_or}
use testing_platform_backend.Modules.Findings.{NormalizedFinding, Text}
use testing_platform_backend.Modules.Namespaced.{codes}
use testing_platform_backend.Modules.Pqc.{
  PqcCheck, QuantumReport, check_finding, check_findings, has_status, is_reported,
  normalize_quantum, readiness_finding, summarize_quantum,
}
use testing_platform_backend.Modules.Vocabulary.{EngineVocabulary, canonical}
use testing_platform_backend.Prelude.{
  >>=-ok, Bool, Bool-cases, List, Option, [], arith, count, false, inl, inr, length, none, ok,
  ok-injective, refl, some, sym, true, ◌+◌, ◌||◌, ◌∙◌, ◌∷◌, ◌≡◌,
}
use testing_platform_backend.Text.{lower, strip, text_eq}
use testing_platform_backend.Text.Laws.{text_eq_iff}

same_status :
    (status : Text) (o : Option Text)
    → (text_eq (codes "pass") status ≡ false) × (text_eq [] status ≡ false)
    → text_eq (status_or (codes "pass") o) status ≡ text_eq (status_or [] o) status
unfolding canonical strip lower text_eq
same_status status none h = h.0 ∙ sym h.1
same_status status (some s) h = refl

exclusive : (s : Text) → text_eq s (codes "fail") ≡ true → text_eq s (codes "error") ≡ false
unfolding text_eq
exclusive s h = let e : s ≡ codes "fail" = (text_eq_iff s (codes "fail")).0 h in rw e refl

module _ (v : EngineVocabulary) (wording : Text → Text) where
  check_findings-length :
      (target : Text) (cs : List PqcCheck) (fs : List NormalizedFinding)
      → check_findings v wording target cs ≡ ok fs
      → length fs ≡ count (has_status (codes "fail")) cs + count (has_status (codes "error")) cs
  unfolding check_findings text_eq
  check_findings-length target [] fs h = let e : [] ≡ fs = ok-injective h in rw (← e) refl
  check_findings-length target (c ∷ cs) fs h =
      let status : Text = status_or (codes "pass") c.check_status in
      let fail : text_eq status (codes "fail") ≡ has_status (codes "fail") c =
        same_status (codes "fail") c.check_status (refl, refl) in
      let error : text_eq status (codes "error") ≡ has_status (codes "error") c =
        same_status (codes "error") c.check_status (refl, refl) in
      elim (Bool-cases (is_reported status)) [
        | inr n ↦
            let rest = check_findings-length target cs fs (rw (check_findings, n) at h) in
            let f : has_status (codes "fail") c ≡ false =
              sym fail
              ∙ first_off (text_eq status (codes "fail")) (text_eq status (codes "error")) n in
            let g : has_status (codes "error") c ≡ false =
              sym error
              ∙ second_off (text_eq status (codes "fail")) (text_eq status (codes "error")) n in
            rw (f, g) rest
        | inl y ↦
            let (x, ex, k) =
              >>=-ok (check_finding v wording target c) (λ x. _) (rw (check_findings, y) at h) in
            let (xs, es, e) = >>=-ok (check_findings v wording target cs) (λ xs. ok (x ∷ xs)) k in
            let same : x ∷ xs ≡ fs = ok-injective e in
            let rest = check_findings-length target cs xs es in
            elim (Bool-cases (text_eq status (codes "fail"))) [
              | inl z ↦
                  let f : has_status (codes "fail") c ≡ true = sym fail ∙ z in
                  let g : has_status (codes "error") c ≡ false = sym error ∙ exclusive status z in
                  rw (← same, f, g) (omega (arith, rest))
              | inr z ↦
                  let f : has_status (codes "fail") c ≡ false = sym fail ∙ z in
                  let g : has_status (codes "error") c ≡ true =
                    sym error
                    ∙ other_on (text_eq status (codes "fail")) (text_eq status (codes "error")) y
                        z in
                  rw (← same, f, g) (omega (arith, rest))
            ]
      ]
    where
      first_off : (a b : Bool) → (a || b) ≡ false → a ≡ false
      first_off a b q = ground arith

      second_off : (a b : Bool) → (a || b) ≡ false → b ≡ false
      second_off a b q = ground arith

      other_on : (a b : Bool) → (a || b) ≡ true → a ≡ false → b ≡ true
      other_on a b q z = ground arith

  -- A report that is normalized has the overall finding and one finding for each check that the
  -- summary of the same report counts as failed or as not run.
  normalize_quantum-summarize_quantum :
      (r : QuantumReport) (fs : List NormalizedFinding)
      → normalize_quantum v wording r ≡ ok fs
      → length fs ≡ 1 + (summarize_quantum r).failed_checks + (summarize_quantum r).error_checks
  unfolding normalize_quantum summarize_quantum
  normalize_quantum-summarize_quantum r fs h =
      let (x, ex, k) = >>=-ok (readiness_finding v wording r) (λ x. _) h in
      let (xs, es, e) = >>=-ok (check_findings v wording r.target r.checks) (λ xs. ok (x ∷ xs)) k in
      let same : x ∷ xs ≡ fs = ok-injective e in
      let rest = check_findings-length r.target r.checks xs es in rw (← same) (omega (arith, rest))
