-- ===== src/Modules/Dnssec/Checks.antt =====
-- The findings of the DNSSEC module can be persisted: their check ids are namespaced.
use testing_platform_backend.Core.Enums.{FindingSeverity}
use testing_platform_backend.Modules.Dnssec.{
  ChainLink, DnssecReport, chain_finding, leaf_finding, leaf_findings, link_finding, link_findings,
  map_status_severity, normalize, status_or,
}
use testing_platform_backend.Modules.Findings.{NormalizedFinding, Text, validate_check_id}
use testing_platform_backend.Modules.Namespaced.{codes}
use testing_platform_backend.Modules.Vocabulary.{
  EngineVocabulary, VocabularyError, canonical, chainvalidator_table, engine_vocabulary,
}
use testing_platform_backend.Modules.Vocabulary.Folding.{map_severity_iff}
use testing_platform_backend.Prelude.{
  >>=-ok, All, All-append, Bool-cases, List, Option, Option-cases, Result, [], inl, inr, none, ok,
  ok-injective, refl, some, subst, sym, ◌++◌, ◌>>=◌, ◌∙◌, ◌∷◌, ◌≡◌, ◌⊎◌,
}
use testing_platform_backend.Text.{lower, strip, text_eq}
use testing_platform_backend.Text.Folding.{lower-strip_twice}

canonical_twice : (s : Text) → canonical (canonical s) ≡ canonical s
unfolding canonical
canonical_twice = lower-strip_twice

canonical-status_or : (d : Text) (o : Option Text) → canonical (status_or d o) ≡ status_or d o
canonical-status_or d none = canonical_twice d
canonical-status_or d (some s) = canonical_twice s

-- Its check id is accepted in the namespace of the module.
abbrev pub IsNamespaced : NormalizedFinding → Type 0
IsNamespaced f = validate_check_id f.check_id (codes "dnssec") ≡ ok f.check_id

-- The status is one of the four of the engine.
abbrev Known : Text → Type 0
Known s =
    (s ≡ codes "secure") ⊎ ((s ≡ codes "insecure") ⊎ ((s ≡ codes "bogus") ⊎ (s ≡ codes "error")))

module _ (name : Text) (v : EngineVocabulary)
    (is_vocabulary : engine_vocabulary name chainvalidator_table ≡ ok v) where
  known :
      (d : Text) (o : Option Text) (severity : FindingSeverity)
      → map_status_severity v (status_or d o) ≡ ok severity
      → Known (status_or d o)
  unfolding map_status_severity canonical strip lower
  known d o severity h =
      let found =
        (map_severity_iff name chainvalidator_table v (status_or d o) severity is_vocabulary).0 h in
      let same = canonical-status_or d o in
      elim found [
        | inl e ↦ inl (sym (e.0 ∙ same))
        | inr (inl e) ↦ inr (inl (sym (e.0 ∙ same)))
        | inr (inr (inl e)) ↦ inr (inr (inl (sym (e.0 ∙ same))))
        | inr (inr (inr (inl e))) ↦ inr (inr (inr (sym (e.0 ∙ same))))
        | inr (inr (inr (inr e))) ↦ absurd e
      ]

  well_formed_under :
      (prefix : Text)
      → (validate_check_id (prefix ++ codes "secure") (codes "dnssec")
          ≡ ok (prefix ++ codes "secure"))
        × (validate_check_id (prefix ++ codes "insecure") (codes "dnssec")
            ≡ ok (prefix ++ codes "insecure"))
        × (validate_check_id (prefix ++ codes "bogus") (codes "dnssec")
            ≡ ok (prefix ++ codes "bogus"))
        × (validate_check_id (prefix ++ codes "error") (codes "dnssec")
            ≡ ok (prefix ++ codes "error"))
      → (s : Text) → Known s
      → validate_check_id (prefix ++ s) (codes "dnssec") ≡ ok (prefix ++ s)
  well_formed_under prefix (a, b, c, d) s (inl e) = rw e a
  well_formed_under prefix (a, b, c, d) s (inr (inl e)) = rw e b
  well_formed_under prefix (a, b, c, d) s (inr (inr (inl e))) = rw e c
  well_formed_under prefix (a, b, c, d) s (inr (inr (inr e))) = rw e d

module _ (name : Text) (v : EngineVocabulary)
    (is_vocabulary : engine_vocabulary name chainvalidator_table ≡ ok v)
    (wording : Text → Text) where
  link_findings-All :
      (ls : List ChainLink) (fs : List NormalizedFinding)
      → link_findings v wording ls ≡ ok fs
      → All IsNamespaced fs
  unfolding link_findings link_finding validate_check_id
  link_findings-All [] fs h = let e : [] ≡ fs = ok-injective h in subst (All IsNamespaced) e tt
  link_findings-All (l ∷ ls) fs h =
      elim (Bool-cases (text_eq (status_or (codes "secure") l.link_status) (codes "secure"))) [
        | inl y ↦ link_findings-All ls fs (rw (link_findings, y) at h)
        | inr n ↦
            let (f, ef, k) =
              >>=-ok (link_finding v wording (status_or (codes "secure") l.link_status) l)
                (λ f. link_findings v wording ls >>= (λ gs. ok (f ∷ gs)))
                (rw (link_findings, n) at h) in
            let (gs, eg, e) = >>=-ok (link_findings v wording ls) (λ gs. ok (f ∷ gs)) k in
            let (severity, es, e') =
              >>=-ok (map_status_severity v (status_or (codes "secure") l.link_status)) (λ s. _)
                ef in
            let here : IsNamespaced f = subst IsNamespaced (ok-injective e') (
              well_formed_under name v is_vocabulary (codes "dnssec.delegation.")
                (refl, refl, refl, refl) (status_or (codes "secure") l.link_status)
                (known name v is_vocabulary (codes "secure") l.link_status severity es)) in
            subst (All IsNamespaced) (ok-injective e) (here, link_findings-All ls gs eg)
      ]

  leaf_findings-All :
      (r : DnssecReport) (fs : List NormalizedFinding)
      → leaf_findings v wording r ≡ ok fs
      → All IsNamespaced fs
  unfolding leaf_findings leaf_finding validate_check_id
  leaf_findings-All r fs h = elim (Option-cases r.leaf) [
    | inl n ↦
        let e : ◌≡◌ {A = Result VocabularyError (List NormalizedFinding)} (ok []) (ok fs) =
          rw (leaf_findings, n) at h in
        subst (All IsNamespaced) (ok-injective e) tt
    | inr (l, k) ↦
        elim (Bool-cases (text_eq (status_or (codes "secure") l.leaf_status) (codes "secure"))) [
          | inl y ↦
              let e : ◌≡◌ {A = Result VocabularyError (List NormalizedFinding)} (ok []) (ok fs) =
                rw (leaf_findings, k, y) at h in
              subst (All IsNamespaced) (ok-injective e) tt
          | inr n ↦
              let (f, ef, e) =
                >>=-ok (leaf_finding v wording r l) (λ f. ok (f ∷ []))
                  (rw (leaf_findings, k, n) at h) in
              let (severity, es, e') =
                >>=-ok (map_status_severity v (status_or (codes "secure") l.leaf_status)) (λ s. _)
                  ef in
              let here : IsNamespaced f = subst IsNamespaced (ok-injective e') (
                well_formed_under name v is_vocabulary (codes "dnssec.leaf.")
                  (refl, refl, refl, refl) (status_or (codes "secure") l.leaf_status)
                  (known name v is_vocabulary (codes "secure") l.leaf_status severity es)) in
              subst (All IsNamespaced) (ok-injective e) (here, tt)
        ]
  ]

  -- Under the vocabulary of the validator, every finding of a report that is normalized has a check id
  -- that the check of ids accepts in the namespace of the module.
  pub normalize-validate_check_id :
      (r : DnssecReport) (fs : List NormalizedFinding)
      → normalize v wording r ≡ ok fs
      → All IsNamespaced fs
  unfolding normalize chain_finding validate_check_id
  normalize-validate_check_id r fs h =
      let (f, ef, k) = >>=-ok (chain_finding v wording r) (λ f. _) h in
      let (links, el, k') = >>=-ok (link_findings v wording r.chain) (λ ls. _) k in
      let (leaves, ev, e) = >>=-ok (leaf_findings v wording r) (λ vs. ok (f ∷ (links ++ vs))) k' in
      let (severity, es, e') =
        >>=-ok (map_status_severity v (status_or (codes "error") r.report_status)) (λ s. _) ef in
      let here : IsNamespaced f = subst IsNamespaced (ok-injective e') refl in
      subst (All IsNamespaced) (ok-injective e) (
        here,
        All-append IsNamespaced links leaves (link_findings-All r.chain links el)
            (leaf_findings-All r leaves ev),
      )
