-- ===== src/Examples/Rosters.antt =====
-- The theorems on the roster, the findings and the row policies at concrete values.
use mathlib.Core.List.{Permᴰ}
use testing_platform_backend.Core.Enums.{FindingSeverity, critical, low}
use testing_platform_backend.Examples.{dnssec_descriptor, one_module}
use testing_platform_backend.Modules.Findings.{NormalizedFinding, order_findings}
use testing_platform_backend.Modules.Findings.Order.{order_findings-perm}
use testing_platform_backend.Modules.Namespaced.{codes, full_match}
use testing_platform_backend.Modules.Namespaced.Segments.{are_segments, full_match-split}
use testing_platform_backend.Modules.Registry.{
  EntryPoint, claim_tests, claimant, discover, implementation,
}
use testing_platform_backend.Modules.Registry.Discovery.{
  Distinct, declared_keys, discover-Distinct, entry_names,
}
use testing_platform_backend.Prelude.{List, [], false, none, refl, ℕ, ◌∷◌, ◌≡◌}
use testing_platform_backend.Text.{split}

abbrev dnssec_entry_point : EntryPoint
dnssec_entry_point = record { name = "dnssec"; loaded = implementation dnssec_descriptor }

discover-Distinct_example : Distinct (entry_names one_module) × Distinct (declared_keys one_module)
unfolding discover claim_tests claimant
discover-Distinct_example = discover-Distinct (dnssec_entry_point ∷ []) one_module refl

abbrev finding : FindingSeverity → ℕ → NormalizedFinding
finding severity check = record {
  check_id = check ∷ [];
  severity = severity;
  title = [];
  description = [];
  affected_resource = none;
  remediation = none;
  evidence = none;
  external_references = [];
}

abbrev low_then_critical : List NormalizedFinding
low_then_critical = finding low 97 ∷ finding critical 98 ∷ []

abbrev critical_then_low : List NormalizedFinding
critical_then_low = finding critical 98 ∷ finding low 97 ∷ []

-- a text in front of another: a mark before every letter, and one at the end
abbrev marked : List ℕ → List ℕ → List ℕ
marked [] rest = 0 ∷ rest
marked (c ∷ t) rest = 1 ∷ c ∷ marked t rest

abbrev marked_all : List (List ℕ) → List ℕ
marked_all [] = []
marked_all (t ∷ ts) = marked t (marked_all ts)

marked-injective : (a b r s : List ℕ) → marked a r ≡ marked b s → (a ≡ b) × (r ≡ s)
marked-injective [] [] r s e = (refl, cc)
marked-injective [] (d ∷ u) r s e = cc
marked-injective (c ∷ t) [] r s e = cc
marked-injective (c ∷ t) (d ∷ u) r s e =
    let (same, rest) = marked-injective t u r s cc in
    let first : c ≡ d = cc in (rw (first, same) refl, rest)

marked_all-injective : (a b : List (List ℕ)) → marked_all a ≡ marked_all b → a ≡ b
marked_all-injective [] [] e = refl
marked_all-injective [] ([] ∷ us) e = cc
marked_all-injective [] ((d ∷ u) ∷ us) e = cc
marked_all-injective ([] ∷ ts) [] e = cc
marked_all-injective ((c ∷ t) ∷ ts) [] e = cc
marked_all-injective (t ∷ ts) (u ∷ us) e =
    let (same, rest) = marked-injective t u (marked_all ts) (marked_all us) e in
    let others : ts ≡ us = marked_all-injective ts us rest in rw (same, others) refl

order_findings-perm_example :
    order_findings marked_all low_then_critical ≡ order_findings marked_all critical_then_low
order_findings-perm_example =
    order_findings-perm marked_all marked_all-injective low_then_critical critical_then_low refl
      ∣ Permᴰ.swap refl refl ∣₁

full_match-split_example :
    full_match (codes "dnssec..chain") ≡ are_segments false (split 46 (codes "dnssec..chain"))
full_match-split_example = full_match-split (codes "dnssec..chain")
