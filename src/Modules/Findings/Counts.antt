-- ===== src/Modules/Findings/Counts.antt =====
-- The counts per severity.
use testing_platform_backend.Core.Enums.{FindingSeverity, critical, high, info, low, medium}
use testing_platform_backend.Modules.Findings.{
  NormalizedFinding, SeverityCounts, count_from, increment, no_counts, severity_counts,
  severity_rank,
}
use testing_platform_backend.Prelude.{Bool, List, [], arith, count, length, ℕ, ◌+◌, ◌==◌, ◌∷◌, ◌≡◌}

abbrev pub has_severity : FindingSeverity → NormalizedFinding → Bool
has_severity s f = severity_rank f.severity == severity_rank s

-- The bands of `m` are those of `n` and the findings of each severity.
abbrev pub Counted : SeverityCounts → List NormalizedFinding → SeverityCounts → Type 0
Counted n fs m =
    (m.critical_count ≡ n.critical_count + count (has_severity critical) fs)
    × (m.high_count ≡ n.high_count + count (has_severity high) fs)
    × (m.medium_count ≡ n.medium_count + count (has_severity medium) fs)
    × (m.low_count ≡ n.low_count + count (has_severity low) fs)
    × (m.info_count ≡ n.info_count + count (has_severity info) fs)

count_from-Counted :
    (n : SeverityCounts) (fs : List NormalizedFinding) → Counted n fs (count_from n fs)
unfolding count_from
count_from-Counted n [] = omega arith
count_from-Counted n (f ∷ fs) = ground (arith, count_from-Counted (increment f.severity n) fs)

abbrev pub total : SeverityCounts → ℕ
total m = m.critical_count + m.high_count + m.medium_count + m.low_count + m.info_count

count_from-total :
    (n : SeverityCounts) (fs : List NormalizedFinding)
    → total (count_from n fs) ≡ total n + length fs
unfolding count_from
count_from-total n [] = omega arith
count_from-total n (f ∷ fs) = ground (arith, count_from-total (increment f.severity n) fs)

-- Each band counts exactly the findings of its severity, and the bands add up to all the findings.
severity_counts_lem :
    (fs : List NormalizedFinding)
    → Counted no_counts fs (severity_counts fs) × (total (severity_counts fs) ≡ length fs)
unfolding severity_counts
severity_counts_lem fs =
    (count_from-Counted no_counts fs, omega (arith, count_from-total no_counts fs))
