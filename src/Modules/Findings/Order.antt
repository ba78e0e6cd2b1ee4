-- ===== src/Modules/Findings/Order.antt =====
-- The persistence order of findings.
use mathlib.Core.List.{Perm}
use mathlib.Core.Logic.{∥∥₁_elim}
use testing_platform_backend.Core.Enums.{FindingSeverity, critical, high, info, low, medium}
use testing_platform_backend.Modules.Findings.{
  NormalizedFinding, Text, key_le, or_empty, order_findings, order_key, severity_rank,
}
use testing_platform_backend.Prelude.{
  Bool, List, Option, [], any, any-perm, ap, arith, false, if◌then◌else◌, leb, map, none, refl,
  some, sym, true, ℕ, ◌==◌, ◌||◌, ◌∙◌, ◌∷◌, ◌≡◌,
}
use testing_platform_backend.Sorting.{IsSorted, TotalOrder, leb-TotalOrder, lex_le}
use testing_platform_backend.Sorting.Laws.{
  lex-TotalOrder, map-permᴰ, map-sorted, sorted-IsSorted, sorted-permutes, sorted-permᴰ,
}

key_le-TotalOrder : TotalOrder key_le
key_le-TotalOrder = lex-TotalOrder (lex_le leb) (lex-TotalOrder leb leb-TotalOrder)

-- an empty text in place of `None`, which the key does not tell apart
abbrev is_blank : Option Text → Bool
is_blank none = false
is_blank (some []) = true
is_blank (some (c ∷ t)) = false

abbrev pub has_blank : NormalizedFinding → Bool
has_blank f = is_blank f.affected_resource || is_blank f.remediation || is_blank f.evidence

or_empty-injective :
    (a b : Option Text) → is_blank a ≡ false → is_blank b ≡ false → or_empty a ≡ or_empty b → a ≡ b
or_empty-injective none none h k e = refl
or_empty-injective none (some []) h k e = cc
or_empty-injective none (some (c ∷ t)) h k e = cc
or_empty-injective (some []) b h k e = cc
or_empty-injective (some (c ∷ t)) none h k e = cc
or_empty-injective (some (c ∷ t)) (some []) h k e = cc
or_empty-injective (some (c ∷ t)) (some (d ∷ u)) h k e = ap some e

severity_at : ℕ → FindingSeverity
severity_at n =
    if n == 0
    then critical
    else if n == 1
    then high
    else if n == 2
    then medium
    else if n == 3
    then low
    else info

severity_at-severity_rank : (s : FindingSeverity) → severity_at (severity_rank s) ≡ s
unfolding severity_at
severity_at-severity_rank critical = refl
severity_at-severity_rank high = refl
severity_at-severity_rank medium = refl
severity_at-severity_rank low = refl
severity_at-severity_rank info = refl

severity_rank-injective : (s t : FindingSeverity) → severity_rank s ≡ severity_rank t → s ≡ t
severity_rank-injective s t e =
    sym (severity_at-severity_rank s) ∙ ap severity_at e ∙ severity_at-severity_rank t

no_blanks : (a b c : Bool) → (a || b || c) ≡ false → (a ≡ false) × (b ≡ false) × (c ≡ false)
no_blanks a b c h = (ground arith, ground arith, ground arith)

module _ (dumps : List Text → Text) where
  abbrev pub keys : List NormalizedFinding → List (List Text)
  keys = map (order_key dumps)

  -- The order loses and invents no finding, and the keys of what it returns are in order: each is
  -- at most all that follow.
  order_findings_sorts :
      (fs : List NormalizedFinding)
      → Perm (order_findings dumps fs) fs × IsSorted key_le (keys (order_findings dumps fs))
  unfolding order_findings
  order_findings_sorts fs = (
    ∣ sorted-permutes (λ f g. key_le (order_key dumps f) (order_key dumps g)) fs ∣₁,
    rw (map-sorted key_le (order_key dumps) fs)
        (sorted-IsSorted key_le key_le-TotalOrder (keys fs)),
  )

module _ (dumps : List Text → Text)
    (dumps_injective : (a b : List Text) → dumps a ≡ dumps b → a ≡ b) where
  order_key-injective :
      (f g : NormalizedFinding)
      → has_blank f ≡ false
      → has_blank g ≡ false
      → order_key dumps f ≡ order_key dumps g
      → f ≡ g
  unfolding order_key
  order_key-injective f g h k e =
      let (a, b, c) =
        no_blanks (is_blank f.affected_resource) (is_blank f.remediation) (is_blank f.evidence) h in
      let (a', b', c') =
        no_blanks (is_blank g.affected_resource) (is_blank g.remediation) (is_blank g.evidence) k in
      let rank : severity_rank f.severity ≡ severity_rank g.severity = cc in
      let check : f.check_id ≡ g.check_id = cc in
      let resource : or_empty f.affected_resource ≡ or_empty g.affected_resource = cc in
      let title : f.title ≡ g.title = cc in
      let description : f.description ≡ g.description = cc in
      let remedy : or_empty f.remediation ≡ or_empty g.remediation = cc in
      let proof : or_empty f.evidence ≡ or_empty g.evidence = cc in
      let references : dumps f.external_references ≡ dumps g.external_references = cc in
      let severity = severity_rank-injective f.severity g.severity rank in
      let affected = or_empty-injective f.affected_resource g.affected_resource a a' resource in
      let remediation = or_empty-injective f.remediation g.remediation b b' remedy in
      let evidence = or_empty-injective f.evidence g.evidence c c' proof in
      let external = dumps_injective f.external_references g.external_references references in cc

  keys-injective :
      (fs gs : List NormalizedFinding)
      → any has_blank fs ≡ false
      → any has_blank gs ≡ false
      → keys dumps fs ≡ keys dumps gs
      → fs ≡ gs
  keys-injective [] [] h k e = refl
  keys-injective [] (g ∷ gs) h k e = cc
  keys-injective (f ∷ fs) [] h k e = cc
  keys-injective (f ∷ fs) (g ∷ gs) h k e =
      let (f_full, fs_full) = neither (has_blank f) (any has_blank fs) h in
      let (g_full, gs_full) = neither (has_blank g) (any has_blank gs) k in
      let first : order_key dumps f ≡ order_key dumps g = cc in
      let rest : keys dumps fs ≡ keys dumps gs = cc in
      let same : f ≡ g = order_key-injective f g f_full g_full first in
      let others : fs ≡ gs = keys-injective fs gs fs_full gs_full rest in rw (same, others) refl
    where
      neither : (a b : Bool) → (a || b) ≡ false → (a ≡ false) × (b ≡ false)
      neither a b q = (ground arith, ground arith)

  order_findings-full :
      (fs : List NormalizedFinding)
      → any has_blank fs ≡ false
      → any has_blank (order_findings dumps fs) ≡ false
  unfolding order_findings
  order_findings-full fs h =
      any-perm has_blank
        (sorted-permutes (λ f g. key_le (order_key dumps f) (order_key dumps g)) fs)
      ∙ h

  -- Whatever the order in which the engine reports its findings, the persisted sequence is the
  -- same, finding by finding and field by field, if no finding has an empty text in place of a
  -- missing one and different references have different JSON texts.
  pub order_findings-perm :
      (fs gs : List NormalizedFinding)
      → any has_blank fs ≡ false
      → Perm fs gs
      → order_findings dumps fs ≡ order_findings dumps gs
  unfolding order_findings
  order_findings-perm fs gs full p =
      let keys-set : IsSet (List (List Text)) = hlevel in
      let bools : IsSet Bool = hlevel in
      let still : any has_blank gs ≡ false =
        ∥∥₁_elim p (bools _ _) λ q. sym (any-perm has_blank q) ∙ full in
      let same : keys dumps (order_findings dumps fs) ≡ keys dumps (order_findings dumps gs) =
        ∥∥₁_elim p (keys-set _ _) λ q.
          map-sorted key_le (order_key dumps) fs
          ∙ sorted-permᴰ key_le key_le-TotalOrder (map-permᴰ (order_key dumps) q)
          ∙ sym (map-sorted key_le (order_key dumps) gs) in
      keys-injective (order_findings dumps fs) (order_findings dumps gs)
        (order_findings-full fs full) (order_findings-full gs still) same
