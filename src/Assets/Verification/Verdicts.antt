-- ===== src/Assets/Verification/Verdicts.antt =====
-- The acceptance rule of `evaluate`, and what a match of the token means.
use testing_platform_backend.Assets.Verification.{
  ResolverOutcome, evaluate, is_answered, is_ascii, is_platform_outcome, join, judge_answers,
  judge_carrying, judge_silence, token_matches,
}
use testing_platform_backend.Core.Enums.{VerificationScope, exact, zone}
use testing_platform_backend.Prelude.{
  All, All-all, Bool-cases, List, List-cases, Some, Some-any, Some-map, [], all, all-All, any-Some,
  ap, arith, cons≢nil, false, false≢true, inl, inr, keep, leb, length, not, refl, sym, true, ℕ,
  ◌&&◌, ◌==◌, ◌↔◌, ◌∙◌, ◌∷◌, ◌≡◌, ◌≢◌, ◌≤◌, ◌⊎◌,
}
use testing_platform_backend.Text.{text_eq}
use testing_platform_backend.Text.Laws.{text_eq_iff}

-- A token matches just when it is ASCII and some one record, its strings joined, is the token.
token_matches_iff :
    (token : List ℕ) (rrset : List (List (List ℕ)))
    → (token_matches token rrset ≡ true)
      ↔ ((all is_ascii token ≡ true) × Some (λ strings. join strings ≡ token) rrset)
unfolding token_matches
token_matches_iff token rrset = (
  (λ h. elim (Bool-cases (all is_ascii token)) [
    | inl y ↦ (
      y,
      Some-map (λ r. text_eq (join r) token ≡ true) (λ r. join r ≡ token) rrset
          (λ r e. (text_eq_iff (join r) token).0 e)
          (any-Some (λ r. text_eq (join r) token) rrset (rw y at h)),
    )
    | inr n ↦ absurd (false≢true (rw n at h))
  ]),
  (λ (y, m). rw y (
      Some-any (λ r. text_eq (join r) token) rrset
        (Some-map (λ r. join r ≡ token) (λ r. text_eq (join r) token ≡ true) rrset
          (λ r e. (text_eq_iff (join r) token).1 e) m))),
)

-- the answers that carry the token
abbrev pub carrying_of : List ResolverOutcome → List ℕ → List ResolverOutcome
carrying_of outcomes token =
    keep (λ o. token_matches token o.strings) (keep (λ o. is_answered o.outcome) outcomes)

-- either every answer with the token was validated, or the name alone is claimed and enough
-- resolvers carried it
abbrev pub Enough : List ResolverOutcome → VerificationScope → ℕ → Type 0
Enough carrying scope quorum =
    All (λ o. o.authenticated ≡ true) carrying ⊎ ((scope ≡ exact) × (quorum ≤ length carrying))

zone≢exact : zone ≢ exact
zone≢exact e = cc

judge_carrying-Enough :
    (os : List ResolverOutcome) (scope : VerificationScope) (quorum : ℕ)
    → ((judge_carrying os scope quorum).is_verified ≡ true) ↔ Enough os scope quorum
unfolding judge_carrying
judge_carrying-Enough os exact quorum = elim (Bool-cases (all (λ o. o.authenticated) os)) [
  | inl y ↦ (λ h. inl (all-All (λ o. o.authenticated) os y), λ k. rw (judge_carrying, y) refl)
  | inr n ↦ elim (Bool-cases (leb quorum (length os))) [
    | inl l ↦ (λ h. inr (refl, ground arith), λ k. rw (judge_carrying, n, l) refl)
    | inr m ↦ (
      λ h. absurd (false≢true (rw (judge_carrying, n, m) at h)),
      λ k. elim k [
        | inl a ↦ absurd (false≢true (sym n ∙ All-all (λ o. o.authenticated) os a))
        | inr (e, q) ↦ ground arith
      ],
    )
  ]
]
judge_carrying-Enough os zone quorum = elim (Bool-cases (all (λ o. o.authenticated) os)) [
  | inl y ↦ (λ h. inl (all-All (λ o. o.authenticated) os y), λ k. rw (judge_carrying, y) refl)
  | inr n ↦ (
    λ h. absurd (false≢true (rw (judge_carrying, n) at h)),
    λ k. elim k [
      | inl a ↦ absurd (false≢true (sym n ∙ All-all (λ o. o.authenticated) os a))
      | inr (e, q) ↦ absurd (zone≢exact e)
    ],
  )
]

judge_silence_refuses : (os : List ResolverOutcome) → (judge_silence os).is_verified ≡ false
unfolding judge_silence
judge_silence_refuses os =
    elim (Bool-cases (not (length os == 0) && all (λ o. is_platform_outcome o.outcome) os)) [
      | inl y ↦ rw (judge_silence, y) refl
      | inr n ↦ rw (judge_silence, n) refl
    ]

-- A set of answers proves the control of a name just when some resolver answered with the token,
-- and either every answer with the token was validated by DNSSEC, or only the name itself is claimed
-- and as many resolvers as the quorum carried the token.
pub evaluate-Enough :
    (outcomes : List ResolverOutcome) (token : List ℕ) (scope : VerificationScope) (quorum : ℕ)
    → ((evaluate outcomes token scope quorum).is_verified ≡ true)
      ↔ ((carrying_of outcomes token ≢ []) × Enough (carrying_of outcomes token) scope quorum)
unfolding evaluate judge_answers
evaluate-Enough outcomes token scope quorum =
    elim (List-cases (keep (λ o. is_answered o.outcome) outcomes)) [
      | inl e ↦
          let r : (evaluate outcomes token scope quorum).is_verified ≡ false =
            rw (evaluate, e) (judge_silence_refuses outcomes) in
          (λ h. absurd (false≢true (sym r ∙ h)), λ k. absurd (k.0 (rw e refl)))
      | inr (a, later, e) ↦ elim (List-cases (carrying_of outcomes token)) [
        | inl f ↦
            let g : keep (λ o. token_matches token o.strings) (a ∷ later) ≡ [] = rw e at f in
            let r : (evaluate outcomes token scope quorum).is_verified ≡ false =
              rw (evaluate, e, judge_answers, g) refl in
            (λ h. absurd (false≢true (sym r ∙ h)), λ k. absurd (k.0 f))
        | inr (c, cs, f) ↦
            let g : keep (λ o. token_matches token o.strings) (a ∷ later) ≡ c ∷ cs = rw e at f in
            let r : evaluate outcomes token scope quorum ≡ judge_carrying (c ∷ cs) scope quorum =
              rw (evaluate, e, judge_answers, g) refl in
            let j = judge_carrying-Enough (c ∷ cs) scope quorum in
            (
              λ h. (
                (λ n. cons≢nil c cs (sym f ∙ n)),
                rw f (j.0 (sym (ap (λ v. v.is_verified) r) ∙ h)),
              ),
              λ k. ap (λ v. v.is_verified) r ∙ j.1 (rw f at k.1),
            )
      ]
    ]
