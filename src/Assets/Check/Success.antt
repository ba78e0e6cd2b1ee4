-- ===== src/Assets/Check/Success.antt =====
-- What `run_check` leaves behind when it succeeds.
use testing_platform_backend.Assets.Check.{Pending, finish_check, proof_of}
use testing_platform_backend.Assets.Check.Proofs.{
  Proves, finish_check-proved, judged, proved_tables,
}
use testing_platform_backend.Assets.Service.{Caller, VerificationState, asserted_context, state_of}
use testing_platform_backend.Assets.Tables.{
  AssetsDb, DomainVerificationChallenge, Organization, challenge_for, name_organization_if_unnamed,
  proof_for, put_proof, sees_challenge, stamp_check,
}
use testing_platform_backend.Assets.Verification.{ResolverOutcome}
use testing_platform_backend.Prelude.{
  All2, Bool, Bool-cases, List, Option-cases, [], arith, count, false, find-modify_all, find_holds,
  inl, inr, is_some, modify_all, none, not, ok, refl, some, true, ℕ, ◌&&◌, ◌==◌, ◌∙◌, ◌∷◌, ◌≡◌, ◌≢◌,
  ◌⊎◌,
}

All2-modify_all :
    {A : Type 0} (R : A → A → Type 0) (p : A → Bool) (f : A → A) (xs : List A)
    → ((x : A) → p x ≡ true → R x (f x))
    → ((x : A) → p x ≡ false → R x x)
    → All2 R xs (modify_all p f xs)
All2-modify_all R p f [] h k = tt
All2-modify_all R p f (x ∷ xs) h k = elim (Bool-cases (p x)) [
  | inl y ↦ rw y (h x y, All2-modify_all R p f xs h k)
  | inr n ↦ rw n (k x n, All2-modify_all R p f xs h k)
]

-- The organization of the caller takes the value as its name if it had none; every other, and one
-- that has been named, is as it was.
abbrev pub NamedOnce : ℕ → List ℕ → ℕ → Organization → Organization → Type 0
NamedOnce organization_id value now o o' =
    ((o.id ≡ organization_id)
      × (o.named_at ≡ none)
      × (o' ≡ record o { name = value; named_at = some now }))
    ⊎ ((o' ≡ o) × ((o.id ≢ organization_id) ⊎ (is_some o.named_at ≡ true)))

name_organization_if_unnamed-NamedOnce :
    (organization_id : ℕ) (value : List ℕ) (now : ℕ) (db : AssetsDb)
    → All2
        (NamedOnce organization_id value now)
        db.organizations
        (name_organization_if_unnamed organization_id value now db).organizations
unfolding name_organization_if_unnamed
name_organization_if_unnamed-NamedOnce organization_id value now db =
    All2-modify_all (NamedOnce organization_id value now)
      (λ (o : Organization). o.id == organization_id && not (is_some o.named_at))
      (λ o. record o { name = value; named_at = some now }) db.organizations named kept
  where
    named :
        (o : Organization)
        → (o.id == organization_id && not (is_some o.named_at)) ≡ true
        → NamedOnce organization_id value now o (record o { name = value; named_at = some now })
    named o y = elim (Option-cases o.named_at) [
      | inl n ↦ inl (ground arith, n, refl)
      | inr (at, e) ↦ ground arith
    ]

    kept :
        (o : Organization)
        → (o.id == organization_id && not (is_some o.named_at)) ≡ false
        → NamedOnce organization_id value now o o
    kept o n = elim (Bool-cases (o.id == organization_id)) [
      | inl y ↦ inr (refl, inr (ground arith))
      | inr z ↦ inr (refl, inl (λ e. ground arith))
    ]

module _ (quorum : ℕ) (q : Caller) (now : ℕ) (w : Pending) (outcomes : List ResolverOutcome) where
  -- the challenge as a check that succeeds leaves it
  abbrev pub cleared : DomainVerificationChallenge → DomainVerificationChallenge
  cleared h = record h { last_recheck_at = some now; failure_code = none }

  -- What a check that succeeds answers and commits: the proof, an organization named at most once,
  -- and the challenge as it stood but for the instant of the check and its failure code.
  abbrev pub Succeeds : AssetsDb → DomainVerificationChallenge → Type 0
  Succeeds db standing =
      (state : VerificationState) × (after : AssetsDb) × (finish_check quorum q now w outcomes db
        ≡ (ok state, after))
      × (after.assets ≡ db.assets)
      × (after.proofs ≡ put_proof (proof_of q now w (judged quorum q now w outcomes)) db.proofs)
      × All2 (NamedOnce q.organization_id w.value now) db.organizations after.organizations
      × (challenge_for (asserted_context q) q.asset_id after ≡ some (cleared standing))
      × (state.challenge ≡ some (cleared standing))
      × (state.proof ≡ proof_for (asserted_context q) q.asset_id after)

  cleared_found :
      (db : AssetsDb) (h : DomainVerificationChallenge)
      → challenge_for (asserted_context q) q.asset_id db ≡ some h
      → challenge_for (asserted_context q) q.asset_id (proved_tables quorum q now w outcomes db)
        ≡ some (cleared h)
  unfolding challenge_for stamp_check name_organization_if_unnamed
  cleared_found db h e =
      let p = sees_challenge (asserted_context q) q.asset_id in
      let seen : p h ≡ true = find_holds p db.challenges e in
      find-modify_all p p cleared db.challenges (λ x. refl) e ∙ rw seen refl

  -- If the challenge stands with the token that was looked up and has not lapsed, the verdict is in
  -- favour, no other asset has a proof of the value, and the session sees exactly one challenge of the
  -- asset, the check succeeds. It writes the proof and no other, names the caller's organization after
  -- the value if it had no name yet and no other, and clears the failure code of the challenge, which
  -- is found afterwards as it stood, checked at that instant; it answers with this challenge and with
  -- the proof that the session then sees.
  pub finish_check-Succeeds :
      (db : AssetsDb) (l : Proves quorum q now w outcomes db)
      → count (sees_challenge (asserted_context q) q.asset_id) db.challenges ≡ 1
      → Succeeds db l.standing
  unfolding stamp_check state_of name_organization_if_unnamed
  finish_check-Succeeds db l one =
      let after : AssetsDb = proved_tables quorum q now w outcomes db in
      let found = cleared_found db l.standing l.is_standing in
      (
        state_of now (proof_for (asserted_context q) q.asset_id after)
            (challenge_for (asserted_context q) q.asset_id after),
        after,
        finish_check-proved quorum q now w outcomes db l one,
        refl,
        refl,
        name_organization_if_unnamed-NamedOnce q.organization_id w.value now db,
        found,
        found,
        refl,
      )
