-- ===== src/Assets/Check/Runs.antt =====
-- The machine of the verification transactions, by any callers and in any order.
use testing_platform_backend.Assets.Check.{
  Pending, adjudicate, finish_check, is_platform_fault, proof_of, stamped,
}
use testing_platform_backend.Assets.Check.Claims.{
  AssetsOk, adjudicate-AssetsOk, stamped-AssetsOk, upsert_challenge-AssetsOk,
}
use testing_platform_backend.Assets.Service.{
  AssetError, Caller, Challenging, asserted_context, domain_claim_lost, fresh_challenge, is_domain,
  regenerate_token, start_challenge,
}
use testing_platform_backend.Assets.Tables.{
  AssetsDb, DomainVerification, asset_for, challenge_for, claims, name_organization_if_unnamed,
  proof_for, put_proof, sees_challenge, stamp_check, upsert_challenge, upsert_proof,
}
use testing_platform_backend.Assets.Verification.{
  CheckVerdict, ResolverOutcome, VerificationFailureCode, challenge_superseded, claim_lost,
  evaluate,
}
use testing_platform_backend.Core.Enums.{VerificationScope}
use testing_platform_backend.Prelude.{
  Bool-cases, List, Option, Option-cases, Result, Result-cases, Some, [], any, arith, count, err,
  inl, inr, is_some, leb, none, not, ok, refl, some, ℕ, ◌==◌, ◌∷◌, ◌≡◌,
}
use testing_platform_backend.Text.{text_eq}

module _ (k : Challenging) (quorum : ℕ) where
  -- One transaction: of any caller, at any instant, with whatever was drawn, kept in memory or
  -- answered by resolvers.
  pub data AssetStep : AssetsDb → AssetsDb → Type 0 where
    starts :
        (q : Caller) (now : ℕ) (token : List ℕ) (requested_scope : VerificationScope)
        (db after : AssetsDb)
        → after ≡ (start_challenge k q now token requested_scope db).1
        → AssetStep db after
    regenerates :
        (q : Caller) (now : ℕ) (token : List ℕ) (db after : AssetsDb)
        → after ≡ (regenerate_token k q now token db).1
        → AssetStep db after
    checks :
        (q : Caller) (now : ℕ) (w : Pending) (outcomes : List ResolverOutcome) (db after : AssetsDb)
        → after ≡ (finish_check quorum q now w outcomes db).1
        → AssetStep db after

  pub data AssetSteps : AssetsDb → AssetsDb → Type 0 where
    none_yet : (db : AssetsDb) → AssetSteps db db
    then_step : (a b c : AssetsDb) → AssetSteps a b → AssetStep b c → AssetSteps a c

  -- A proof as it can be seen later: of the same organization and asset.
  abbrev pub Stands : DomainVerification → AssetsDb → Type 0
  Stands d db =
      Some (λ e. (e.organization_id ≡ d.organization_id) × (e.asset_id ≡ d.asset_id)) db.proofs

  Good : AssetsDb → AssetsDb → Type 0
  Good db after =
      (AssetsOk db → AssetsOk after) × ((d : DomainVerification) → Stands d db → Stands d after)

  start_challenge-Good :
      (q : Caller) (now : ℕ) (token : List ℕ) (requested_scope : VerificationScope) (db : AssetsDb)
      → Good db (start_challenge k q now token requested_scope db).1
  unfolding Good start_challenge upsert_challenge
  start_challenge-Good q now token requested_scope db =
      elim (Option-cases (asset_for (asserted_context q) q.asset_id db)) [
        | inl n ↦ rw (start_challenge, n) (λ h. h, λ d h. h)
        | inr (a, e) ↦ elim (Bool-cases (not (is_domain a.asset_type))) [
          | inl y ↦ rw (start_challenge, e, y) (λ h. h, λ d h. h)
          | inr n ↦
              rw (start_challenge, e, n)
                (
                  upsert_challenge-AssetsOk (fresh_challenge k q now token requested_scope a) db
                      refl,
                  λ d h. h,
                )
        ]
      ]

  regenerate_token-Good :
      (q : Caller) (now : ℕ) (token : List ℕ) (db : AssetsDb)
      → Good db (regenerate_token k q now token db).1
  unfolding Good regenerate_token upsert_challenge
  regenerate_token-Good q now token db =
      elim (Option-cases (asset_for (asserted_context q) q.asset_id db)) [
        | inl n ↦ rw (regenerate_token, n) (λ h. h, λ d h. h)
        | inr (a, e) ↦ elim (Bool-cases (is_some (proof_for (asserted_context q) q.asset_id db))) [
          | inl y ↦ rw (regenerate_token, e, y) (λ h. h, λ d h. h)
          | inr n ↦ elim (Option-cases (challenge_for (asserted_context q) q.asset_id db)) [
            | inl m ↦ rw (regenerate_token, e, n, m) (λ h. h, λ d h. h)
            | inr (old, f) ↦
                rw (regenerate_token, e, n, f)
                  (
                    upsert_challenge-AssetsOk (fresh_challenge k q now token old.requested_scope a)
                        db refl,
                    λ d h. h,
                  )
          ]
        ]
      ]

  stamped-Good :
      (d : DomainVerification) (q : Caller) (now : ℕ) (code : Option VerificationFailureCode)
      (ending : Result AssetError (Unit {0})) (before db : AssetsDb)
      → Stands d before
      → Stands d db
      → Stands d (stamped q now code ending before db).1
  unfolding stamped stamp_check
  stamped-Good d q now code ending before db hb h =
      elim (Bool-cases
        (not (count (sees_challenge (asserted_context q) q.asset_id) db.challenges == 1))) [
          | inl y ↦ rw (stamped, stamp_check, y) hb
          | inr n ↦ elim (Result-cases ending) [
            | inl (x, e) ↦ rw (stamped, stamp_check, n, e) h
            | inr (x, e) ↦ rw (stamped, stamp_check, n, e) h
          ]
        ]

  put_proof-Stands :
      (d added : DomainVerification) (ds : List DomainVerification)
      → Some (λ e. (e.organization_id ≡ d.organization_id) × (e.asset_id ≡ d.asset_id)) ds
      → Some
          (λ e. (e.organization_id ≡ d.organization_id) × (e.asset_id ≡ d.asset_id))
          (put_proof added ds)
  put_proof-Stands d added [] h = absurd h
  put_proof-Stands d added (x ∷ ds) h = elim (Bool-cases (x.asset_id == added.asset_id)) [
    | inl y ↦ rw y (elim h [ inl (o, a) ↦ inl (o, ground arith) | inr r ↦ inr r ])
    | inr n ↦ rw n (elim h [ inl w ↦ inl w | inr r ↦ inr (put_proof-Stands d added ds r) ])
  ]

  adjudicate-Good :
      (d : DomainVerification) (q : Caller) (now : ℕ) (w : Pending) (verdict : CheckVerdict)
      (db : AssetsDb)
      → Stands d db
      → Stands d (adjudicate q now w verdict db).1
  unfolding adjudicate upsert_proof name_organization_if_unnamed
  adjudicate-Good d q now w verdict db h =
      elim (Bool-cases (any (claims (proof_of q now w verdict)) db.proofs)) [
        | inl y ↦
            rw (adjudicate, upsert_proof, y)
              (stamped-Good d q now (some claim_lost) (err domain_claim_lost) db db h h)
        | inr n ↦
            rw (adjudicate, upsert_proof, n)
              (stamped-Good d q now none (ok tt) db
                (name_organization_if_unnamed q.organization_id w.value now
                  (record db { proofs = put_proof (proof_of q now w verdict) db.proofs }))
                h (put_proof-Stands d (proof_of q now w verdict) db.proofs h))
      ]

  finish_check-Good :
      (q : Caller) (now : ℕ) (w : Pending) (outcomes : List ResolverOutcome) (db : AssetsDb)
      → Good db (finish_check quorum q now w outcomes db).1
  unfolding Good finish_check
  finish_check-Good q now w outcomes db =
      elim (Option-cases (challenge_for (asserted_context q) q.asset_id db)) [
        | inl n ↦ rw (finish_check, n) (λ h. h, λ d h. h)
        | inr (h, f) ↦ elim (Bool-cases (leb h.token_expires_at now)) [
          | inl y ↦ rw (finish_check, f, y) (λ h. h, λ d h. h)
          | inr n ↦ elim (Bool-cases (not (text_eq h.verification_token w.token))) [
            | inl y ↦ rw (finish_check, f, n, y) (stampings (some challenge_superseded))
            | inr s ↦
                elim (Bool-cases (evaluate outcomes w.token w.requested_scope quorum).is_verified) [
                  | inl y ↦
                      rw (finish_check, f, n, s, y)
                        (
                          adjudicate-AssetsOk q now w
                              (evaluate outcomes w.token w.requested_scope quorum) db,
                          λ d.
                              adjudicate-Good d q now w
                                (evaluate outcomes w.token w.requested_scope quorum) db,
                        )
                  | inr v ↦
                      elim (Bool-cases (
                        is_platform_fault
                          (evaluate outcomes w.token w.requested_scope quorum).failure_code)) [
                            | inl y ↦ rw (finish_check, f, n, s, v, y) (λ h. h, λ d h. h)
                            | inr z ↦
                                rw (finish_check, f, n, s, v, z)
                                  (stampings
                                    (evaluate outcomes w.token w.requested_scope
                                      quorum).failure_code)
                          ]
                ]
          ]
        ]
      ]
    where
      stampings :
          (code : Option VerificationFailureCode)
          → (AssetsOk db → AssetsOk (stamped q now code (ok tt) db db).1)
            × ((d : DomainVerification)
                → Stands d db
                → Stands d (stamped q now code (ok tt) db db).1)
      stampings code = (
        λ h. stamped-AssetsOk q now code (ok tt) db db h h,
        λ d h. stamped-Good d q now code (ok tt) db db h h,
      )

  AssetStep-Good : (db after : AssetsDb) → AssetStep db after → Good db after
  AssetStep-Good db after (starts q now token requested_scope _ _ e) =
      rw e (start_challenge-Good q now token requested_scope db)
  AssetStep-Good db after (regenerates q now token _ _ e) =
      rw e (regenerate_token-Good q now token db)
  AssetStep-Good db after (checks q now w outcomes _ _ e) =
      rw e (finish_check-Good q now w outcomes db)

  -- No sequence of the transactions of challenges and checks, by any callers and in any order,
  -- gives two proofs of one value or of one asset, or a failure code without a recorded check.
  pub AssetSteps-AssetsOk :
      (db after : AssetsDb) → AssetSteps db after → AssetsOk db → AssetsOk after
  unfolding Good
  AssetSteps-AssetsOk db after (none_yet _) h = h
  AssetSteps-AssetsOk db after (then_step _ b _ r s) h =
      (AssetStep-Good b after s).0 (AssetSteps-AssetsOk db b r h)

  -- A proof that stands is neither withdrawn nor moved to another organization or asset by any
  -- sequence of those transactions.
  AssetSteps-Stands :
      (d : DomainVerification) (db after : AssetsDb)
      → AssetSteps db after
      → Stands d db
      → Stands d after
  unfolding Good
  AssetSteps-Stands d db after (none_yet _) h = h
  AssetSteps-Stands d db after (then_step _ b _ r s) h =
      (AssetStep-Good b after s).1 d (AssetSteps-Stands d db b r h)
