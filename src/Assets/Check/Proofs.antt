-- ===== src/Assets/Check/Proofs.antt =====
-- When a check writes a proof.
use testing_platform_backend.Assets.Check.{
  Pending, adjudicate, finish_check, is_platform_fault, proof_of, stamped,
}
use testing_platform_backend.Assets.Service.{
  AssetError, Caller, asserted_context, domain_claim_lost, state_of,
}
use testing_platform_backend.Assets.Tables.{
  AssetsDb, DomainVerificationChallenge, challenge_for, claims, name_organization_if_unnamed,
  proof_for, put_proof, sees_challenge, stamp_check, upsert_proof,
}
use testing_platform_backend.Assets.Verification.{
  CheckVerdict, ResolverOutcome, VerificationFailureCode, challenge_superseded, claim_lost,
  evaluate,
}
use testing_platform_backend.Prelude.{
  Bool-cases, List, Option, Option-cases, Result, Result-cases, any, arith, count, err, false, inl,
  inr, leb, none, not, ok, refl, some, true, ℕ, ◌<◌, ◌==◌, ◌≡◌, ◌⊎◌,
}
use testing_platform_backend.Text.{text_eq}

module _ (quorum : ℕ) (q : Caller) (now : ℕ) (w : Pending) (outcomes : List ResolverOutcome) where
  abbrev pub judged : CheckVerdict
  judged = evaluate outcomes w.token w.requested_scope quorum

  -- The challenge still stands with the token that was looked up, it has not lapsed by the second
  -- transaction, the verdict is in favour, and no other row holds the value.
  pub record Proves (db : AssetsDb) : Type 0 where
    pub standing : DomainVerificationChallenge
    pub is_standing : challenge_for (asserted_context q) q.asset_id db ≡ some standing
    pub same_token : text_eq standing.verification_token w.token ≡ true
    pub not_lapsed : now < standing.token_expires_at
    pub in_favour : judged.is_verified ≡ true
    pub unclaimed : any (claims (proof_of q now w judged)) db.proofs ≡ false

  stamped-proofs :
      (code : Option VerificationFailureCode) (ending : Result AssetError (Unit {0}))
      (before db : AssetsDb)
      → ((stamped q now code ending before db).1.proofs ≡ before.proofs)
        ⊎ ((stamped q now code ending before db).1.proofs ≡ db.proofs)
  unfolding stamped stamp_check
  stamped-proofs code ending before db =
      elim (Bool-cases
        (not (count (sees_challenge (asserted_context q) q.asset_id) db.challenges == 1))) [
          | inl y ↦ rw (stamped, stamp_check, y) (inl refl)
          | inr n ↦ elim (Result-cases ending) [
            | inl (x, e) ↦ rw (stamped, stamp_check, n, e) (inr refl)
            | inr (x, e) ↦ rw (stamped, stamp_check, n, e) (inr refl)
          ]
        ]

  -- The second transaction of a check leaves the proofs as they were, or all that follows holds and
  -- it writes the proof of the asset for the value and at the scope that were read before the
  -- lookup: the challenge still stands, with the token that was looked up and before its expiry, the
  -- verdict on the answers is in favour, and no other asset has a proof of the value.
  pub finish_check-Proves :
      (db : AssetsDb)
      → ((finish_check quorum q now w outcomes db).1.proofs ≡ db.proofs)
        ⊎ (Proves db
            × ((finish_check quorum q now w outcomes db).1.proofs
                ≡ put_proof (proof_of q now w judged) db.proofs))
  unfolding finish_check adjudicate upsert_proof name_organization_if_unnamed
  finish_check-Proves db = elim (Option-cases (challenge_for (asserted_context q) q.asset_id db)) [
    | inl n ↦ inl (rw (finish_check, n) refl)
    | inr (h, f) ↦ elim (Bool-cases (leb h.token_expires_at now)) [
      | inl y ↦ inl (rw (finish_check, f, y) refl)
      | inr n ↦ elim (Bool-cases (not (text_eq h.verification_token w.token))) [
        | inl y ↦ inl (rw (finish_check, f, n, y) (unchanged (some challenge_superseded)))
        | inr s ↦ elim (Bool-cases judged.is_verified) [
          | inl y ↦ elim (Bool-cases (any (claims (proof_of q now w judged)) db.proofs)) [
            | inl c ↦ inl (rw (finish_check, f, n, s, y, adjudicate, upsert_proof, c) lost)
            | inr c ↦
                let facts : Proves db = record {
                  standing = h;
                  is_standing = f;
                  same_token = ground arith;
                  not_lapsed = ground arith;
                  in_favour = y;
                  unclaimed = c;
                } in
                let named : AssetsDb =
                  name_organization_if_unnamed q.organization_id w.value now
                    (record db { proofs = put_proof (proof_of q now w judged) db.proofs }) in
                elim (stamped-proofs none (ok tt) db named) [
                  | inl e ↦ inl (rw (finish_check, f, n, s, y, adjudicate, upsert_proof, c) e)
                  | inr e ↦
                      inr (facts, rw (finish_check, f, n, s, y, adjudicate, upsert_proof, c) e)
                ]
          ]
          | inr v ↦ elim (Bool-cases (is_platform_fault judged.failure_code)) [
            | inl y ↦ inl (rw (finish_check, f, n, s, v, y) refl)
            | inr z ↦ inl (rw (finish_check, f, n, s, v, z) (unchanged judged.failure_code))
          ]
        ]
      ]
    ]
  ]
    where
      unchanged :
          (code : Option VerificationFailureCode)
          → (stamped q now code (ok tt) db db).1.proofs ≡ db.proofs
      unchanged code = elim (stamped-proofs code (ok tt) db db) [ inl e ↦ e | inr e ↦ e ]

      lost : (stamped q now (some claim_lost) (err domain_claim_lost) db db).1.proofs ≡ db.proofs
      lost = elim (stamped-proofs (some claim_lost) (err domain_claim_lost) db db) [
        | inl e ↦ e
        | inr e ↦ e
      ]

  -- the tables after a check that writes the proof
  abbrev pub proved_tables : AssetsDb → AssetsDb
  proved_tables db =
      (stamp_check (asserted_context q) q.asset_id now none (
        name_organization_if_unnamed q.organization_id w.value now
          (record db { proofs = put_proof (proof_of q now w judged) db.proofs }))).1

  -- a check that meets all of these writes those tables
  pub finish_check-proved :
      (db : AssetsDb)
      → Proves db
      → count (sees_challenge (asserted_context q) q.asset_id) db.challenges ≡ 1
      → finish_check quorum q now w outcomes db ≡ (
        ok (
            state_of now
              (proof_for (asserted_context q) q.asset_id (proved_tables db))
              (challenge_for (asserted_context q) q.asset_id (proved_tables db))),
        proved_tables db,
      )
  unfolding finish_check adjudicate upsert_proof name_organization_if_unnamed stamped stamp_check
  finish_check-proved db l one =
      let early : leb l.standing.token_expires_at now ≡ false = ground (arith, l.not_lapsed) in
      let same : not (text_eq l.standing.verification_token w.token) ≡ false =
        rw l.same_token refl in
      let met : not (count (sees_challenge (asserted_context q) q.asset_id) db.challenges == 1)
          ≡ false =
        rw one refl in
      rw
        (
          finish_check, l.is_standing, early, same, l.in_favour, adjudicate, upsert_proof,
          l.unclaimed, stamped, stamp_check, met,
        )
        refl
