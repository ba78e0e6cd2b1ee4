-- ===== src/Assets/Check/Claims.antt =====
-- The claims on domains: at most one proof for a value and for an asset, whoever asks and in
-- whatever order the transactions come.
use testing_platform_backend.Assets.Check.{Pending, adjudicate, proof_of, stamped}
use testing_platform_backend.Assets.Service.{
  AssetError, Caller, asserted_context, domain_claim_lost,
}
use testing_platform_backend.Assets.Tables.{
  AssetsDb, DomainVerification, DomainVerificationChallenge, claims, name_organization_if_unnamed,
  put_challenge, put_proof, sees_challenge, stamp_check, upsert_challenge, upsert_proof,
}
use testing_platform_backend.Assets.Verification.{CheckVerdict, VerificationFailureCode, claim_lost}
use testing_platform_backend.Prelude.{
  All, All-both, All-modify_all, Bool-cases, List, Option, Result, Result-cases, [], any, arith,
  count, err, false, inl, inr, is_some, modify_all, none, not, not_any-All, ok, refl, some, true, ℕ,
  ◌==◌, ◌∙◌, ◌∷◌, ◌≡◌,
}
use testing_platform_backend.Text.{text_eq}
use testing_platform_backend.Text.Laws.{text_eq_comm}

-- The proof conflicts with none of the list: another asset, and another value.
abbrev Apart : DomainVerification → DomainVerification → Type 0
Apart d e = (text_eq e.value d.value ≡ false) × ((e.asset_id == d.asset_id) ≡ false)

abbrev pub ClaimsOk : List DomainVerification → Type 0
ClaimsOk [] = Unit
ClaimsOk (d ∷ ds) = All (λ e. Apart d e) ds × ClaimsOk ds

-- A failure code follows a recorded check.
abbrev pub RecheckOk : DomainVerificationChallenge → Type 0
RecheckOk h = (is_some h.failure_code ≡ true) → is_some h.last_recheck_at ≡ true

abbrev pub AssetsOk : AssetsDb → Type 0
AssetsOk db = ClaimsOk db.proofs × All RecheckOk db.challenges

put_proof-All :
    (P : DomainVerification → Type 0) (added : DomainVerification) (ds : List DomainVerification)
    → ((o : ℕ) → P (record added { organization_id = o }))
    → All P ds
    → All P (put_proof added ds)
put_proof-All P added [] k h = (k added.organization_id, tt)
put_proof-All P added (d ∷ ds) k h = elim (Bool-cases (d.asset_id == added.asset_id)) [
  | inl y ↦ rw y (k d.organization_id, h.1)
  | inr n ↦ rw n (h.0, put_proof-All P added ds k h.1)
]

put_proof-ClaimsOk :
    (added : DomainVerification) (ds : List DomainVerification)
    → any (claims added) ds ≡ false
    → ClaimsOk ds
    → ClaimsOk (put_proof added ds)
put_proof-ClaimsOk added [] h c = (tt, tt)
put_proof-ClaimsOk added (d ∷ ds) h c = elim (Bool-cases (d.asset_id == added.asset_id)) [
  | inl y ↦ rw y (
    All-both (λ e. Apart d e) (λ e. claims added e ≡ false)
        (λ e. Apart (record added { organization_id = d.organization_id }) e) ds
        (λ e q r. ground arith) c.0 (not_any-All (claims added) ds (ground arith)),
    c.1,
  )
  | inr n ↦ rw n (
    put_proof-All (Apart d) added ds
        (λ o. (text_eq_comm added.value d.value ∙ ground arith, ground arith)) c.0,
    put_proof-ClaimsOk added ds (ground arith) c.1,
  )
]

put_challenge-All :
    (added : DomainVerificationChallenge) (hs : List DomainVerificationChallenge)
    → added.failure_code ≡ none
    → All RecheckOk hs
    → All RecheckOk (put_challenge added hs)
put_challenge-All added [] e h = (λ f. ground arith, tt)
put_challenge-All added (x ∷ hs) e h = elim (Bool-cases (x.asset_id == added.asset_id)) [
  | inl y ↦ rw y (λ f. ground arith, h.1)
  | inr n ↦ rw n (h.0, put_challenge-All added hs e h.1)
]

pub upsert_challenge-AssetsOk :
    (added : DomainVerificationChallenge) (db : AssetsDb)
    → added.failure_code ≡ none
    → AssetsOk db
    → AssetsOk (upsert_challenge added db)
unfolding upsert_challenge
upsert_challenge-AssetsOk added db e h = (h.0, put_challenge-All added db.challenges e h.1)

pub stamped-AssetsOk :
    (q : Caller) (now : ℕ) (code : Option VerificationFailureCode)
    (ending : Result AssetError (Unit {0})) (before db : AssetsDb)
    → AssetsOk before
    → AssetsOk db
    → AssetsOk (stamped q now code ending before db).1
unfolding stamped stamp_check
stamped-AssetsOk q now code ending before db hb h =
    let restamped : All RecheckOk (
        modify_all (sees_challenge (asserted_context q) q.asset_id)
          (λ x. record x { last_recheck_at = some now; failure_code = code }) db.challenges) =
      All-modify_all RecheckOk (sees_challenge (asserted_context q) q.asset_id)
        (λ x. record x { last_recheck_at = some now; failure_code = code }) db.challenges h.1
        (λ x s r f. refl) in
    elim (Bool-cases
      (not (count (sees_challenge (asserted_context q) q.asset_id) db.challenges == 1))) [
        | inl y ↦ rw (stamped, stamp_check, y) hb
        | inr n ↦ elim (Result-cases ending) [
          | inl (x, e) ↦ rw (stamped, stamp_check, n, e) (h.0, restamped)
          | inr (x, e) ↦ rw (stamped, stamp_check, n, e) (h.0, restamped)
        ]
      ]

pub adjudicate-AssetsOk :
    (q : Caller) (now : ℕ) (w : Pending) (verdict : CheckVerdict) (db : AssetsDb)
    → AssetsOk db
    → AssetsOk (adjudicate q now w verdict db).1
unfolding adjudicate upsert_proof name_organization_if_unnamed
adjudicate-AssetsOk q now w verdict db h =
    elim (Bool-cases (any (claims (proof_of q now w verdict)) db.proofs)) [
      | inl y ↦
          rw (adjudicate, upsert_proof, y)
            (stamped-AssetsOk q now (some claim_lost) (err domain_claim_lost) db db h h)
      | inr n ↦
          rw (adjudicate, upsert_proof, n)
            (stamped-AssetsOk q now none (ok tt) db
              (name_organization_if_unnamed q.organization_id w.value now
                (record db { proofs = put_proof (proof_of q now w verdict) db.proofs }))
              h (put_proof-ClaimsOk (proof_of q now w verdict) db.proofs n h.0, h.1))
    ]
