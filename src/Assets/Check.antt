-- ===== src/Assets/Check.antt =====
-- `run_check` of domains/assets/service.py: its transaction before the lookup of the record, and the
-- one after it, with what the resolvers answered.
pub mod Claims
pub mod Runs
pub mod Proofs
pub mod Success
use testing_platform_backend.Assets.Service.{
  AssetError, Caller, VerificationState, asserted_context, asset_not_found, challenge_lapsed,
  context_lost, domain_claim_lost, is_domain, not_a_domain_asset, resolvers_unavailable, state_of,
  verification_not_started,
}
use testing_platform_backend.Assets.Tables.{
  AssetsDb, DomainVerification, asset_for, challenge_for, name_organization_if_unnamed, proof_for,
  stamp_check, upsert_proof,
}
use testing_platform_backend.Assets.Verification.{
  CheckVerdict, ResolverOutcome, VerificationFailureCode, capacity_exhausted, challenge_superseded,
  claim_lost, evaluate, resolver_unavailable,
}
use testing_platform_backend.Core.ApiDb.{unit_of_work}
use testing_platform_backend.Core.Enums.{VerificationScope}
use testing_platform_backend.Prelude.{
  Bool, List, Option, Result, err, false, if◌then◌else◌, leb, none, not, ok, some, true, ℕ, ◌==◌,
}
use testing_platform_backend.Text.{text_eq}

-- What the first transaction of `run_check` keeps in memory across the lookup.
pub record Pending : Type 0 where
  pub value : List ℕ
  pub record_name : List ℕ
  pub token : List ℕ
  pub requested_scope : VerificationScope

-- `run_check` up to its first commit, which writes nothing
unfoldable pub begin_check : Caller → ℕ → AssetsDb → Result AssetError Pending
unfolding asset_for challenge_for
begin_check q now db =
    let c = asserted_context q in
    elim (asset_for c q.asset_id db) [
      | none ↦ err asset_not_found
      | some a ↦
          if not (is_domain a.asset_type)
          then err not_a_domain_asset
          else elim (challenge_for c q.asset_id db) [
            | none ↦ err verification_not_started
            | some h ↦
                if leb h.token_expires_at now
                then err challenge_lapsed
                else ok (record {
                  value = a.value;
                  record_name = h.record_name;
                  token = h.verification_token;
                  requested_scope = h.requested_scope;
                })
          ]
    ]

-- `verdict.failure_code in _PLATFORM_FAULTS`
abbrev pub is_platform_fault : Option VerificationFailureCode → Bool
is_platform_fault (some resolver_unavailable) = true
is_platform_fault (some capacity_exhausted) = true
is_platform_fault _ = false

-- `_stamp`, a commit and the end of the request: an update that met no row is a `RuntimeError`
unfoldable pub stamped :
    Caller
    → ℕ
    → Option VerificationFailureCode
    → Result AssetError (Unit {0})
    → AssetsDb
    → AssetsDb
    → Result AssetError VerificationState × AssetsDb
unfolding stamp_check state_of
stamped q now code ending before db =
    let c = asserted_context q in
    let (met, after) = stamp_check c q.asset_id now code db in
    if not (met == 1) then unit_of_work before (err context_lost, after) else elim ending [
      | err e ↦ (err e, after)
      | ok _ ↦ (
        ok (state_of now (proof_for c q.asset_id after) (challenge_for c q.asset_id after)),
        after,
      )
    ]

abbrev pub proof_of : Caller → ℕ → Pending → CheckVerdict → DomainVerification
proof_of q now w verdict = record {
  organization_id = q.organization_id;
  asset_id = q.asset_id;
  verified_scope = w.requested_scope;
  value = w.value;
  verified_at = now;
  verified_by_user_id = q.user_id;
  dnssec_validated = verdict.dnssec_validated;
  resolvers = verdict.resolvers;
  corroborating_answers = verdict.corroborating_answers;
}

-- the savepoint of `run_check`, and the stamp after it
unfoldable pub adjudicate :
    Caller → ℕ → Pending → CheckVerdict → AssetsDb → Result AssetError VerificationState × AssetsDb
unfolding stamped upsert_proof name_organization_if_unnamed
adjudicate q now w verdict db = elim (upsert_proof (proof_of q now w verdict) db) [
  | none ↦ stamped q now (some claim_lost) (err domain_claim_lost) db db
  | some proved ↦
      stamped q now none (ok tt) db
        (name_organization_if_unnamed q.organization_id w.value now proved)
]

-- `run_check` after the lookup, with what the resolvers answered
unfoldable pub finish_check :
    ℕ
    → Caller
    → ℕ
    → Pending
    → List ResolverOutcome
    → AssetsDb
    → Result AssetError VerificationState × AssetsDb
unfolding challenge_for adjudicate stamped evaluate
finish_check quorum q now w outcomes db = elim (challenge_for (asserted_context q) q.asset_id db) [
  | none ↦ (err verification_not_started, db)
  | some h ↦
      if leb h.token_expires_at now
      then (err challenge_lapsed, db)
      else if not (text_eq h.verification_token w.token)
      then stamped q now (some challenge_superseded) (ok tt) db db
      else let verdict = evaluate outcomes w.token w.requested_scope quorum in
        if verdict.is_verified
        then adjudicate q now w verdict db
        else if is_platform_fault verdict.failure_code
        then (err resolvers_unavailable, db)
        else stamped q now verdict.failure_code (ok tt) db db
]
