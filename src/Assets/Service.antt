-- ===== src/Assets/Service.antt =====
-- domains/assets/service.py: the life of a domain verification. Each function is one transaction, or
-- one of the two of `run_check`: what it returns or raises, and the committed tables. An exception
-- without a commit of its own is rolled back. `now` is the database clock of the transaction.
use testing_platform_backend.Assets.Tables.{
  Asset, AssetType, AssetsDb, DomainVerification, DomainVerificationChallenge, asset_for,
  challenge_for, domain_asset, other_asset, proof_for, upsert_challenge,
}
use testing_platform_backend.Assets.Verification.{compute_status}
use testing_platform_backend.Core.Enums.{VerificationScope, VerificationStatus}
use testing_platform_backend.Core.Rls.{Context, no_context, set_org_context}
use testing_platform_backend.Prelude.{
  Bool, List, Option, Result, [], err, false, if◌then◌else◌, is_some, none, not, ok, some, true, ℕ,
  ◌&&◌, ◌++◌, ◌+◌, ◌∷◌,
}

pub data AssetError : Type 0 where
  asset_not_found not_a_domain_asset verification_not_started already_verified : AssetError
  challenge_lapsed domain_claim_lost resolvers_unavailable context_lost : AssetError

pub record VerificationState : Type 0 where
  pub status : VerificationStatus
  pub proof : Option DomainVerification
  pub challenge : Option DomainVerificationChallenge

-- a request: the organization and the user of the session, and the asset
pub record Caller : Type 0 where
  pub organization_id : ℕ
  pub user_id : Option ℕ
  pub asset_id : ℕ

-- what the deployment and `secrets` give: the tokens by how many were drawn, their lifetime, and the
-- prefix of record names
pub record Challenging : Type 0 where
  pub token_ttl_seconds : ℕ
  pub record_prefix : List ℕ

-- the context that the request asserts, and that is asserted again after a commit
abbrev pub asserted_context : Caller → Context
asserted_context q = set_org_context q.organization_id q.user_id no_context

abbrev pub expiry : Option DomainVerificationChallenge → Option ℕ
expiry none = none
expiry (some h) = some h.token_expires_at

-- `_state`
unfoldable pub state_of :
    ℕ → Option DomainVerification → Option DomainVerificationChallenge → VerificationState
unfolding compute_status
state_of now proof challenge = record {
  status = compute_status (is_some proof) (expiry challenge) now;
  proof = proof;
  challenge = challenge;
}

-- `verification_record_name` of core/config.py: `_<prefix>-verify.<domain>`
unfoldable pub verification_record_name : Challenging → List ℕ → List ℕ
verification_record_name k domain =
    (95 ∷ k.record_prefix) ++ ((45 ∷ 118 ∷ 101 ∷ 114 ∷ 105 ∷ 102 ∷ 121 ∷ 46 ∷ []) ++ domain)

abbrev pub is_domain : AssetType → Bool
is_domain domain_asset = true
is_domain other_asset = false

-- `read_state`
unfoldable pub read_state : Caller → ℕ → AssetsDb → Result AssetError VerificationState
unfolding asset_for proof_for challenge_for state_of
read_state q now db =
    let c = asserted_context q in
    elim (asset_for c q.asset_id db) [
      | none ↦ err asset_not_found
      | some a ↦
          if not (is_some (proof_for c q.asset_id db))
            && not (is_some (challenge_for c q.asset_id db))
          then err verification_not_started
          else ok (state_of now (proof_for c q.asset_id db) (challenge_for c q.asset_id db))
    ]

-- the challenge that a new token makes: nothing of an earlier attempt is carried over
abbrev pub fresh_challenge :
    Challenging → Caller → ℕ → List ℕ → VerificationScope → Asset → DomainVerificationChallenge
fresh_challenge k q now token requested_scope a = record {
  organization_id = q.organization_id;
  asset_id = q.asset_id;
  requested_scope = requested_scope;
  record_name = verification_record_name k a.value;
  verification_token = token;
  token_expires_at = now + k.token_ttl_seconds;
  requested_by_user_id = q.user_id;
  requested_at = now;
  last_recheck_at = none;
  failure_code = none;
}

module _ (k : Challenging) where
  -- `start_challenge` with the drawn token
  unfoldable pub start_challenge :
      Caller
      → ℕ
      → List ℕ
      → VerificationScope
      → AssetsDb
      → Result AssetError VerificationState × AssetsDb
  unfolding asset_for upsert_challenge
  start_challenge q now token requested_scope db =
      let c = asserted_context q in
      elim (asset_for c q.asset_id db) [
        | none ↦ (err asset_not_found, db)
        | some a ↦
            if not (is_domain a.asset_type)
            then (err not_a_domain_asset, db)
            else let after =
                upsert_challenge (fresh_challenge k q now token requested_scope a) db in
              (
                ok (state_of now (proof_for c q.asset_id after) (challenge_for c q.asset_id after)),
                after,
              )
      ]

  -- `regenerate_token` with the drawn token
  unfoldable pub regenerate_token :
      Caller → ℕ → List ℕ → AssetsDb → Result AssetError VerificationState × AssetsDb
  unfolding asset_for proof_for challenge_for upsert_challenge
  regenerate_token q now token db =
      let c = asserted_context q in
      elim (asset_for c q.asset_id db) [
        | none ↦ (err asset_not_found, db)
        | some a ↦
            if is_some (proof_for c q.asset_id db)
            then (err already_verified, db)
            else elim (challenge_for c q.asset_id db) [
              | none ↦ (err verification_not_started, db)
              | some old ↦
                  let after =
                    upsert_challenge (fresh_challenge k q now token old.requested_scope a) db in
                  (ok (state_of now none (challenge_for c q.asset_id after)), after)
            ]
      ]
