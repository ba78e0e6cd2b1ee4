-- ===== src/Assets/Tables.antt =====
-- The rows of domains/assets/models.py and of the organization, and the operations on them of
-- domains/assets/repository.py and domains/org/service.py. A query sees the rows that the row
-- policies show to its session; the unique index on the claimed value sees every row.
use testing_platform_backend.Assets.Verification.{VerificationFailureCode}
use testing_platform_backend.Core.Enums.{VerificationScope}
use testing_platform_backend.Core.Rls.{Context, current, sql_eq}
use testing_platform_backend.Prelude.{
  Bool, List, Option, String, [], any, count, find, if◌then◌else◌, is_some, modify_all, none, not,
  some, ℕ, ◌&&◌, ◌==◌, ◌∷◌,
}
use testing_platform_backend.Text.{text_eq}

pub data AssetType : Type 0 where
  domain_asset other_asset : AssetType

pub record Asset : Type 0 where
  pub id : ℕ
  pub organization_id : ℕ
  pub asset_type : AssetType
  pub value : List ℕ

pub record DomainVerification : Type 0 where
  pub organization_id : ℕ
  pub asset_id : ℕ
  pub verified_scope : VerificationScope
  pub value : List ℕ
  pub verified_at : ℕ
  pub verified_by_user_id : Option ℕ
  pub dnssec_validated : Bool
  pub resolvers : List String
  pub corroborating_answers : ℕ

pub record DomainVerificationChallenge : Type 0 where
  pub organization_id : ℕ
  pub asset_id : ℕ
  pub requested_scope : VerificationScope
  pub record_name : List ℕ
  pub verification_token : List ℕ
  pub token_expires_at : ℕ
  pub requested_by_user_id : Option ℕ
  pub requested_at : ℕ
  pub last_recheck_at : Option ℕ
  pub failure_code : Option VerificationFailureCode

pub record Organization : Type 0 where
  pub id : ℕ
  pub name : List ℕ
  pub named_at : Option ℕ

pub record AssetsDb : Type 0 where
  pub assets : List Asset
  pub proofs : List DomainVerification
  pub challenges : List DomainVerificationChallenge
  pub organizations : List Organization

-- `organization_id = app.current_org`, the tenant arm of these tables
abbrev pub shows : Context → ℕ → Bool
shows c organization_id = sql_eq (some organization_id) (current c.org)

abbrev pub sees_asset : Context → ℕ → Asset → Bool
sees_asset c asset_id a = shows c a.organization_id && a.id == asset_id

abbrev pub sees_challenge : Context → ℕ → DomainVerificationChallenge → Bool
sees_challenge c asset_id h = shows c h.organization_id && h.asset_id == asset_id

abbrev pub sees_proof : Context → ℕ → DomainVerification → Bool
sees_proof c asset_id d = shows c d.organization_id && d.asset_id == asset_id

-- `asset_for`
unfoldable pub asset_for : Context → ℕ → AssetsDb → Option Asset
asset_for c asset_id db = find (sees_asset c asset_id) db.assets

-- `challenge_for`, and the two columns of it that `challenge_credentials_for` reads
unfoldable pub challenge_for : Context → ℕ → AssetsDb → Option DomainVerificationChallenge
challenge_for c asset_id db = find (sees_challenge c asset_id) db.challenges

-- `proof_for`
unfoldable pub proof_for : Context → ℕ → AssetsDb → Option DomainVerification
proof_for c asset_id db = find (sees_proof c asset_id) db.proofs

-- the row of the statement `ON CONFLICT (asset_id) DO UPDATE`
abbrev pub put_challenge :
    DomainVerificationChallenge
    → List DomainVerificationChallenge
    → List DomainVerificationChallenge
put_challenge added [] = added ∷ []
put_challenge added (h ∷ hs) =
    let rest = put_challenge added hs in
    if h.asset_id == added.asset_id
    then record added { organization_id = h.organization_id } ∷ hs
    else h ∷ rest

-- `upsert_challenge`
unfoldable pub upsert_challenge : DomainVerificationChallenge → AssetsDb → AssetsDb
upsert_challenge added db = record db { challenges = put_challenge added db.challenges }

abbrev pub put_proof : DomainVerification → List DomainVerification → List DomainVerification
put_proof added [] = added ∷ []
put_proof added (d ∷ ds) =
    let rest = put_proof added ds in
    if d.asset_id == added.asset_id
    then record added { organization_id = d.organization_id } ∷ ds
    else d ∷ rest

-- another row holds the value: what `uq_domain_verification_value` refuses
abbrev pub claims : DomainVerification → DomainVerification → Bool
claims added d = text_eq d.value added.value && not (d.asset_id == added.asset_id)

-- `upsert_proof`; `none` is the `IntegrityError` of the claim index
unfoldable pub upsert_proof : DomainVerification → AssetsDb → Option AssetsDb
upsert_proof added db =
    if any (claims added) db.proofs
    then none
    else some (record db { proofs = put_proof added db.proofs })

-- `stamp_check`: how many challenges were stamped, and the tables
unfoldable pub stamp_check :
    Context → ℕ → ℕ → Option VerificationFailureCode → AssetsDb → ℕ × AssetsDb
stamp_check c asset_id now code db = (
  count (sees_challenge c asset_id) db.challenges,
  record db {
    challenges =
        modify_all (sees_challenge c asset_id)
          (λ h. record h { last_recheck_at = some now; failure_code = code }) db.challenges;
  },
)

-- `name_organization_if_unnamed`
unfoldable pub name_organization_if_unnamed : ℕ → List ℕ → ℕ → AssetsDb → AssetsDb
name_organization_if_unnamed organization_id value now db = record db {
  organizations =
      modify_all (λ (o : Organization). o.id == organization_id && not (is_some o.named_at))
        (λ o. record o { name = value; named_at = some now }) db.organizations;
}
