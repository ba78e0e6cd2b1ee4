-- ===== src/Auth/Sessions.antt =====
-- core/security.py: a session cookie resolved to an identity, and the gates on that identity.
pub mod Resolution
pub mod Revoked
use testing_platform_backend.Auth.Accounts.{Accounts, AppUser, session_bootstrap}
use testing_platform_backend.Auth.Mfa.{Primitives, hash_session_token}
use testing_platform_backend.Auth.Tables.{UserMfa, UserSession}
use testing_platform_backend.Core.Enums.{OrganizationRole, member, organization_admin}
use testing_platform_backend.Prelude.{
  Bool, List, Option, Result, [], any, err, false, if◌then◌else◌, is_some, leb, modify_all, none,
  not, ok, some, true, ℕ, ◌&&◌, ◌+◌, ◌==◌, ◌||◌, ◌∷◌,
}

-- the settings of the session policy, in seconds
pub record SessionPolicy : Type 0 where
  pub idle_seconds : ℕ
  pub absolute_seconds : ℕ
  pub assurance_max_age_seconds : ℕ

-- `not_authenticated` says whether the answer clears the cookie; the others keep it.
pub data Refusal : Type 0 where
  not_authenticated : Bool → Refusal
  mfa_required mfa_enrollment_required mfa_stepup_required org_role_required : Refusal

pub record AuthenticatedSession : Type 0 where
  pub session_id : ℕ
  pub user_id : ℕ
  pub organization_id : ℕ
  pub mfa_enrolled : Bool
  pub mfa_verified_at : Option ℕ
  pub observed_at : Option ℕ
  pub organization_role : OrganizationRole

-- `_SESSION_TOUCH`
unfoldable pub touch : ℕ → ℕ → Accounts → Accounts
touch session now db = record db {
  auth = record db.auth {
    sessions =
        modify_all (λ s. s.id == session) (λ s. record s { last_seen_at = now }) db.auth.sessions;
  };
}

-- an instant of the database clock, at least `span` after `start`
abbrev pub is_past : ℕ → ℕ → ℕ → Bool
is_past start span now = leb (start + span) now

-- `EXISTS (SELECT 1 FROM user_mfa … confirmed_at IS NOT NULL)`
unfoldable pub is_mfa_enrolled : ℕ → Accounts → Bool
is_mfa_enrolled user db =
    any (λ (m : UserMfa). m.user_id == user && is_some m.confirmed_at) db.auth.factors

abbrev pub identity_of : UserSession → AppUser → Bool → ℕ → AuthenticatedSession
identity_of s u enrolled now = record {
  session_id = s.id;
  user_id = s.user_id;
  organization_id = u.organization_id;
  mfa_enrolled = enrolled;
  mfa_verified_at = s.mfa_verified_at;
  observed_at = some now;
  organization_role = u.organization_role;
}

module _ (p : Primitives) (policy : SessionPolicy) where
  -- the checks on the row that the lookup found
  unfoldable pub admit :
      Bool → ℕ → UserSession → AppUser → Accounts → Result Refusal AuthenticatedSession × Accounts
  unfolding is_mfa_enrolled touch
  admit allow_pending now s u db =
      if is_some s.revoked_at || is_some u.disabled_at
      then (err (not_authenticated true), db)
      else if is_past s.created_at policy.absolute_seconds now
          || is_past s.last_seen_at policy.idle_seconds now
      then (err (not_authenticated true), db)
      else if not allow_pending && is_mfa_enrolled s.user_id db && not (is_some s.mfa_verified_at)
      then (err mfa_required, db)
      else (ok (identity_of s u (is_mfa_enrolled s.user_id db) now), touch s.id now db)

  -- `_resolve_session`
  unfoldable pub resolve_session :
      Bool → Option (List ℕ) → ℕ → Accounts → Result Refusal AuthenticatedSession × Accounts
  unfolding admit session_bootstrap
  resolve_session allow_pending none now db = (err (not_authenticated false), db)
  resolve_session allow_pending (some []) now db = (err (not_authenticated false), db)
  resolve_session allow_pending (some (c ∷ token)) now db =
      elim (session_bootstrap (hash_session_token p (c ∷ token)) db) [
        | none ↦ (err (not_authenticated true), db)
        | some (s, u) ↦ admit allow_pending now s u db
      ]

-- the assurance stamp is missing, or as old as the policy allows or older
abbrev pub is_aged : SessionPolicy → Option ℕ → Option ℕ → Bool
is_aged policy (some stamp) (some observed) =
    is_past stamp policy.assurance_max_age_seconds observed
is_aged policy _ _ = true

-- `require_current_mfa_assurance`
unfoldable pub require_current_mfa_assurance :
    SessionPolicy → AuthenticatedSession → Result Refusal AuthenticatedSession
require_current_mfa_assurance policy a =
    if not a.mfa_enrolled
    then err mfa_enrollment_required
    else if is_aged policy a.mfa_verified_at a.observed_at
    then err mfa_stepup_required
    else ok a

-- `role != …` on the enumeration
abbrev pub same_role : OrganizationRole → OrganizationRole → Bool
same_role member member = true
same_role organization_admin organization_admin = true
same_role _ _ = false

-- `require_org_role`
unfoldable pub require_org_role :
    OrganizationRole → AuthenticatedSession → Result Refusal AuthenticatedSession
require_org_role role a = if same_role a.organization_role role then ok a else err org_role_required
