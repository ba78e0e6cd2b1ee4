-- ===== src/Auth/Accounts.antt =====
-- The rows behind a login: users and envelopes (domains/org/models.py) and credentials
-- (domains/auth/models.py), with the two lookups of migration b3c7a9e2f4d1.
use testing_platform_backend.Auth.Tables.{AuthDb, UserSession}
use testing_platform_backend.Core.Enums.{OrganizationRole}
use testing_platform_backend.Prelude.{
  Bool, List, Option, find, modify, none, same_option, some, ℕ, ◌==◌,
}
use testing_platform_backend.Text.{lower, text_eq}

pub record AppUser : Type 0 where
  pub id : ℕ
  pub organization_id : ℕ
  pub email : List ℕ
  pub disabled_at : Option ℕ
  pub organization_role : OrganizationRole

-- `password_ciphertext` is `nonce || ct` over the hash of the password.
pub record UserCredential : Type 0 where
  pub user_id : ℕ
  pub password_ciphertext : List ℕ
  pub failed_login_count : ℕ
  pub locked_until : Option ℕ
  pub password_updated_at : ℕ

-- An envelope of a user, or of an organization when there is no user.
pub record KeyEnvelope : Type 0 where
  pub id : ℕ
  pub organization_id : ℕ
  pub user_id : Option ℕ
  pub wrapped_kek : List ℕ
  pub wrapping_nonce : List ℕ
  pub master_key_version : ℕ

pub record Accounts : Type 0 where
  pub users : List AppUser
  pub credentials : List UserCredential
  pub envelopes : List KeyEnvelope
  pub auth : AuthDb

abbrev pub has_id : ℕ → AppUser → Bool
has_id user u = u.id == user

abbrev pub has_email : List ℕ → AppUser → Bool
has_email email u = text_eq (lower u.email) (lower email)

abbrev pub is_credential_of : ℕ → UserCredential → Bool
is_credential_of user c = c.user_id == user

abbrev pub is_envelope_of : ℕ → KeyEnvelope → Bool
is_envelope_of user e = same_option e.user_id (some user)

-- `user_by_id`
unfoldable pub user_by_id : ℕ → Accounts → Option AppUser
user_by_id user db = find (has_id user) db.users

-- `credential_for`
unfoldable pub credential_for : ℕ → Accounts → Option UserCredential
credential_for user db = find (is_credential_of user) db.credentials

-- `user_envelope`
unfoldable pub user_envelope : ℕ → Accounts → Option KeyEnvelope
user_envelope user db = find (is_envelope_of user) db.envelopes

abbrev pub put_credential : ℕ → UserCredential → Accounts → Accounts
put_credential user row db = record db {
  credentials = modify (is_credential_of user) (λ _. row) db.credentials;
}

-- `login_lookup`: the user with that address, joined with the credential
unfoldable pub login_lookup : List ℕ → Accounts → Option (AppUser × UserCredential)
unfolding credential_for
login_lookup email db = elim (find (has_email email) db.users) [
  | none ↦ none
  | some u ↦ elim (credential_for u.id db) [ none ↦ none | some c ↦ some (u, c) ]
]

abbrev pub has_token_hash : ℕ → UserSession → Bool
has_token_hash hash s = s.token_hash == hash

-- `auth_session_bootstrap`: the session with that digest, joined with its user
unfoldable pub session_bootstrap : ℕ → Accounts → Option (UserSession × AppUser)
unfolding user_by_id
session_bootstrap hash db = elim (find (has_token_hash hash) db.auth.sessions) [
  | none ↦ none
  | some s ↦ elim (user_by_id s.user_id db) [ none ↦ none | some u ↦ some (s, u) ]
]
