-- ===== src/Auth/Tables.antt =====
-- The rows of domains/auth/models.py and the operations of domains/auth/repository.py on them. The
-- rows are those that the user arm of the policies shows; an update is one statement.
use testing_platform_backend.Prelude.{
  Bool, List, Option, any, count, find, is_some, map, modify, modify_all, none, not, some, ℕ, ◌&&◌,
  ◌++◌, ◌==◌,
}

pub record UserSession : Type 0 where
  pub id : ℕ
  pub user_id : ℕ
  pub token_hash : ℕ
  pub created_at : ℕ
  pub last_seen_at : ℕ
  pub revoked_at : Option ℕ
  pub mfa_verified_at : Option ℕ

pub record UserMfa : Type 0 where
  pub user_id : ℕ
  pub totp_secret : Option ℕ
  pub confirmed_at : Option ℕ
  pub last_used_step : Option ℕ
  pub failed_count : ℕ
  pub lockout_count : ℕ
  pub locked_until : Option ℕ

pub record MfaRecoveryCode : Type 0 where
  pub user_id : ℕ
  pub code_hash : ℕ
  pub used_at : Option ℕ
  pub superseded_at : Option ℕ

-- `drawn` counts the ids of sessions drawn so far.
pub record AuthDb : Type 0 where
  pub factors : List UserMfa
  pub recovery_codes : List MfaRecoveryCode
  pub sessions : List UserSession
  pub drawn : ℕ

abbrev pub is_factor_of : ℕ → UserMfa → Bool
is_factor_of user row = row.user_id == user

-- `mfa_for` and `mfa_for_update`
unfoldable pub mfa_for : ℕ → AuthDb → Option UserMfa
mfa_for user db = find (is_factor_of user) db.factors

abbrev pub put_factor : ℕ → UserMfa → AuthDb → AuthDb
put_factor user row db = record db { factors = modify (is_factor_of user) (λ _. row) db.factors }

-- `used_at IS NULL AND superseded_at IS NULL`
abbrev pub is_live : MfaRecoveryCode → Bool
is_live c = not (is_some c.used_at) && not (is_some c.superseded_at)

abbrev pub is_live_code : ℕ → ℕ → MfaRecoveryCode → Bool
is_live_code user hash c = c.user_id == user && c.code_hash == hash && is_live c

-- `unused_recovery_code_count`
unfoldable pub unused_recovery_code_count : ℕ → AuthDb → ℕ
unused_recovery_code_count user db = count (λ c. c.user_id == user && is_live c) db.recovery_codes

-- `insert_recovery_codes`
unfoldable pub insert_recovery_codes : ℕ → List ℕ → AuthDb → AuthDb
insert_recovery_codes user hashes db = record db {
  recovery_codes =
      db.recovery_codes
      ++ map (λ h. record { user_id = user; code_hash = h; used_at = none; superseded_at = none })
          hashes;
}

-- `burn_recovery_codes`
unfoldable pub burn_recovery_codes : ℕ → ℕ → AuthDb → AuthDb
burn_recovery_codes user now db = record db {
  recovery_codes =
      modify_all (λ c. c.user_id == user && is_live c) (λ c. record c { superseded_at = some now })
        db.recovery_codes;
}

-- `consume_recovery_code`: one conditional update, and whether it changed a row
unfoldable pub consume_recovery_code : ℕ → ℕ → ℕ → AuthDb → Bool × AuthDb
consume_recovery_code user hash now db = (
  any (is_live_code user hash) db.recovery_codes,
  record db {
    recovery_codes =
        modify_all (is_live_code user hash) (λ c. record c { used_at = some now })
          db.recovery_codes;
  },
)

abbrev pub is_open : ℕ → UserSession → Bool
is_open id s = s.id == id && not (is_some s.revoked_at)

-- `stamp_session_assurance`
unfoldable pub stamp_session_assurance : ℕ → ℕ → AuthDb → Bool × AuthDb
stamp_session_assurance id now db = (
  any (is_open id) db.sessions,
  record db {
    sessions = modify_all (is_open id) (λ s. record s { mfa_verified_at = some now }) db.sessions;
  },
)

-- `revoke_session`
unfoldable pub revoke_session : ℕ → ℕ → AuthDb → AuthDb
revoke_session id now db = record db {
  sessions = modify_all (is_open id) (λ s. record s { revoked_at = some now }) db.sessions;
}

abbrev pub is_other : ℕ → ℕ → UserSession → Bool
is_other user id s = s.user_id == user && not (s.id == id) && not (is_some s.revoked_at)

-- `revoke_other_sessions`
unfoldable pub revoke_other_sessions : ℕ → ℕ → ℕ → AuthDb → AuthDb
revoke_other_sessions user id now db = record db {
  sessions = modify_all (is_other user id) (λ s. record s { revoked_at = some now }) db.sessions;
}
