-- ===== src/Auth/Login.antt =====
-- The password half of domains/auth/service.py: login, its lockout, logout and password change.
-- Each is one transaction: the first component is what it returns or raises, the second the
-- committed tables. An exception without a commit of its own is rolled back.
pub mod Revocation
pub mod Rotation
pub mod Evicted
pub mod Lockout
use testing_platform_backend.Auth.Accounts.{
  Accounts, UserCredential, credential_for, login_lookup, put_credential, user_by_id, user_envelope,
}
use testing_platform_backend.Auth.Mfa.{Primitives}
use testing_platform_backend.Auth.Service.{open_session}
use testing_platform_backend.Auth.Tables.{revoke_other_sessions, revoke_session}
use testing_platform_backend.Core.Crypto.{Aead, CryptoError, decrypt, encrypt, unwrap_key}
use testing_platform_backend.Prelude.{
  Bool, List, Option, Result, [], err, if◌then◌else◌, is_some, leb, ltb, none, ok, some, ℕ, ◌+◌,
  ◌-◌, ◌>>=◌, ◌>>◌, ◌∷◌,
}
use testing_platform_backend.Text.{lower}

-- What a login takes from other packages and from the deployment: AES-GCM with the master key, the
-- hash of passwords with its salts, and the nonces that `secrets` draws, by how many were drawn.
pub record Vault : Type 0 where
  pub aead : Aead
  pub app_encryption_master_key : List ℕ
  pub hash_password : ℕ → List ℕ → List ℕ
  pub verify_hash : List ℕ → List ℕ → Bool
  pub check_needs_rehash : List ℕ → Bool
  pub nonce_at : ℕ → List ℕ

-- the settings of the login lockout
pub record LockoutPolicy : Type 0 where
  pub lockout_threshold : ℕ
  pub lockout_seconds : ℕ

-- `no_envelope` is the `RuntimeError` of `_unwrap_user_kek`.
pub data LoginError : Type 0 where
  invalid_credentials wrong_password no_envelope : LoginError
  account_locked : ℕ → LoginError
  crypto_failed : CryptoError → LoginError

-- A fresh session: its token and its id.
pub record LoginResult : Type 0 where
  pub token : List ℕ
  pub session_id : ℕ

-- `_ENVELOPE_AAD` and `_CREDENTIAL_AAD`, by different numbers
abbrev pub envelope_aad : List ℕ
envelope_aad = 1 ∷ []

abbrev pub credential_aad : List ℕ
credential_aad = 2 ∷ []

abbrev pub lift_crypto : {A : Type 0} → Result CryptoError A → Result LoginError A
lift_crypto (err e) = err (crypto_failed e)
lift_crypto (ok v) = ok v

module _ (v : Vault) where
  -- `_encrypt_password`, with the draw that gives its salt and its nonce
  unfoldable pub encrypt_password : ℕ → List ℕ → List ℕ → List ℕ
  unfolding encrypt
  encrypt_password draw password user_kek =
      encrypt v.aead (v.nonce_at draw) (v.hash_password draw password) user_kek credential_aad

  -- `_unwrap_user_kek`
  unfoldable pub unwrap_user_kek : ℕ → Accounts → Result LoginError (List ℕ)
  unfolding unwrap_key user_envelope
  unwrap_user_kek user db = elim (user_envelope user db) [
    | none ↦ err no_envelope
    | some e ↦
        lift_crypto (
          unwrap_key v.aead v.app_encryption_master_key e.wrapped_kek e.wrapping_nonce envelope_aad)
  ]

  -- the hash that a credential stores, with the key of its user
  unfoldable pub stored_hash : ℕ → List ℕ → Accounts → Result LoginError (List ℕ × List ℕ)
  unfolding unwrap_user_kek decrypt
  stored_hash user ciphertext db = do
    user_kek ← unwrap_user_kek user db
    stored ← lift_crypto (decrypt v.aead ciphertext user_kek credential_aad)
    ok (stored, user_kek)

-- `_record_failure`, on the row
unfoldable pub count_login_failure : LockoutPolicy → ℕ → UserCredential → UserCredential
count_login_failure policy observed_at c =
    if leb policy.lockout_threshold (c.failed_login_count + 1)
    then record c {
      failed_login_count = 0;
      locked_until = some (observed_at + policy.lockout_seconds);
    }
    else record c { failed_login_count = c.failed_login_count + 1 }

-- `_record_failure`
unfoldable pub record_failure : LockoutPolicy → ℕ → ℕ → Accounts → Accounts
unfolding credential_for count_login_failure
record_failure policy user observed_at db = elim (credential_for user db) [
  | none ↦ db
  | some c ↦ put_credential user (count_login_failure policy observed_at c) db
]

-- the lock of a credential that stands at `now`, by the seconds to wait
abbrev pub lock_left : Option ℕ → ℕ → Option ℕ
lock_left none now = none
lock_left (some until) now = if ltb now until then some (until - now + 1) else none

-- `logout`
unfoldable pub logout : ℕ → ℕ → Accounts → Accounts
unfolding revoke_session
logout session now db = record db { auth = revoke_session session now db.auth }

module _ (p : Primitives) (v : Vault) (policy : LockoutPolicy) where
  -- `_open_session` as the last write of a transaction
  abbrev pub opened : ℕ → ℕ → Accounts → Result LoginError LoginResult × Accounts
  opened now user db =
      let (id, auth) = open_session p now user none db.auth in
      (ok (record { token = p.token_at db.auth.drawn; session_id = id }), record db { auth = auth })

  -- the credential of a login that succeeds: counters cleared, and rehashed when that is due
  abbrev pub welcomed : ℕ → List ℕ → List ℕ → List ℕ → UserCredential → UserCredential
  welcomed draw password stored user_kek c =
      let reset : UserCredential = record c { failed_login_count = 0; locked_until = none } in
      if v.check_needs_rehash stored
      then record reset { password_ciphertext = encrypt_password v draw password user_kek }
      else reset

  -- the password verified
  unfoldable pub welcome :
      ℕ → ℕ → List ℕ → List ℕ × List ℕ → Accounts → Result LoginError LoginResult × Accounts
  unfolding credential_for
  welcome now user password (stored, user_kek) db =
      let after : Accounts = elim (credential_for user db) [
        | none ↦ db
        | some c ↦ put_credential user (welcomed db.auth.drawn password stored user_kek c) db
      ] in
      elim (user_by_id user db) [
        | none ↦ (err invalid_credentials, db)
        | some u ↦ opened now user after
      ]

  -- a user whose account is enabled and not locked
  unfoldable pub check_password :
      ℕ → ℕ → List ℕ → UserCredential → Accounts → Result LoginError LoginResult × Accounts
  unfolding stored_hash welcome record_failure
  check_password now user password c db = elim (stored_hash v user c.password_ciphertext db) [
    | err e ↦ (err e, db)
    | ok (stored, user_kek) ↦
        if v.verify_hash stored password
        then welcome now user password (stored, user_kek) db
        else (err invalid_credentials, record_failure policy user now db)
  ]

  -- `login`
  unfoldable pub login : List ℕ → List ℕ → ℕ → Accounts → Result LoginError LoginResult × Accounts
  unfolding login_lookup check_password
  login address password now db = elim (login_lookup (lower address) db) [
    | none ↦ (err invalid_credentials, db)
    | some (u, c) ↦
        if is_some u.disabled_at
        then (err invalid_credentials, db)
        else elim (lock_left c.locked_until now) [
          | some seconds ↦ (err (account_locked seconds), db)
          | none ↦ check_password now u.id password c db
        ]
  ]

  -- what `change_password` does once the current password verified
  unfoldable pub rotate :
      ℕ
      → ℕ
      → ℕ
      → List ℕ
      → List ℕ
      → UserCredential
      → Accounts
      → Result LoginError LoginResult × Accounts
  unfolding revoke_session revoke_other_sessions
  rotate now user session new_password user_kek c db =
      let stored : Accounts =
        put_credential user
          (record c {
            password_ciphertext = encrypt_password v db.auth.drawn new_password user_kek;
            password_updated_at = now;
          })
          db in
      let revoked : Accounts = record stored {
        auth = revoke_session session now (revoke_other_sessions user session now stored.auth);
      } in
      elim (user_by_id user db) [
        | none ↦ (err wrong_password, db)
        | some u ↦ opened now user revoked
      ]

  -- `change_password`, with `_verify_current_password`
  unfoldable pub change_password :
      ℕ → ℕ → List ℕ → List ℕ → ℕ → Accounts → Result LoginError LoginResult × Accounts
  unfolding stored_hash rotate credential_for
  change_password user session current_password new_password now db =
      elim (credential_for user db) [
        | none ↦ (err wrong_password, db)
        | some c ↦ elim (stored_hash v user c.password_ciphertext db) [
          | err e ↦ (err e, db)
          | ok (stored, user_kek) ↦
              if v.verify_hash stored current_password
              then rotate now user session new_password user_kek c db
              else (err wrong_password, db)
        ]
      ]
