-- ===== src/Examples/Access.antt =====
-- The theorems on encryption, sessions and logins at concrete values.
use testing_platform_backend.Auth.Accounts.{
  Accounts, AppUser, UserCredential, login_lookup, session_bootstrap, user_by_id,
}
use testing_platform_backend.Auth.Login.{
  LockoutPolicy, LoginResult, Vault, account_locked, change_password, login, logout, stored_hash,
}
use testing_platform_backend.Auth.Login.Evicted.{change_password-evicts}
use testing_platform_backend.Auth.Login.Lockout.{login-locks}
use testing_platform_backend.Auth.Login.Revocation.{resolve_session-logout}
use testing_platform_backend.Auth.Login.Rotation.{VaultLaws, login-change_password}
use testing_platform_backend.Auth.Mfa.{hash_session_token}
use testing_platform_backend.Auth.Sessions.{
  AuthenticatedSession, SessionPolicy, not_authenticated, resolve_session, touch,
}
use testing_platform_backend.Auth.Sessions.Resolution.{Admitted, resolve_session_iff}
use testing_platform_backend.Auth.Tables.{UserSession}
use testing_platform_backend.Core.Crypto.{
  Aead, WrappedKey, drop, master_key, take, unwrap_key, wrap_key,
}
use testing_platform_backend.Core.Crypto.Opening.{AeadLaws, drop-append, take-append}
use testing_platform_backend.Core.Enums.{member}
use testing_platform_backend.Core.Settings.{AuthSettings, auth_settings_are_coherent}
use testing_platform_backend.Core.Settings.Keys.{unwrap_key-coherent}
use testing_platform_backend.Examples.Domains.{primitives}
use testing_platform_backend.Modules.Namespaced.{codes}
use testing_platform_backend.Prelude.{
  Bool, Bool-cases, List, Option, [], arith, cons≢nil, err, false, if◌then◌else◌, inl, inr, length,
  none, ok, refl, some, true, ℕ, ◌&&◌, ◌++◌, ◌==◌, ◌↔◌, ◌∷◌, ◌≡◌, ◌≢◌,
}
use testing_platform_backend.Text.{lower, text_eq}
use testing_platform_backend.Text.Laws.{text_eq_iff}

-- a cipher that only writes down the additional data
unfoldable pub toy_open : List ℕ → List ℕ → Option (List ℕ)
toy_open [] aad = none
toy_open (l ∷ s) aad =
    if l == length aad && text_eq (take (length aad) s) aad
    then some (drop (length aad) s)
    else none

abbrev pub toy_aead : Aead
toy_aead = record {
  seal = λ key nonce plaintext aad. length aad ∷ (aad ++ plaintext);
  open_sealed = λ key nonce. toy_open;
}

toy_opens : (a p : List ℕ) → toy_open (length a ∷ (a ++ p)) a ≡ some p
unfolding toy_open
toy_opens a p =
    let same : text_eq a a ≡ true = (text_eq_iff a a).1 refl in
    let own : (length a == length a) ≡ true = ground arith in
    rw (own, take-append (length a) a p refl, drop-append (length a) a p refl, same) refl

toy_bound : (a p b : List ℕ) → a ≢ b → toy_open (length a ∷ (a ++ p)) b ≡ none
unfolding toy_open
toy_bound a p b n = elim (Bool-cases (length a == length b)) [
  | inr x ↦ rw x refl
  | inl y ↦
      let e : length a ≡ length b = ground arith in
      elim (Bool-cases (text_eq a b)) [
        | inl z ↦ absurd (n ((text_eq_iff a b).0 z))
        | inr z ↦ rw (y, take-append (length b) a p e, z) refl
      ]
]

toy_laws : AeadLaws toy_aead
unfolding toy_open
toy_laws = record {
  tagged = λ k n p a. omega arith;
  opens = λ k n p a. toy_opens a p;
  bound = λ k n p a b h. toy_bound a p b h;
}

abbrev twelve : List ℕ
twelve = 1 ∷ 2 ∷ 3 ∷ 4 ∷ 5 ∷ 6 ∷ 7 ∷ 8 ∷ 9 ∷ 10 ∷ 11 ∷ 12 ∷ []

-- the key of one byte, 0
abbrev master : List ℕ
master = 48 ∷ 48 ∷ []

-- a key of 32 bytes, each written as two digits
abbrev long_master : List ℕ
long_master = codes "000102030405060708090a0b0c0d0e0f101112131415161718191a1b1c1d1e1f"

abbrev settings : AuthSettings
settings = record {
  app_encryption_master_key = long_master;
  auth_session_idle_seconds = 1800;
  auth_session_absolute_seconds = 28800;
  auth_mfa_assurance_max_age_seconds = 900;
  auth_mfa_lockout_base_seconds = 900;
  auth_mfa_lockout_cap_seconds = 86400;
}

unwrap_key-coherent_example :
    (key : List ℕ) × (w : WrappedKey) × (master_key long_master ≡ ok key)
    × (length key ≡ 32)
    × (wrap_key toy_aead long_master 1 (5 ∷ []) (9 ∷ []) (1 ∷ []) ≡ ok w)
    × (unwrap_key toy_aead long_master w.ciphertext w.nonce (1 ∷ []) ≡ ok (9 ∷ []))
unfolding auth_settings_are_coherent
unwrap_key-coherent_example =
    unwrap_key-coherent settings toy_aead 1 (5 ∷ []) (9 ∷ []) (1 ∷ []) toy_laws refl
      (cons≢nil 48 (codes "00102030405060708090a0b0c0d0e0f101112131415161718191a1b1c1d1e1f"))

-- a hash that keeps the password behind its salt
unfoldable pub toy_verify : List ℕ → List ℕ → Bool
toy_verify [] password = false
toy_verify (salt ∷ stored) password = text_eq stored password

abbrev pub vault : Vault
vault = record {
  aead = toy_aead;
  app_encryption_master_key = master;
  hash_password = λ draw password. draw ∷ password;
  verify_hash = toy_verify;
  check_needs_rehash = λ _. false;
  nonce_at = λ _. twelve;
}

pub vault_laws : VaultLaws vault
unfolding toy_verify
vault_laws = record {
  aead_laws = toy_laws;
  verifies = λ draw password. (text_eq_iff password password).1 refl;
  nonces = λ _. refl;
}

abbrev pub lockout : LockoutPolicy
lockout = record { lockout_threshold = 2; lockout_seconds = 900 }

abbrev session_policy : SessionPolicy
session_policy = record {
  idle_seconds = 1800;
  absolute_seconds = 43200;
  assurance_max_age_seconds = 900;
}

abbrev pub address : List ℕ
address = codes "a@b.lu"

abbrev app_user : AppUser
app_user = record {
  id = 4;
  organization_id = 7;
  email = address;
  disabled_at = none;
  organization_role = member;
}

-- the password is "ab", with the salt 3
abbrev credential : UserCredential
credential = record {
  user_id = 4;
  password_ciphertext = twelve ++ (1 ∷ 2 ∷ 3 ∷ 97 ∷ 98 ∷ []);
  failed_login_count = 1;
  locked_until = none;
  password_updated_at = 0;
}

-- the session of the token 1, 2
abbrev user_session : UserSession
user_session = record {
  id = 5;
  user_id = 4;
  token_hash = 2;
  created_at = 100;
  last_seen_at = 200;
  revoked_at = none;
  mfa_verified_at = none;
}

abbrev session_token : List ℕ
session_token = 1 ∷ 2 ∷ []

abbrev accounts : Accounts
accounts = record {
  users = app_user ∷ [];
  credentials = credential ∷ [];
  envelopes =
      record {
        id = 60;
        organization_id = 7;
        user_id = some 4;
        wrapped_kek = 1 ∷ 1 ∷ 9 ∷ [];
        wrapping_nonce = 5 ∷ [];
        master_key_version = 1;
      }
      ∷ [];
  auth = record { factors = []; recovery_codes = []; sessions = user_session ∷ []; drawn = 0 };
}

abbrev identity : AuthenticatedSession
identity = record {
  session_id = 5;
  user_id = 4;
  organization_id = 7;
  mfa_enrolled = false;
  mfa_verified_at = none;
  observed_at = some 300;
  organization_role = member;
}

abbrev touched : Accounts
touched = touch 5 300 accounts

resolve_session_iff_example :
    (resolve_session primitives session_policy false (some session_token) 300 accounts
      ≡ (ok identity, touched))
    ↔ ((s : UserSession) × (u : AppUser) × (session_token ≢ [])
        × (session_bootstrap (hash_session_token primitives session_token) accounts ≡ some (s, u))
        × Admitted primitives session_policy false 300 s u accounts identity touched)
resolve_session_iff_example =
    resolve_session_iff primitives session_policy false session_token 300 accounts touched identity

resolve_session-logout_example :
    (resolve_session primitives session_policy true
      (some session_token)
      400
      (logout 5 310 touched)).0
    ≡ err (not_authenticated true)
unfolding resolve_session
resolve_session-logout_example =
    resolve_session-logout primitives session_policy false session_token 300 accounts touched
      identity true 400 310 refl

abbrev wrong_login : Accounts
wrong_login = (login primitives vault lockout address (120 ∷ []) 300 accounts).1

login-locks_example :
    login primitives vault lockout address (97 ∷ 98 ∷ []) 301 wrong_login
    ≡ (err (account_locked 900), wrong_login)
unfolding login_lookup stored_hash text_eq lower toy_open toy_verify
login-locks_example =
    login-locks primitives vault lockout address (120 ∷ []) 300 accounts app_user credential
      (3 ∷ 97 ∷ 98 ∷ []) (9 ∷ []) (97 ∷ 98 ∷ []) 301 refl refl refl refl refl (omega arith)
      (omega arith)

abbrev changed : Accounts
changed = (change_password primitives vault lockout 4 5 (97 ∷ 98 ∷ []) (99 ∷ []) 320 accounts).1

abbrev new_login : LoginResult
new_login = record { token = 0 ∷ []; session_id = 50 }

login-change_password_example :
    (r : LoginResult) × ((login primitives vault lockout address (99 ∷ []) 330 changed).0 ≡ ok r)
unfolding change_password login_lookup text_eq lower toy_open toy_verify user_by_id
login-change_password_example =
    login-change_password primitives vault lockout 5 (97 ∷ 98 ∷ []) (99 ∷ []) address 320 330
      accounts changed new_login app_user credential vault_laws refl refl refl refl

change_password-evicts_example :
    resolve_session primitives session_policy false (some session_token) 330 changed
    ≡ (err (not_authenticated true), changed)
unfolding change_password session_bootstrap toy_open text_eq toy_verify
change_password-evicts_example =
    change_password-evicts primitives vault lockout session_policy 4 5 (97 ∷ 98 ∷ []) (99 ∷ []) 320
      accounts changed new_login session_token user_session app_user false 330 refl
      (cons≢nil 1 (2 ∷ [])) refl refl
