-- ===== src/Auth/Login/Lockout.antt =====
-- The lockout of a login.
use testing_platform_backend.Auth.Accounts.{
  Accounts, AppUser, UserCredential, credential_for, has_email, is_credential_of, login_lookup,
  put_credential,
}
use testing_platform_backend.Auth.Login.{
  LockoutPolicy, Vault, account_locked, check_password, count_login_failure, invalid_credentials,
  lock_left, login, record_failure, stored_hash,
}
use testing_platform_backend.Auth.Mfa.{Primitives}
use testing_platform_backend.Prelude.{
  Bool-cases, List, Option, Option-cases, ap, arith, err, false, find, find-modify, find_holds, inl,
  inr, leb, ltb, none, ok, refl, some, some-equal, subst, true, ℕ, ◌+◌, ◌-◌, ◌<◌, ◌==◌, ◌∙◌, ◌≡◌,
  ◌≤◌,
}
use testing_platform_backend.Text.{lower}

-- What a lookup finds, by its two queries.
pub lookup-found :
    (address : List ℕ) (db : Accounts) (u : AppUser) (c : UserCredential)
    → login_lookup address db ≡ some (u, c)
    → (find (has_email address) db.users ≡ some u) × (credential_for u.id db ≡ some c)
unfolding login_lookup
lookup-found address db u c h = elim (Option-cases (find (has_email address) db.users)) [
  | inl n ↦
      let clash : ◌≡◌ {A = Option (AppUser × UserCredential)} none (some (u, c)) =
        rw (login_lookup, n) at h in
      cc
  | inr (t, e) ↦ elim (Option-cases (credential_for t.id db)) [
    | inl n ↦
        let clash : ◌≡◌ {A = Option (AppUser × UserCredential)} none (some (u, c)) =
          rw (login_lookup, e, n) at h in
        cc
    | inr (d, g) ↦
        let same : ◌≡◌ {A = Option (AppUser × UserCredential)} (some (t, d)) (some (u, c)) =
          rw (login_lookup, e, g) at h in
        let pair : ◌≡◌ {A = AppUser × UserCredential} (t, d) (u, c) =
          some-equal (t, d) (u, c) same in
        let tu : t ≡ u = ap (λ w. w.0) pair in
        let dc : d ≡ c = ap (λ w. w.1) pair in
        (
          e ∙ ap some tu,
          subst (λ (x : AppUser). credential_for x.id db ≡ some c) tu (g ∙ ap some dc),
        )
  ]
]

pub lookup-some :
    (address : List ℕ) (db : Accounts) (u : AppUser) (c : UserCredential)
    → find (has_email address) db.users ≡ some u
    → credential_for u.id db ≡ some c
    → login_lookup address db ≡ some (u, c)
unfolding login_lookup
lookup-some address db u c e f = rw (login_lookup, e, f) refl

-- The credential of the user, after a write of it that keeps whose it is.
pub credential_for-put :
    (user : ℕ) (row old : UserCredential) (db : Accounts)
    → credential_for user db ≡ some old
    → row.user_id ≡ old.user_id
    → credential_for user (put_credential user row db) ≡ some row
unfolding credential_for
credential_for-put user row old db f e =
    find-modify (is_credential_of user) (λ _. row) db.credentials f
      (ap (λ i. i == user) e ∙ find_holds (is_credential_of user) db.credentials f)

count_keeps :
    (policy : LockoutPolicy) (now : ℕ) (c : UserCredential)
    → (count_login_failure policy now c).user_id ≡ c.user_id
unfolding count_login_failure
count_keeps policy now c =
    elim (Bool-cases (leb policy.lockout_threshold (c.failed_login_count + 1))) [
      | inl y ↦ rw (count_login_failure, y) refl
      | inr n ↦ rw (count_login_failure, n) refl
    ]

module _ (p : Primitives) (v : Vault) (policy : LockoutPolicy) where
  locked_refuses :
      (address password : List ℕ) (now seconds : ℕ) (db : Accounts) (u : AppUser)
      (c : UserCredential)
      → login_lookup (lower address) db ≡ some (u, c)
      → u.disabled_at ≡ none
      → lock_left c.locked_until now ≡ some seconds
      → login p v policy address password now db ≡ (err (account_locked seconds), db)
  unfolding login
  locked_refuses address password now seconds db u c f n l = rw (login, f, n, l) refl

  wrong_counts :
      (address password : List ℕ) (now : ℕ) (db : Accounts) (u : AppUser) (c : UserCredential)
      (stored kek : List ℕ)
      → login_lookup (lower address) db ≡ some (u, c)
      → u.disabled_at ≡ none
      → lock_left c.locked_until now ≡ none
      → stored_hash v u.id c.password_ciphertext db ≡ ok (stored, kek)
      → v.verify_hash stored password ≡ false
      → login p v policy address password now db
        ≡ (err invalid_credentials, put_credential u.id (count_login_failure policy now c) db)
  unfolding login check_password record_failure
  wrong_counts address password now db u c stored kek f n l s w =
      rw
        (
          login,
          f,
          n,
          l,
          check_password,
          s,
          w,
          record_failure,
          (lookup-found (lower address) db u c f).1,
        )
        refl

  -- A wrong password that brings the count to the threshold locks the account: until the lock ends,
  -- every login with that address is refused with the time that is left, plus one second, and
  -- changes nothing, whatever the password.
  pub login-locks :
      (address password : List ℕ) (now : ℕ) (db : Accounts) (u : AppUser) (c : UserCredential)
      (stored kek password' : List ℕ) (now' : ℕ)
      → login_lookup (lower address) db ≡ some (u, c)
      → u.disabled_at ≡ none
      → lock_left c.locked_until now ≡ none
      → stored_hash v u.id c.password_ciphertext db ≡ ok (stored, kek)
      → v.verify_hash stored password ≡ false
      → policy.lockout_threshold ≤ c.failed_login_count + 1
      → now' < now + policy.lockout_seconds
      → login p v policy address password' now' (login p v policy address password now db).1 ≡ (
        err (account_locked (now + policy.lockout_seconds - now' + 1)),
        (login p v policy address password now db).1,
      )
  unfolding count_login_failure
  login-locks address password now db u c stored kek password' now' f n l s w t b =
      let row : UserCredential = count_login_failure policy now c in
      let after : Accounts = put_credential u.id row db in
      let (e, g) = lookup-found (lower address) db u c f in
      let looked : login_lookup (lower address) after ≡ some (u, row) =
        lookup-some (lower address) after u row e
          (credential_for-put u.id row c db g (count_keeps policy now c)) in
      let full : leb policy.lockout_threshold (c.failed_login_count + 1) ≡ true = ground arith in
      let early : ltb now' (now + policy.lockout_seconds) ≡ true = ground arith in
      let until : row.locked_until ≡ some (now + policy.lockout_seconds) =
        rw (count_login_failure, full) refl in
      let left : lock_left row.locked_until now' ≡ some (now + policy.lockout_seconds - now' + 1) =
        rw until (rw early refl) in
      rw (wrong_counts address password now db u c stored kek f n l s w) (
        locked_refuses address password' now' (now + policy.lockout_seconds - now' + 1) after u row
          looked n left)
