-- ===== src/Auth/Login/Rotation.antt =====
-- A password change: the new password opens the account, and every older session is over.
use testing_platform_backend.Auth.Accounts.{
  Accounts, AppUser, UserCredential, credential_for, login_lookup, put_credential, user_by_id,
  user_envelope,
}
use testing_platform_backend.Auth.Login.{
  LockoutPolicy, LoginError, LoginResult, Vault, change_password, check_password, credential_aad,
  encrypt_password, lift_crypto, lock_left, login, opened, rotate, stored_hash, unwrap_user_kek,
  welcome,
}
use testing_platform_backend.Auth.Login.Lockout.{credential_for-put, lookup-found, lookup-some}
use testing_platform_backend.Auth.Mfa.{Primitives}
use testing_platform_backend.Auth.Tables.{revoke_other_sessions, revoke_session}
use testing_platform_backend.Core.Crypto.{decrypt}
use testing_platform_backend.Core.Crypto.Opening.{AeadLaws, decrypt-encrypt_own}
use testing_platform_backend.Prelude.{
  Bool-cases, List, Option-cases, Result, Result-cases, ap, err, inl, inr, length, none, ok,
  ok-injective, refl, some, some-equal, subst, sym, true, ℕ, ◌∙◌, ◌≡◌,
}
use testing_platform_backend.Text.{lower}

-- The documented behaviour of the password hash, of AES-GCM and of the nonces.
pub record VaultLaws (v : Vault) : Type 0 where
  pub aead_laws : AeadLaws v.aead
  pub verifies :
      (draw : ℕ) (password : List ℕ) → v.verify_hash (v.hash_password draw password) password ≡ true
  pub nonces : (draw : ℕ) → length (v.nonce_at draw) ≡ 12

module _ (p : Primitives) (v : Vault) (policy : LockoutPolicy) where
  -- the credential with the new password
  abbrev pub rotated_row : ℕ → ℕ → List ℕ → List ℕ → UserCredential → UserCredential
  rotated_row now draw new_password kek c = record c {
    password_ciphertext = encrypt_password v draw new_password kek;
    password_updated_at = now;
  }

  -- the tables after a change that succeeds
  abbrev pub rotated : ℕ → ℕ → ℕ → List ℕ → List ℕ → UserCredential → Accounts → Accounts
  rotated now user session new_password kek c db =
      let stored : Accounts =
        put_credential user (rotated_row now db.auth.drawn new_password kek c) db in
      (opened p v policy now user (record stored {
        auth = revoke_session session now (revoke_other_sessions user session now stored.auth);
      })).1

  pub change_password-ok :
      (user session : ℕ) (old_password new_password : List ℕ) (now : ℕ) (db after : Accounts)
      (r : LoginResult)
      → change_password p v policy user session old_password new_password now db ≡ (ok r, after)
      → (c : UserCredential) × (stored : List ℕ) × (kek : List ℕ) × (u : AppUser) × (credential_for
            user db
          ≡ some c)
        × (stored_hash v user c.password_ciphertext db ≡ ok (stored, kek))
        × (user_by_id user db ≡ some u)
        × (after ≡ rotated now user session new_password kek c db)
  unfolding change_password rotate
  change_password-ok user session old_password new_password now db after r h =
      elim (Option-cases (credential_for user db)) [
        | inl n ↦
            let e =
              ap (λ (w : Result LoginError LoginResult × Accounts). w.0)
                (rw (change_password, n) at h) in
            cc
        | inr (c, f) ↦ elim (Result-cases (stored_hash v user c.password_ciphertext db)) [
          | inl (x, g) ↦
              let e =
                ap (λ (w : Result LoginError LoginResult × Accounts). w.0)
                  (rw (change_password, f, g) at h) in
              cc
          | inr ((stored, kek), g) ↦ elim (Bool-cases (v.verify_hash stored old_password)) [
            | inr n ↦
                let e =
                  ap (λ (w : Result LoginError LoginResult × Accounts). w.0)
                    (rw (change_password, f, g, n) at h) in
                cc
            | inl y ↦ elim (Option-cases (user_by_id user db)) [
              | inl n ↦
                  let e =
                    ap (λ (w : Result LoginError LoginResult × Accounts). w.0)
                      (rw (change_password, f, g, y, rotate, n) at h) in
                  cc
              | inr (u, k) ↦
                  let e =
                    ap (λ (w : Result LoginError LoginResult × Accounts). w.1)
                      (rw (change_password, f, g, y, rotate, k) at h) in
                  (c, stored, kek, u, f, g, k, sym e)
            ]
          ]
        ]
      ]

  same_kek :
      (user : ℕ) (db db' : Accounts)
      → db'.envelopes ≡ db.envelopes
      → unwrap_user_kek v user db' ≡ unwrap_user_kek v user db
  unfolding unwrap_user_kek user_envelope
  same_kek user db db' e = rw e refl

  stored_hash-kept :
      (user draw : ℕ) (password kek old stored : List ℕ) (db db' : Accounts)
      → VaultLaws v
      → db'.envelopes ≡ db.envelopes
      → stored_hash v user old db ≡ ok (stored, kek)
      → stored_hash v user (encrypt_password v draw password kek) db'
        ≡ ok (v.hash_password draw password, kek)
  unfolding stored_hash encrypt_password
  stored_hash-kept user draw password kek old stored db db' laws e h =
      elim (Result-cases (unwrap_user_kek v user db)) [
        | inl (x, n) ↦
            let clash : ◌≡◌ {A = Result LoginError (List ℕ × List ℕ)} (err x) (ok (stored, kek)) =
              rw (stored_hash, n) at h in
            cc
        | inr (k, g) ↦ elim (Result-cases (lift_crypto (decrypt v.aead old k credential_aad))) [
          | inl (x, n) ↦
              let clash : ◌≡◌ {A = Result LoginError (List ℕ × List ℕ)} (err x) (ok (stored, kek)) =
                rw (stored_hash, g, n) at h in
              cc
          | inr (t, d) ↦
              let pair : ◌≡◌ {A = Result LoginError (List ℕ × List ℕ)} (ok (t, k))
                  (ok (stored, kek)) =
                rw (stored_hash, g, d) at h in
              let same : k ≡ kek = ap (λ w. w.1) (ok-injective pair) in
              let kept : unwrap_user_kek v user db' ≡ ok kek =
                same_kek user db db' e ∙ g ∙ ap ok same in
              rw
                (
                  stored_hash,
                  kept,
                  encrypt_password,
                  decrypt-encrypt_own v.aead laws.aead_laws (v.nonce_at draw)
                      (v.hash_password draw password) kek credential_aad (laws.nonces draw),
                )
                refl
        ]
      ]

  pub same_user :
      (user : ℕ) (db db' : Accounts)
      → db'.users ≡ db.users
      → user_by_id user db' ≡ user_by_id user db
  unfolding user_by_id
  same_user user db db' e = rw e refl

  -- what a login opens
  abbrev pub fresh : Accounts → LoginResult
  fresh db = record { token = p.token_at db.auth.drawn; session_id = p.session_id_at db.auth.drawn }

  pub login_succeeds :
      (address password : List ℕ) (now : ℕ) (db : Accounts) (u u' : AppUser) (c : UserCredential)
      (stored kek : List ℕ)
      → login_lookup (lower address) db ≡ some (u, c)
      → u.disabled_at ≡ none
      → lock_left c.locked_until now ≡ none
      → stored_hash v u.id c.password_ciphertext db ≡ ok (stored, kek)
      → v.verify_hash stored password ≡ true
      → user_by_id u.id db ≡ some u'
      → (login p v policy address password now db).0 ≡ ok (fresh db)
  unfolding login check_password welcome
  login_succeeds address password now db u u' c stored kek f n l s y k =
      let found : credential_for u.id db ≡ some c = (lookup-found (lower address) db u c f).1 in
      rw (login, f, n, l, check_password, s, y, welcome, k, found) refl

  -- After a change of the password that succeeds, a login with the new password opens a session, at
  -- every later or earlier instant, if the account is enabled and was not locked.
  pub login-change_password :
      (session : ℕ) (old_password new_password address : List ℕ) (now now' : ℕ)
      (db after : Accounts) (r : LoginResult) (u : AppUser) (c : UserCredential)
      → VaultLaws v
      → login_lookup (lower address) db ≡ some (u, c)
      → u.disabled_at ≡ none
      → c.locked_until ≡ none
      → change_password p v policy u.id session old_password new_password now db ≡ (ok r, after)
      → (r' : LoginResult) × ((login p v policy address new_password now' after).0 ≡ ok r')
  unfolding credential_for
  login-change_password session old_password new_password address now now' db after r u c laws f n l
        h =
      let (c1, stored, kek, u1, g, s, k, ea) =
        change_password-ok u.id session old_password new_password now db after r h in
      let (e, g') = lookup-found (lower address) db u c f in
      let row : UserCredential = rotated_row now db.auth.drawn new_password kek c1 in
      let final : Accounts = rotated now u.id session new_password kek c1 db in
      let same : c1 ≡ c = some-equal c1 c (sym g ∙ g') in
      let looked : login_lookup (lower address) final ≡ some (u, row) =
        lookup-some (lower address) final u row e (credential_for-put u.id row c1 db g refl) in
      let unlocked : lock_left row.locked_until now' ≡ none = rw same (rw l refl) in
      let opens : stored_hash v u.id row.password_ciphertext final
          ≡ ok (v.hash_password db.auth.drawn new_password, kek) =
        stored_hash-kept u.id db.auth.drawn new_password kek c1.password_ciphertext stored db final
          laws refl s in
      let there : user_by_id u.id final ≡ some u1 = same_user u.id db final refl ∙ k in
      (
        fresh final,
        subst (λ t. (login p v policy address new_password now' t).0 ≡ ok (fresh final)) (sym ea)
            (login_succeeds address new_password now' final u u1 row
              (v.hash_password db.auth.drawn new_password) kek looked n unlocked opens
              (laws.verifies db.auth.drawn new_password) there),
      )
