-- ===== src/Auth/Registration/Entrance.antt =====
-- A registered account can be entered with its password.
use testing_platform_backend.Auth.Accounts.{
  Accounts, AppUser, KeyEnvelope, UserCredential, credential_for, has_email, has_id,
  is_credential_of, is_envelope_of, user_by_id, user_envelope,
}
use testing_platform_backend.Auth.Login.{
  LockoutPolicy, LoginResult, Vault, credential_aad, encrypt_password, envelope_aad, login,
  stored_hash, unwrap_user_kek,
}
use testing_platform_backend.Auth.Login.Lockout.{lookup-some}
use testing_platform_backend.Auth.Login.Rotation.{VaultLaws, fresh, login_succeeds}
use testing_platform_backend.Auth.Mfa.{Primitives}
use testing_platform_backend.Auth.Registration.{
  Platform, Provisioning, RegistrationSubmission, credential_row, envelope_row, is_id_taken,
  is_owner_taken, provisioned, register, registrant, wrapped_at,
}
use testing_platform_backend.Auth.Registration.Consent.{Registered, register-Registered}
use testing_platform_backend.Core.Crypto.{WrappedKey, wrap_key}
use testing_platform_backend.Core.Crypto.Opening.{decrypt-encrypt_own, unwrap_key-wrap_key}
use testing_platform_backend.Examples.Access.{address}
use testing_platform_backend.Prelude.{
  ==_refl, List, [], any, ap, arith, false, find, find-append_none, ok, refl, some, subst, sym,
  true, ℕ, ◌+◌, ◌∙◌, ◌∷◌, ◌≡◌,
}
use testing_platform_backend.Text.{lower, text_eq}
use testing_platform_backend.Text.Laws.{text_eq_iff}

own_email :
    (address : List ℕ) (row : AppUser)
    → row.email ≡ address
    → find (has_email address) (row ∷ []) ≡ some row
own_email address row e =
    let same : text_eq (lower row.email) (lower address) ≡ true =
      (text_eq_iff (lower row.email) (lower address)).1 (ap lower e) in
    rw same refl

module _ (v : Vault) (x : Provisioning) where
  stored_hash-credential :
      (user draw : ℕ) (password kek : List ℕ) (w : WrappedKey) (e : KeyEnvelope) (nonce : List ℕ)
      (db : Accounts)
      → VaultLaws v
      → user_envelope user db ≡ some e
      → (e.wrapped_kek ≡ w.ciphertext) × (e.wrapping_nonce ≡ w.nonce)
      → wrap_key v.aead v.app_encryption_master_key x.app_encryption_master_key_version nonce kek
          envelope_aad
        ≡ ok w
      → stored_hash v user (encrypt_password v draw password kek) db
        ≡ ok (v.hash_password draw password, kek)
  unfolding stored_hash unwrap_user_kek encrypt_password
  stored_hash-credential user draw password kek w e nonce db laws found same wrapped =
      let opens =
        unwrap_key-wrap_key v.aead laws.aead_laws v.app_encryption_master_key
          x.app_encryption_master_key_version nonce kek envelope_aad w wrapped in
      rw
        (
          stored_hash,
          unwrap_user_kek,
          found,
          same.0,
          same.1,
          opens,
          encrypt_password,
          decrypt-encrypt_own v.aead laws.aead_laws (v.nonce_at draw)
              (v.hash_password draw password) kek credential_aad (laws.nonces draw),
        )
        refl

  free_ids :
      (org user : ℕ) (db : Platform)
      → is_id_taken v x org user db ≡ false
      → is_owner_taken v x org user db ≡ false
      → (any (is_credential_of user) db.accounts.credentials ≡ false)
        × (any (has_id user) db.accounts.users ≡ false)
        × (any (is_envelope_of user) db.accounts.envelopes ≡ false)
  unfolding is_id_taken is_owner_taken
  free_ids org user db h k = ground arith

  -- The rows of the new user are found by the queries of a login.
  pub provisioned-found :
      (now : ℕ) (submission : RegistrationSubmission) (db after : Platform) (u : AppUser)
      (g : Registered v x now submission db after u)
      → let d = db.accounts.auth.drawn in
        let user = x.uuid_at (d + 1) in
        let final =
          (provisioned v x now submission g.org_wrapped g.user_wrapped g.rows db).accounts in
        let row = registrant v x user (x.uuid_at d) submission.email in
        (find (has_email (lower submission.email)) final.users ≡ some row)
        × (credential_for user final
            ≡ some (credential_row v x user (d + 2) now submission.password (x.key_at (d + 1))))
        × (user_by_id user final ≡ some row)
        × (user_envelope user final
            ≡ some (envelope_row v x (x.uuid_at (d + 3)) (x.uuid_at d) (some user) g.user_wrapped))
  unfolding provisioned registrant credential_for user_envelope user_by_id
  provisioned-found now submission db after u g =
      let d : ℕ = db.accounts.auth.drawn in
      let user : ℕ = x.uuid_at (d + 1) in
      let row : AppUser = registrant v x user (x.uuid_at d) submission.email in
      let free = free_ids (x.uuid_at d) user db g.ids_free g.owners_free in
      (
        find-append_none (has_email (lower submission.email)) db.accounts.users (row ∷ [])
              g.email_free
            ∙ own_email (lower submission.email) row refl,
        find-append_none (is_credential_of user) db.accounts.credentials _ free.0
            ∙ rw (==_refl user) refl,
        find-append_none (has_id user) db.accounts.users (row ∷ []) free.1 ∙ rw (==_refl user) refl,
        find-append_none (is_envelope_of user) db.accounts.envelopes _ free.2
            ∙ rw (==_refl user) refl,
      )

module _ (v : Vault) (x : Provisioning) (p : Primitives) (policy : LockoutPolicy) where
  -- After a registration that succeeds, a login with that address and that password opens a session,
  -- at every instant.
  pub login-register :
      (now now' : ℕ) (submission : RegistrationSubmission) (db after : Platform) (u : AppUser)
      → VaultLaws v
      → register v x now submission db ≡ (ok u, after)
      → (r : LoginResult) × ((login p v policy submission.email submission.password now'
            after.accounts).0
          ≡ ok r)
  unfolding provisioned registrant wrapped_at
  login-register now now' submission db after u laws h =
      let g = register-Registered v x now submission db after u h in
      let d : ℕ = db.accounts.auth.drawn in
      let user : ℕ = x.uuid_at (d + 1) in
      let kek : List ℕ = x.key_at (d + 1) in
      let row : AppUser = registrant v x user (x.uuid_at d) submission.email in
      let c : UserCredential = credential_row v x user (d + 2) now submission.password kek in
      let final : Accounts =
        (provisioned v x now submission g.org_wrapped g.user_wrapped g.rows db).accounts in
      let (found, credential, there, envelope) =
        provisioned-found v x now submission db after u g in
      let opens =
        stored_hash-credential v x user (d + 2) submission.password kek g.user_wrapped
          (envelope_row v x (x.uuid_at (d + 3)) (x.uuid_at d) (some user) g.user_wrapped)
          (v.nonce_at (d + 1)) final laws envelope (refl, refl) g.wraps in
      let entered =
        login_succeeds p v policy submission.email submission.password now' final row row c
          (v.hash_password (d + 2) submission.password) kek
          (lookup-some (lower submission.email) final row c found credential) refl refl opens
          (laws.verifies (d + 2) submission.password) there in
      (
        fresh p v policy final,
        subst
            (λ (t : Platform).
              (login p v policy submission.email submission.password now' t.accounts).0
              ≡ ok (fresh p v policy final))
            (sym g.written) entered,
      )
