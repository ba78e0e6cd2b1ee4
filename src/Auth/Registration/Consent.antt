-- ===== src/Auth/Registration/Consent.antt =====
-- What a registration that succeeds has written.
use testing_platform_backend.Auth.Accounts.{AppUser, has_email}
use testing_platform_backend.Auth.Consents.{
  StatementResponse, active_acceptance_statements, consents,
}
use testing_platform_backend.Auth.Login.{Vault}
use testing_platform_backend.Auth.Registration.{
  Platform, Provisioning, RegistrationError, RegistrationSubmission, add_receipts, is_id_taken,
  is_owner_taken, provision, provisioned, register, registrant, signing, wrapped_at,
}
use testing_platform_backend.Core.Crypto.{WrappedKey}
use testing_platform_backend.Prelude.{
  Bool-cases, List, Option-cases, Result, Result-cases, any, ap, err, false, inl, inr, ok,
  ok-injective, some, sym, true, ℕ, ◌+◌, ◌≡◌,
}
use testing_platform_backend.Text.{lower}

refused :
    {e : RegistrationError} {u : AppUser} {before after : Platform}
    → ◌≡◌ {A = Result RegistrationError AppUser × Platform} (err e, before) (ok u, after)
    → ⊥
refused h = let e = ap (λ (w : Result RegistrationError AppUser × Platform). w.0) h in cc

granted :
    {t u : AppUser} {before after : Platform}
    → ◌≡◌ {A = Result RegistrationError AppUser × Platform} (ok t, before) (ok u, after)
    → before ≡ after
granted h = ap (λ (w : Result RegistrationError AppUser × Platform). w.1) h

returned_user :
    {t u : AppUser} {before after : Platform}
    → ◌≡◌ {A = Result RegistrationError AppUser × Platform} (ok t, before) (ok u, after)
    → t ≡ u
returned_user h = ok-injective (ap (λ (w : Result RegistrationError AppUser × Platform). w.0) h)

module _ (v : Vault) (x : Provisioning) where
  -- The conditions of a registration that succeeds, its user, and its tables.
  pub record Registered (now : ℕ) (submission : RegistrationSubmission) (db after : Platform)
      (u : AppUser) : Type 0 where
    pub org_wrapped : WrappedKey
    pub user_wrapped : WrappedKey
    pub rows : List StatementResponse
    pub consented :
        consents (active_acceptance_statements now db.statements) submission.statement_responses
        ≡ true
    pub wraps :
        wrapped_at v x (db.accounts.auth.drawn + 1) (db.accounts.auth.drawn + 1) ≡ ok user_wrapped
    pub email_free : any (has_email (lower submission.email)) db.accounts.users ≡ false
    pub ids_free :
        is_id_taken v x
          (x.uuid_at db.accounts.auth.drawn)
          (x.uuid_at (db.accounts.auth.drawn + 1))
          db
        ≡ false
    pub owners_free :
        is_owner_taken v x
          (x.uuid_at db.accounts.auth.drawn)
          (x.uuid_at (db.accounts.auth.drawn + 1))
          db
        ≡ false
    pub receipts :
        add_receipts v x
          (signing v x now submission db)
          (db.accounts.auth.drawn + 4)
          (active_acceptance_statements now db.statements)
          submission.statement_responses
          db.responses
        ≡ some rows
    pub returned :
        u
        ≡ registrant v x
            (x.uuid_at (db.accounts.auth.drawn + 1))
            (x.uuid_at db.accounts.auth.drawn)
            submission.email
    pub written : after ≡ provisioned v x now submission org_wrapped user_wrapped rows db

  provision-Registered :
      (now : ℕ) (submission : RegistrationSubmission) (ow uw : WrappedKey) (db after : Platform)
      (u : AppUser)
      → consents (active_acceptance_statements now db.statements) submission.statement_responses
        ≡ true
      → wrapped_at v x (db.accounts.auth.drawn + 1) (db.accounts.auth.drawn + 1) ≡ ok uw
      → provision v x now submission ow uw db ≡ (ok u, after)
      → Registered now submission db after u
  unfolding provision
  provision-Registered now submission ow uw db after u c w h =
      let d : ℕ = db.accounts.auth.drawn in
      elim (Bool-cases (is_id_taken v x (x.uuid_at d) (x.uuid_at (d + 1)) db)) [
        | inl y ↦ absurd (refused (rw (provision, y) at h))
        | inr i ↦ elim (Bool-cases (any (has_email (lower submission.email)) db.accounts.users)) [
          | inl y ↦ absurd (refused (rw (provision, i, y) at h))
          | inr f ↦ elim (Bool-cases (is_owner_taken v x (x.uuid_at d) (x.uuid_at (d + 1)) db)) [
            | inl y ↦ absurd (refused (rw (provision, i, f, y) at h))
            | inr o ↦
                elim (Option-cases (
                  add_receipts v x (signing v x now submission db) (d + 4)
                    (active_acceptance_statements now db.statements) submission.statement_responses
                    db.responses)) [
                      | inl n ↦ absurd (refused (rw (provision, i, f, o, n) at h))
                      | inr (rs, r) ↦
                          let e = granted (rw (provision, i, f, o, r) at h) in
                          let back = returned_user (rw (provision, i, f, o, r) at h) in
                          record {
                            org_wrapped = ow;
                            user_wrapped = uw;
                            rows = rs;
                            consented = c;
                            wraps = w;
                            email_free = f;
                            ids_free = i;
                            owners_free = o;
                            receipts = r;
                            returned = sym back;
                            written = sym e;
                          }
                    ]
          ]
        ]
      ]

  pub register-Registered :
      (now : ℕ) (submission : RegistrationSubmission) (db after : Platform) (u : AppUser)
      → register v x now submission db ≡ (ok u, after)
      → Registered now submission db after u
  unfolding register
  register-Registered now submission db after u h =
      let d : ℕ = db.accounts.auth.drawn in
      elim (Bool-cases (
        consents (active_acceptance_statements now db.statements) submission.statement_responses)) [
          | inr n ↦ absurd (refused (rw (register, n) at h))
          | inl c ↦ elim (Result-cases (wrapped_at v x d d)) [
            | inl (z, n) ↦ absurd (refused (rw (register, c, n) at h))
            | inr (ow, o) ↦ elim (Result-cases (wrapped_at v x (d + 1) (d + 1))) [
              | inl (z, n) ↦ absurd (refused (rw (register, c, o, n) at h))
              | inr (uw, w) ↦
                  provision-Registered now submission ow uw db after u c w
                    (rw (register, c, o, w) at h)
            ]
          ]
        ]
