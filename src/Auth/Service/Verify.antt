-- ===== src/Auth/Service/Verify.antt =====
-- One acceptance per code: a time step is accepted once, and a recovery code is spent once.
use testing_platform_backend.Auth.Mfa.{
  MfaError, MfaPolicy, Primitives, confirmed_mfa, count_failure, counted, invalid_mfa_code,
  is_replay, matching_step, require_mfa_unlocked, reset_counters, session_revoked, spend_code,
  spend_totp, spent, step_at,
}
use testing_platform_backend.Auth.Service.{Request, assure_again, grant, usable_factor, verify_mfa}
use testing_platform_backend.Auth.Tables.{
  AuthDb, UserMfa, is_factor_of, mfa_for, put_factor, revoke_session, stamp_session_assurance,
}
use testing_platform_backend.Prelude.{
  Bool, Bool-cases, List, Option, Option-cases, Result, Result-cases, ap, arith, err, false, find,
  find-modify, find_holds, inl, inr, is_some, ok, ok-injective, refl, some, some-equal, subst, sym,
  true, ℕ, ◌<◌, ◌==◌, ◌∙◌, ◌≡◌, ◌⊎◌,
}

-- the row of the user, after the writes that keep who it belongs to
pub mfa_for-put_factor :
    (user : ℕ) (row : UserMfa) (db : AuthDb) {old : UserMfa}
    → mfa_for user db ≡ some old
    → row.user_id ≡ old.user_id
    → mfa_for user (put_factor user row db) ≡ some row
unfolding mfa_for
mfa_for-put_factor user row db {old} f e =
    find-modify (is_factor_of user) (λ _. row) db.factors f
      (ap (λ i. i == user) e ∙ find_holds (is_factor_of user) db.factors f)

pub mfa_for-same :
    (user : ℕ) (a b : AuthDb) → a.factors ≡ b.factors → mfa_for user a ≡ mfa_for user b
unfolding mfa_for
mfa_for-same user a b e = ap (find (is_factor_of user)) e

pub confirmed_mfa-row :
    (user : ℕ) (db : AuthDb) (row : UserMfa) (secret : ℕ)
    → confirmed_mfa user db ≡ ok (row, secret)
    → (mfa_for user db ≡ some row)
      × (row.totp_secret ≡ some secret)
      × (is_some row.confirmed_at ≡ true)
unfolding confirmed_mfa
confirmed_mfa-row user db row secret h = elim (Option-cases (mfa_for user db)) [
  | inl n ↦ ground arith
  | inr (r, f) ↦ elim (Option-cases r.totp_secret) [
    | inl n ↦ ground arith
    | inr (s, g) ↦ elim (Bool-cases (is_some r.confirmed_at)) [
      | inr n ↦ ground arith
      | inl y ↦
          let e : ◌≡◌ {A = Result MfaError (UserMfa × ℕ)} (ok (r, s)) (ok (row, secret)) =
            rw (confirmed_mfa, f, g, y) at h in
          let same : r ≡ row = ap (λ v. v.0) (ok-injective e) in
          (
            f ∙ ap some same,
            sym (ap (λ v. v.totp_secret) same) ∙ g ∙ ap (λ v. some v.1) (ok-injective e),
            subst (λ v. is_some v.confirmed_at ≡ true) same y,
          )
    ]
  ]
]

module _ (p : Primitives) (policy : MfaPolicy) (q : Request) where
  pub usable_factor-inverse :
      (db : AuthDb) (row : UserMfa) (secret : ℕ)
      → usable_factor p policy q db ≡ ok (row, secret)
      → (confirmed_mfa q.user db ≡ ok (row, secret)) × (require_mfa_unlocked row q.now ≡ ok tt)
  usable_factor-inverse db row secret h = elim (Result-cases (confirmed_mfa q.user db)) [
    | inl (e, f) ↦
        let clash : ◌≡◌ {A = Result MfaError (UserMfa × ℕ)} (err e) (ok (row, secret)) =
          rw f at h in
        cc
    | inr (found, f) ↦ elim (Result-cases (require_mfa_unlocked found.0 q.now)) [
      | inl (e, g) ↦
          let clash : ◌≡◌ {A = Result MfaError (UserMfa × ℕ)} (err e) (ok (row, secret)) =
            rw (f, g) at h in
          cc
      | inr (u, g) ↦
          let same : found ≡ (row, secret) = ok-injective (rw (f, g) at h) in
          (f ∙ ap ok same, subst (λ r. require_mfa_unlocked r.0 q.now ≡ ok tt) same g)
    ]
  ]

  assure_again-keeps :
      (before : AuthDb) (s : Bool × AuthDb) (final : AuthDb) (r : Option ℕ)
      → assure_again p policy q before s ≡ (ok r, final)
      → final ≡ s.1
  assure_again-keeps before (true, db) final r h = sym (ap (λ v. v.1) h)
  assure_again-keeps before (false, db) final r h =
      let clash : ◌≡◌ {A = Result MfaError (Option ℕ)} (err session_revoked) (ok r) =
        ap (λ v. v.0) h in
      cc

  -- the outcome of a grant that succeeds touches sessions only
  pub grant-keeps :
      (is_pending : Bool) (before after final : AuthDb) (r : Option ℕ)
      → grant p policy q is_pending before after ≡ (ok r, final)
      → (final.factors ≡ after.factors) × (final.recovery_codes ≡ after.recovery_codes)
  unfolding grant revoke_session stamp_session_assurance
  grant-keeps true before after final r h =
      (ap (λ v. v.1.factors) (sym h), ap (λ v. v.1.recovery_codes) (sym h))
  grant-keeps false before after final r h =
      let e =
        assure_again-keeps before (stamp_session_assurance q.session_id q.now after) final r h in
      (ap (λ v. v.factors) e, ap (λ v. v.recovery_codes) e)

  -- What a verification says that succeeds with a code of the authenticator.
  abbrev pub Accepts : List ℕ → AuthDb → AuthDb → Type 0
  Accepts code db after =
      (row : UserMfa) × (secret : ℕ) × (matched : ℕ) × (mfa_for q.user db ≡ some row)
      × (row.totp_secret ≡ some secret)
      × (is_some row.confirmed_at ≡ true)
      × (require_mfa_unlocked row q.now ≡ ok tt)
      × (matching_step p secret code (step_at q.now) ≡ some matched)
      × (is_replay matched row.last_used_step ≡ false)
      × (mfa_for q.user after
          ≡ some (reset_counters (record row { last_used_step = some matched })))

  spend_totp-cases :
      (row : UserMfa) (secret : ℕ) (code : List ℕ) (db : AuthDb)
      → (spend_totp p policy q.user q.now row secret code db
          ≡ counted (count_failure p policy q.user q.now row db))
        ⊎ ((matched : ℕ) × (matching_step p secret code (step_at q.now) ≡ some matched)
            × (is_replay matched row.last_used_step ≡ false)
            × (spend_totp p policy q.user q.now row secret code db
                ≡ spent (
                    put_factor q.user
                      (reset_counters (record row { last_used_step = some matched }))
                      db)))
  unfolding spend_totp
  spend_totp-cases row secret code db =
      elim (Option-cases (matching_step p secret code (step_at q.now))) [
        | inl n ↦ inl (rw (spend_totp, n) refl)
        | inr (matched, f) ↦ elim (Bool-cases (is_replay matched row.last_used_step)) [
          | inl y ↦ inl (rw (spend_totp, f, y) refl)
          | inr n ↦ inr (matched, f, n, rw (spend_totp, f, n) refl)
        ]
      ]

  -- Success with a code of the authenticator means: the factor was confirmed and unlocked, the code
  -- is that of a step within one of the present one, later than every step accepted before, and that
  -- step is now the last accepted one.
  verify_mfa-Accepts :
      (is_pending : Bool) (code : List ℕ) (other : Option (List ℕ)) (db after : AuthDb)
      (r : Option ℕ)
      → verify_mfa p policy q is_pending (some code) other db ≡ (ok r, after)
      → Accepts code db after
  unfolding verify_mfa spend_code
  verify_mfa-Accepts is_pending code other db after r h =
      elim (Result-cases (usable_factor p policy q db)) [
        | inl (e, f) ↦
            let clash : ◌≡◌ {A = Result MfaError (Option ℕ)} (err e) (ok r) =
              ap (λ v. v.0) (rw (verify_mfa, f) at h) in
            cc
        | inr ((row, secret), f) ↦
            let (c, u) = usable_factor-inverse db row secret f in
            let (m, g, y) = confirmed_mfa-row q.user db row secret c in
            elim (spend_totp-cases row secret code db) [
              | inl e ↦
                  let clash : ◌≡◌ {A = Result MfaError (Option ℕ)} (err invalid_mfa_code) (ok r) =
                    ap (λ v. v.0) (rw (verify_mfa, f, spend_code, e) at h) in
                  cc
              | inr (matched, k, n, e) ↦
                  let used = reset_counters (record row { last_used_step = some matched }) in
                  let granted : grant p policy q is_pending db (put_factor q.user used db)
                      ≡ (ok r, after) =
                    rw (verify_mfa, f, spend_code, e) at h in
                  let (factors, codes_kept) =
                    grant-keeps is_pending db (put_factor q.user used db) after r granted in
                  (
                    row,
                    secret,
                    matched,
                    m,
                    g,
                    y,
                    u,
                    k,
                    n,
                    mfa_for-same q.user after (put_factor q.user used db) factors
                        ∙ mfa_for-put_factor q.user used db m refl,
                  )
            ]
      ]

  -- the same user again, in another session or at another instant
  abbrev pub again : ℕ → ℕ → Request
  again session now = record q { session_id = session; now = now }

module _ (p : Primitives) (policy : MfaPolicy) (q : Request) where
  -- Any two codes of the authenticator with which one user verifies successfully, one after the
  -- other, in whatever sessions and at whatever instants, belong to time steps that increase: each is
  -- the code of a step within one of the present step, and the step of the second is later than that
  -- of the first. Between the two, anything may be written but the factor of the user.
  pub verify_mfa-advances :
      (is_pending : Bool) (code : List ℕ) (other : Option (List ℕ)) (db middle : AuthDb)
      (r : Option ℕ) (is_pending' : Bool) (code' : List ℕ) (other' : Option (List ℕ))
      (session now : ℕ) (between after : AuthDb) (r' : Option ℕ)
      → verify_mfa p policy q is_pending (some code) other db ≡ (ok r, middle)
      → mfa_for q.user between ≡ mfa_for q.user middle
      → verify_mfa p policy (again p policy q session now) is_pending' (some code') other' between
        ≡ (ok r', after)
      → (secret : ℕ) × (m : ℕ) × (m' : ℕ) × (matching_step p secret code (step_at q.now) ≡ some m)
        × (matching_step p secret code' (step_at now) ≡ some m')
        × (m < m')
  verify_mfa-advances is_pending code other db middle r is_pending' code' other' session now between
        after r' h same h' =
      let (row, secret, m, f, g, y, u, k, n, found) =
        verify_mfa-Accepts p policy q is_pending code other db middle r h in
      let (row', secret', m', f', g', y', u', k', n', found') =
        verify_mfa-Accepts p policy (again p policy q session now) is_pending' code' other' between
          after r' h' in
      let rows : reset_counters (record row { last_used_step = some m }) ≡ row' =
        some-equal _ _ (sym found ∙ sym same ∙ f') in
      let secrets : secret' ≡ secret =
        some-equal _ _ (sym g' ∙ sym (ap (λ (t : UserMfa). t.totp_secret) rows) ∙ g) in
      let fresh : is_replay m' (some m) ≡ false =
        subst (λ (t : UserMfa). is_replay m' t.last_used_step ≡ false) (sym rows) n' in
      (
        secret,
        m,
        m',
        k,
        subst (λ s. matching_step p s code' (step_at now) ≡ some m') secrets k',
        ground (arith, fresh),
      )
