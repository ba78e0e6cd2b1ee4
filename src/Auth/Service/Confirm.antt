-- ===== src/Auth/Service/Confirm.antt =====
-- A recovery code is spent once.
use testing_platform_backend.Auth.Mfa.{
  MfaError, MfaPolicy, Primitives, confirmed_mfa, count_failure, counted, hash_recovery_code,
  invalid_mfa_code, normalized, require_mfa_unlocked, reset_counters, spend_code, spend_recovery,
  spent,
}
use testing_platform_backend.Auth.Service.{Request, grant, usable_factor, verify_mfa}
use testing_platform_backend.Auth.Service.Verify.{
  again, confirmed_mfa-row, grant-keeps, mfa_for-put_factor, mfa_for-same, usable_factor-inverse,
}
use testing_platform_backend.Auth.Tables.{
  AuthDb, MfaRecoveryCode, UserMfa, consume_recovery_code, is_live_code, mfa_for, put_factor,
}
use testing_platform_backend.Prelude.{
  Bool, Bool-cases, List, Option, Result, Result-cases, [], any, ap, arith, err, false, inl, inr,
  is_some, modify_all, none, ok, refl, some, true, ℕ, ◌∙◌, ◌∷◌, ◌≡◌, ◌⊎◌,
}

-- after the update no live code of the user has the digest
consumed_none :
    (user hash now : ℕ) (cs : List MfaRecoveryCode)
    → any
        (is_live_code user hash)
        (modify_all (is_live_code user hash) (λ c. record c { used_at = some now }) cs)
      ≡ false
consumed_none user hash now [] = refl
consumed_none user hash now (c ∷ cs) = elim (Bool-cases (is_live_code user hash c)) [
  | inl y ↦ rw y (ground (arith, consumed_none user hash now cs))
  | inr n ↦ rw n (rw n (consumed_none user hash now cs))
]

module _ (p : Primitives) (policy : MfaPolicy) (q : Request) where
  abbrev consumed_db : List ℕ → AuthDb → AuthDb
  consumed_db code db = (consume_recovery_code q.user (hash_recovery_code p code) q.now db).1

  spend_recovery-cases :
      (row : UserMfa) (code : List ℕ) (db : AuthDb)
      → (spend_recovery p policy q.user q.now row code db
          ≡ counted (count_failure p policy q.user q.now row (consumed_db code db)))
        ⊎ (spend_recovery p policy q.user q.now row code db
            ≡ spent (put_factor q.user (reset_counters row) (consumed_db code db)))
  unfolding spend_recovery consume_recovery_code
  spend_recovery-cases row code db =
      elim (Bool-cases (any (is_live_code q.user (hash_recovery_code p code)) db.recovery_codes)) [
        | inl y ↦ inr (rw (spend_recovery, y) refl)
        | inr n ↦ inl (rw (spend_recovery, n) refl)
      ]

  -- success with a recovery code: the factor is as before but for its counters, and no live code of
  -- the user has that digest any more
  abbrev Spends : List ℕ → AuthDb → AuthDb → Type 0
  Spends code db after =
      (row : UserMfa) × (secret : ℕ) × (row.totp_secret ≡ some secret)
      × (is_some row.confirmed_at ≡ true)
      × (mfa_for q.user after ≡ some (reset_counters row))
      × (any (is_live_code q.user (hash_recovery_code p code)) after.recovery_codes ≡ false)

  verify_mfa-Spends :
      (is_pending : Bool) (code : List ℕ) (db after : AuthDb) (r : Option ℕ)
      → verify_mfa p policy q is_pending none (some code) db ≡ (ok r, after)
      → Spends code db after
  unfolding verify_mfa spend_code consume_recovery_code mfa_for
  verify_mfa-Spends is_pending code db after r h =
      elim (Result-cases (usable_factor p policy q db)) [
        | inl (e, f) ↦
            let clash : ◌≡◌ {A = Result MfaError (Option ℕ)} (err e) (ok r) =
              ap (λ v. v.0) (rw (verify_mfa, f) at h) in
            cc
        | inr ((row, secret), f) ↦
            let (c, u) = usable_factor-inverse p policy q db row secret f in
            let (m, g, y) = confirmed_mfa-row q.user db row secret c in
            elim (spend_recovery-cases row code db) [
              | inl e ↦
                  let clash : ◌≡◌ {A = Result MfaError (Option ℕ)} (err invalid_mfa_code) (ok r) =
                    ap (λ v. v.0) (rw (verify_mfa, f, spend_code, e) at h) in
                  cc
              | inr e ↦
                  let written = put_factor q.user (reset_counters row) (consumed_db code db) in
                  let granted : grant p policy q is_pending db written ≡ (ok r, after) =
                    rw (verify_mfa, f, spend_code, e) at h in
                  let (factors, kept_codes) =
                    grant-keeps p policy q is_pending db written after r granted in
                  (
                    row,
                    secret,
                    g,
                    y,
                    mfa_for-same q.user after written factors
                        ∙ mfa_for-put_factor q.user (reset_counters row) (consumed_db code db) m
                            refl,
                    ap (any (is_live_code q.user (hash_recovery_code p code))) kept_codes
                        ∙ consumed_none q.user (hash_recovery_code p code) q.now db.recovery_codes,
                  )
            ]
      ]

  -- A recovery code is spent once: the same code, however it is spelled, is refused afterwards in
  -- every session of the user and at every instant.
  pub verify_mfa-recovery_once :
      (is_pending : Bool) (code : List ℕ) (db after : AuthDb) (r : Option ℕ) (is_pending' : Bool)
      (code' : List ℕ) (session now : ℕ)
      → verify_mfa p policy q is_pending none (some code) db ≡ (ok r, after)
      → normalized code' ≡ normalized code
      → (verify_mfa p policy (again p policy q session now) is_pending' none (some code') after).0
        ≡ err invalid_mfa_code
  unfolding verify_mfa spend_code spend_recovery confirmed_mfa require_mfa_unlocked
      consume_recovery_code hash_recovery_code
  verify_mfa-recovery_once is_pending code db after r is_pending' code' session now h same =
      let (row, secret, g, y, found, none_left) = verify_mfa-Spends is_pending code db after r h in
      let none_again : any (is_live_code q.user (hash_recovery_code p code')) after.recovery_codes
          ≡ false =
        ap (λ n. any (is_live_code q.user (p.sha256 n)) after.recovery_codes) same ∙ none_left in
      rw (verify_mfa, confirmed_mfa, found, g, y, spend_code, spend_recovery, none_again) refl
