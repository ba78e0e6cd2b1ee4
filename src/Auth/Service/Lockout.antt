-- ===== src/Auth/Service/Lockout.antt =====
-- The escalating lockout: how many wrong codes it allows, and that no code passes while it stands.
use testing_platform_backend.Auth.Mfa.{
  MfaPolicy, Primitives, confirmed_mfa, mfa_locked, record_mfa_failure, require_mfa_unlocked,
}
use testing_platform_backend.Auth.Service.{Request, verify_mfa}
use testing_platform_backend.Auth.Tables.{AuthDb, UserMfa, mfa_for}
use testing_platform_backend.Prelude.{
  Bool, List, Option, [], ap, arith, err, false, is_some, leb, length, ltb, min, refl, some, true,
  ℕ, ◌*◌, ◌+◌, ◌-◌, ◌<◌, ◌^◌, ◌∙◌, ◌∷◌, ◌≡◌,
}

-- a run of wrong codes at the given instants
abbrev pub failures : MfaPolicy → List ℕ → UserMfa → UserMfa
failures policy [] row = row
failures policy (at ∷ ats) row = failures policy ats (record_mfa_failure policy at row)

-- Below the threshold wrong codes are only counted, and leave the lock as it was.
failures-below :
    (policy : MfaPolicy) (ats : List ℕ) (row : UserMfa)
    → row.failed_count + length ats < policy.failed_threshold
    → failures policy ats row ≡ record row { failed_count = row.failed_count + length ats }
unfolding record_mfa_failure
failures-below policy [] row h = ap (λ k. record row { failed_count = k }) (omega arith)
failures-below policy (at ∷ ats) row h =
    let below : leb policy.failed_threshold (row.failed_count + 1) ≡ false = ground arith in
    let counted_row = record row { failed_count = row.failed_count + 1 } in
    let one : record_mfa_failure policy at row ≡ counted_row =
      rw (record_mfa_failure, below) refl in
    ap (failures policy ats) one
    ∙ failures-below policy ats counted_row (omega (arith, h))
    ∙ ap (λ k. record row { failed_count = k }) (omega arith)

-- From a row without failures, the wrong codes before the threshold do not lock, and the one that
-- reaches it does: for twice the base per earlier lockout in a row, at most the cap, and the count of
-- failures starts again.
failures-lock :
    (policy : MfaPolicy) (ats : List ℕ) (last : ℕ) (row : UserMfa)
    → row.failed_count + length ats + 1 ≡ policy.failed_threshold
    → ((failures policy ats row).locked_until ≡ row.locked_until)
      × (record_mfa_failure policy last (failures policy ats row) ≡ record row {
        failed_count = 0;
        lockout_count = row.lockout_count + 1;
        locked_until = some (
            last
            + min (policy.lockout_base_seconds * 2 ^ row.lockout_count) policy.lockout_cap_seconds);
      })
unfolding record_mfa_failure
failures-lock policy ats last row h =
    let e = failures-below policy ats row (omega (arith, h)) in
    let full : leb policy.failed_threshold (row.failed_count + length ats + 1) ≡ true =
      ground arith in
    (rw e refl, rw (e, record_mfa_failure, full) refl)

module _ (p : Primitives) (policy : MfaPolicy) (q : Request) where
  -- While the lock of a confirmed factor stands, a verification is refused with the time that is left
  -- and changes nothing, whatever code is given: no guess is checked.
  verify_mfa-locked :
      (is_pending : Bool) (code recovery : Option (List ℕ)) (db : AuthDb) (row : UserMfa)
      (secret until : ℕ)
      → mfa_for q.user db ≡ some row
      → row.totp_secret ≡ some secret
      → is_some row.confirmed_at ≡ true
      → row.locked_until ≡ some until
      → q.now < until
      → verify_mfa p policy q is_pending code recovery db
        ≡ (err (mfa_locked (until - q.now + 1)), db)
  unfolding verify_mfa confirmed_mfa require_mfa_unlocked
  verify_mfa-locked is_pending code recovery db row secret until f g y l h =
      let t : ltb q.now until ≡ true = ground arith in
      rw (verify_mfa, confirmed_mfa, f, g, y, require_mfa_unlocked, l, t) refl
