-- ===== src/Auth/Service.antt =====
-- The operations on the second factor of domains/auth/service.py. Each is one transaction: the
-- first component is what it returns or raises, the second the committed tables. An exception
-- without a commit of its own is rolled back by the request's unit of work (core/api_db.py).
pub mod Verify
pub mod Lockout
pub mod Confirm
pub mod Activation
use testing_platform_backend.Auth.Mfa.{
  MfaError, MfaPolicy, Primitives, confirmed_mfa, count_failure, counted, hash_recovery_code,
  hash_session_token, invalid_mfa_code, matching_step, mfa_already_enrolled, mfa_not_enrolled,
  no_code, no_code_given, require_mfa_unlocked, reset_counters, session_revoked, spend_code, spent,
  step_at, wrong_current_password,
}
use testing_platform_backend.Auth.Tables.{
  AuthDb, UserMfa, burn_recovery_codes, insert_recovery_codes, is_factor_of, mfa_for, put_factor,
  revoke_other_sessions, revoke_session, stamp_session_assurance, unused_recovery_code_count,
}
use testing_platform_backend.Core.ApiDb.{unit_of_work}
use testing_platform_backend.Prelude.{
  Bool, List, Option, Result, [], err, false, if◌then◌else◌, is_some, map, modify, none, not, ok,
  some, true, ℕ, ◌++◌, ◌+◌, ◌>>=◌, ◌>>◌, ◌∷◌,
}

-- a request: who asks, in which session, at which instant of the database clock
pub record Request : Type 0 where
  pub user : ℕ
  pub session_id : ℕ
  pub now : ℕ

-- `_open_session` with the assurance stamp; the session is returned by its id
abbrev pub open_session : Primitives → ℕ → ℕ → Option ℕ → AuthDb → ℕ × AuthDb
open_session p now user assured_at db = (
  p.session_id_at db.drawn,
  record db {
    sessions =
        db.sessions
        ++ record {
          id = p.session_id_at db.drawn;
          user_id = user;
          token_hash = hash_session_token p (p.token_at db.drawn);
          created_at = now;
          last_seen_at = now;
          revoked_at = none;
          mfa_verified_at = assured_at;
        }
          ∷ [];
    drawn = db.drawn + 1;
  },
)

-- the codes to show once, and the tables with their digests in place of the old set
unfoldable pub replace_codes : Primitives → Request → AuthDb → List (List ℕ) × AuthDb
unfolding burn_recovery_codes insert_recovery_codes
replace_codes p q db =
    let codes_shown = p.fresh_codes db.drawn in
    (
      codes_shown,
      insert_recovery_codes q.user (map (hash_recovery_code p) codes_shown)
          (burn_recovery_codes q.user q.now db),
    )

module _ (p : Primitives) (policy : MfaPolicy) (q : Request) where
  -- `enroll_mfa` with the drawn seed; what it shows is the seed
  unfoldable enroll_mfa : Bool → ℕ → AuthDb → Result MfaError ℕ × AuthDb
  unfolding mfa_for
  enroll_mfa password_verifies secret db =
      if not password_verifies then (err wrong_current_password, db) else elim (mfa_for q.user db) [
        | none ↦ (
          ok secret,
          record db {
            factors =
                db.factors
                ++ record {
                  user_id = q.user;
                  totp_secret = some secret;
                  confirmed_at = none;
                  last_used_step = none;
                  failed_count = 0;
                  lockout_count = 0;
                  locked_until = none;
                }
                  ∷ [];
          },
        )
        | some row ↦ if is_some row.confirmed_at then (err mfa_already_enrolled, db) else (
          ok secret,
          put_factor q.user
              (record row { totp_secret = some secret; last_used_step = none; failed_count = 0 })
              db,
        )
      ]

  -- the row of a factor that `code` has confirmed
  abbrev pub confirmed_row : UserMfa → ℕ → UserMfa
  confirmed_row row matched =
      reset_counters (record row { confirmed_at = some q.now; last_used_step = some matched })

  -- what a matching code does: a session that was revoked meanwhile raises before the commit
  unfoldable pub activate : UserMfa → ℕ → AuthDb → Result MfaError (List (List ℕ)) × AuthDb
  unfolding stamp_session_assurance revoke_other_sessions replace_codes
  activate row matched db =
      let (was_open, assured) =
        stamp_session_assurance q.session_id q.now
          (put_factor q.user (confirmed_row row matched) db) in
      if not was_open
      then unit_of_work db (err session_revoked, assured)
      else let (codes_shown, after) =
          replace_codes p q (revoke_other_sessions q.user q.session_id q.now assured) in
        unit_of_work db (ok codes_shown, after)

  -- `confirm_mfa`
  unfoldable pub confirm_mfa : List ℕ → AuthDb → Result MfaError (List (List ℕ)) × AuthDb
  unfolding activate mfa_for require_mfa_unlocked
  confirm_mfa code db = elim (mfa_for q.user db) [
    | none ↦ (err mfa_not_enrolled, db)
    | some row ↦ elim row.totp_secret [
      | none ↦ (err mfa_not_enrolled, db)
      | some secret ↦
          if is_some row.confirmed_at
          then (err mfa_already_enrolled, db)
          else elim (require_mfa_unlocked row q.now) [
            | err e ↦ (err e, db)
            | ok _ ↦ elim (matching_step p secret code (step_at q.now)) [
              | none ↦ (err invalid_mfa_code, count_failure p policy q.user q.now row db)
              | some matched ↦ activate row matched db
            ]
          ]
    ]
  ]

  -- the pending session gives way to a fresh, assured one
  abbrev pub assure_new : AuthDb → Result MfaError (Option ℕ) × AuthDb
  assure_new db =
      let (id, with_session) =
        open_session p q.now q.user (some q.now) (revoke_session q.session_id q.now db) in
      (ok (some id), with_session)

  -- the session is stamped, or the call raises before its commit when it was revoked meanwhile
  abbrev pub assure_again : AuthDb → Bool × AuthDb → Result MfaError (Option ℕ) × AuthDb
  assure_again before (true, assured) = (ok none, assured)
  assure_again before (false, assured) = unit_of_work before (err session_revoked, assured)

  -- what `verify_mfa` does with the tables after a code was consumed
  unfoldable pub grant : Bool → AuthDb → AuthDb → Result MfaError (Option ℕ) × AuthDb
  unfolding stamp_session_assurance revoke_session
  grant is_pending before after =
      if is_pending
      then assure_new after
      else assure_again before (stamp_session_assurance q.session_id q.now after)

  -- `_confirmed_mfa` and `_require_mfa_unlocked`, as `verify_mfa` and `disable_mfa` begin
  abbrev pub usable_factor : AuthDb → Result MfaError (UserMfa × ℕ)
  usable_factor db = do
    found ← confirmed_mfa q.user db
    require_mfa_unlocked found.0 q.now
    ok found

  -- `verify_mfa`
  unfoldable pub verify_mfa :
      Bool → Option (List ℕ) → Option (List ℕ) → AuthDb → Result MfaError (Option ℕ) × AuthDb
  unfolding grant
  verify_mfa is_pending totp_code recovery_code db = elim (usable_factor db) [
    | err e ↦ (err e, db)
    | ok (row, secret) ↦
        elim (spend_code p policy q.user q.now row secret totp_code recovery_code db) [
          | spent after ↦ grant is_pending db after
          | counted after ↦ (err invalid_mfa_code, after)
          | no_code ↦ (err no_code_given, db)
        ]
  ]

  abbrev pub disabled_row : UserMfa → UserMfa
  disabled_row row = record row { totp_secret = none; confirmed_at = none; last_used_step = none }

  -- what `disable_mfa` does with the tables after a code was consumed
  unfoldable pub revoke_factor : AuthDb → ℕ × AuthDb
  unfolding burn_recovery_codes revoke_other_sessions revoke_session
  revoke_factor db = open_session p q.now q.user none (
      revoke_session q.session_id q.now (
        revoke_other_sessions q.user q.session_id q.now (
          burn_recovery_codes q.user q.now
            (record db { factors = modify (is_factor_of q.user) disabled_row db.factors }))))

  -- `disable_mfa`
  unfoldable disable_mfa :
      Bool → Option (List ℕ) → Option (List ℕ) → AuthDb → Result MfaError ℕ × AuthDb
  unfolding revoke_factor
  disable_mfa password_verifies totp_code recovery_code db = elim (usable_factor db) [
    | err e ↦ (err e, db)
    | ok (row, secret) ↦
        if not password_verifies
        then (err wrong_current_password, db)
        else elim (spend_code p policy q.user q.now row secret totp_code recovery_code db) [
          | spent after ↦ let (id, with_session) = revoke_factor after in (ok id, with_session)
          | counted after ↦ (err invalid_mfa_code, after)
          | no_code ↦ (err no_code_given, db)
        ]
  ]

  -- `regenerate_recovery_codes`
  unfoldable regenerate_recovery_codes : Bool → AuthDb → Result MfaError (List (List ℕ)) × AuthDb
  unfolding replace_codes
  regenerate_recovery_codes password_verifies db =
      if not password_verifies
      then (err wrong_current_password, db)
      else elim (confirmed_mfa q.user db) [
        | err e ↦ (err e, db)
        | ok _ ↦ let (codes_shown, after) = replace_codes p q db in (ok codes_shown, after)
      ]

  abbrev pub is_enrolled : Option UserMfa → Bool
  is_enrolled none = false
  is_enrolled (some row) = is_some row.confirmed_at

  -- `mfa_status`
  unfoldable mfa_status : AuthDb → Bool × Option ℕ
  unfolding mfa_for unused_recovery_code_count
  mfa_status db = (
    is_enrolled (mfa_for q.user db),
    if is_enrolled (mfa_for q.user db) then some (unused_recovery_code_count q.user db) else none,
  )
