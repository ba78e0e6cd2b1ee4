-- ===== src/Auth/Mfa.antt =====
-- The second factor of domains/auth/service.py and domains/auth/totp.py: codes, replay, lockout.
use testing_platform_backend.Auth.Tables.{
  AuthDb, UserMfa, consume_recovery_code, mfa_for, put_factor,
}
use testing_platform_backend.Prelude.{
  Bool, List, Option, Result, err, false, if◌then◌else◌, is_some, keep, leb, ltb, min, none, not,
  ok, some, ℕ, ◌&&◌, ◌*◌, ◌+◌, ◌-◌, ◌/◌, ◌==◌, ◌^◌,
}
use testing_platform_backend.Text.{lower}

-- What the program takes from other packages: the check of a TOTP code of one time step, the digest
-- of a recovery code or a session token, the ids and tokens of sessions, and the codes that `secrets` draws.
pub record Primitives : Type 0 where
  pub verify_totp : ℕ → List ℕ → ℕ → Bool
  pub sha256 : List ℕ → ℕ
  pub session_id_at : ℕ → ℕ
  pub token_at : ℕ → List ℕ
  pub fresh_codes : ℕ → List (List ℕ)

-- `hash_session_token` of core/security.py
abbrev pub hash_session_token : Primitives → List ℕ → ℕ
hash_session_token p token = p.sha256 token

-- the settings of the lockout
pub record MfaPolicy : Type 0 where
  pub failed_threshold : ℕ
  pub lockout_base_seconds : ℕ
  pub lockout_cap_seconds : ℕ

pub data MfaError : Type 0 where
  mfa_not_enrolled mfa_already_enrolled invalid_mfa_code : MfaError
  session_revoked no_code_given wrong_current_password : MfaError
  mfa_locked : ℕ → MfaError

-- `step_at` of whole seconds
unfoldable pub step_at : ℕ → ℕ
step_at seconds = seconds / 30

-- `matching_step`; the steps of the present are positive
unfoldable pub matching_step : Primitives → ℕ → List ℕ → ℕ → Option ℕ
matching_step p secret code at_step =
    if p.verify_totp secret code (at_step - 1)
    then some (at_step - 1)
    else if p.verify_totp secret code at_step
    then some at_step
    else if p.verify_totp secret code (at_step + 1)
    then some (at_step + 1)
    else none

-- `code.replace("-", "").replace(" ", "").lower()` for ASCII codes
unfoldable pub normalized : List ℕ → List ℕ
normalized code = lower (keep (λ c. not (c == 45) && not (c == 32)) code)

-- `hash_recovery_code`
unfoldable pub hash_recovery_code : Primitives → List ℕ → ℕ
unfolding normalized
hash_recovery_code p code = p.sha256 (normalized code)

-- `_confirmed_mfa`: the row and its seed
unfoldable pub confirmed_mfa : ℕ → AuthDb → Result MfaError (UserMfa × ℕ)
unfolding mfa_for
confirmed_mfa user db = elim (mfa_for user db) [
  | none ↦ err mfa_not_enrolled
  | some row ↦ elim row.totp_secret [
    | none ↦ err mfa_not_enrolled
    | some secret ↦ if is_some row.confirmed_at then ok (row, secret) else err mfa_not_enrolled
  ]
]

-- `_require_mfa_unlocked`
unfoldable pub require_mfa_unlocked : UserMfa → ℕ → Result MfaError (Unit {0})
require_mfa_unlocked row observed_at = elim row.locked_until [
  | none ↦ ok tt
  | some until ↦ if ltb observed_at until then err (mfa_locked (until - observed_at + 1)) else ok tt
]

-- the escalating duration of a lockout
abbrev pub lockout_duration : MfaPolicy → ℕ → ℕ
lockout_duration policy earlier =
    min (policy.lockout_base_seconds * 2 ^ earlier) policy.lockout_cap_seconds

-- `_record_mfa_failure`, without its commit
unfoldable pub record_mfa_failure : MfaPolicy → ℕ → UserMfa → UserMfa
record_mfa_failure policy observed_at row =
    if leb policy.failed_threshold (row.failed_count + 1)
    then record row {
      failed_count = 0;
      lockout_count = row.lockout_count + 1;
      locked_until = some (observed_at + lockout_duration policy row.lockout_count);
    }
    else record row { failed_count = row.failed_count + 1 }

abbrev pub reset_counters : UserMfa → UserMfa
reset_counters row = record row { failed_count = 0; lockout_count = 0; locked_until = none }

-- `step <= row.last_used_step` for a step that was used
abbrev pub is_replay : ℕ → Option ℕ → Bool
is_replay step none = false
is_replay step (some last) = leb step last

-- How `_spend_code` ends: the tables with the code consumed, a failure that is counted and committed,
-- or a call without a code.
pub data Spent : Type 0 where
  spent : AuthDb → Spent
  counted : AuthDb → Spent
  no_code : Spent

module _ (p : Primitives) (policy : MfaPolicy) (user observed_at : ℕ) where
  abbrev pub count_failure : UserMfa → AuthDb → AuthDb
  count_failure row db = put_factor user (record_mfa_failure policy observed_at row) db

  unfoldable pub spend_totp : UserMfa → ℕ → List ℕ → AuthDb → Spent
  spend_totp row secret code db = elim (matching_step p secret code (step_at observed_at)) [
    | none ↦ counted (count_failure row db)
    | some step ↦
        if is_replay step row.last_used_step
        then counted (count_failure row db)
        else spent (put_factor user (reset_counters (record row { last_used_step = some step })) db)
  ]

  unfoldable pub spend_recovery : UserMfa → List ℕ → AuthDb → Spent
  spend_recovery row code db =
      let (consumed, after) =
        consume_recovery_code user (hash_recovery_code p code) observed_at db in
      if consumed
      then spent (put_factor user (reset_counters row) after)
      else counted (count_failure row after)

  -- `_spend_code`
  unfoldable pub spend_code : UserMfa → ℕ → Option (List ℕ) → Option (List ℕ) → AuthDb → Spent
  unfolding spend_totp spend_recovery
  spend_code row secret (some code) recovery_code db = spend_totp row secret code db
  spend_code row secret none (some code) db = spend_recovery row code db
  spend_code row secret none none db = no_code
