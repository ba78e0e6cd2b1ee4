-- ===== src/Auth/Service/Activation.antt =====
-- `confirm_mfa`: when a factor becomes confirmed.
use testing_platform_backend.Auth.Mfa.{
  MfaError, MfaPolicy, Primitives, count_failure, invalid_mfa_code, matching_step,
  mfa_already_enrolled, mfa_not_enrolled, record_mfa_failure, require_mfa_unlocked, session_revoked,
  step_at,
}
use testing_platform_backend.Auth.Service.{
  Request, activate, confirm_mfa, confirmed_row, replace_codes,
}
use testing_platform_backend.Auth.Service.Verify.{mfa_for-put_factor, mfa_for-same}
use testing_platform_backend.Auth.Tables.{
  AuthDb, UserMfa, UserSession, burn_recovery_codes, insert_recovery_codes, is_open, is_other,
  mfa_for, put_factor, revoke_other_sessions, stamp_session_assurance,
}
use testing_platform_backend.Prelude.{
  Bool-cases, List, Option, Option-cases, Result, Result-cases, Some, [], any, ap, arith, err,
  false, inl, inr, is_some, leb, modify_all, none, ok, refl, some, subst, sym, true, ℕ, ◌+◌, ◌∙◌,
  ◌∷◌, ◌≡◌, ◌⊎◌,
}

-- the instant at which the factor of a user was confirmed, if it has one and it was
abbrev pub confirmation : Option UserMfa → Option ℕ
confirmation none = none
confirmation (some row) = row.confirmed_at

-- an open session, assured at that instant
abbrev pub IsAssured : ℕ → ℕ → UserSession → Type 0
IsAssured id now s = (s.id ≡ id) × (s.revoked_at ≡ none) × (s.mfa_verified_at ≡ some now)

-- the two updates of the sessions
abbrev stamp_open : ℕ → ℕ → List UserSession → List UserSession
stamp_open id now = modify_all (is_open id) (λ s. record s { mfa_verified_at = some now })

abbrev revoke_others : ℕ → ℕ → ℕ → List UserSession → List UserSession
revoke_others user id now = modify_all (is_other user id) (λ s. record s { revoked_at = some now })

stays_open :
    (user id now : ℕ) (s : UserSession)
    → is_open id s ≡ true
    → (is_other user id (record s { mfa_verified_at = some now }) ≡ false)
      × IsAssured id now (record s { mfa_verified_at = some now })
stays_open user id now s h = elim (Option-cases s.revoked_at) [
  | inl n ↦ (ground arith, (ground arith, n, refl))
  | inr (at, e) ↦ ground arith
]

revoke_others-stamp_open :
    (user id now : ℕ) (ss : List UserSession)
    → any (is_open id) ss ≡ true
    → Some (IsAssured id now) (revoke_others user id now (stamp_open id now ss))
revoke_others-stamp_open user id now [] h = cc
revoke_others-stamp_open user id now (s ∷ ss) h = elim (Bool-cases (is_open id s)) [
  | inl y ↦ let (kept, assured) = stays_open user id now s y in rw y (rw kept (inl assured))
  | inr n ↦ inr (revoke_others-stamp_open user id now ss (rw n at h))
]

revoke_others-none :
    (user id now : ℕ) (ss : List UserSession)
    → any (is_other user id) (revoke_others user id now ss) ≡ false
revoke_others-none user id now [] = refl
revoke_others-none user id now (s ∷ ss) = elim (Bool-cases (is_other user id s)) [
  | inl y ↦ rw y (ground (arith, revoke_others-none user id now ss))
  | inr n ↦ rw n (rw n (revoke_others-none user id now ss))
]

record_mfa_failure-keeps :
    (policy : MfaPolicy) (now : ℕ) (row : UserMfa)
    → ((record_mfa_failure policy now row).confirmed_at ≡ row.confirmed_at)
      × ((record_mfa_failure policy now row).user_id ≡ row.user_id)
unfolding record_mfa_failure
record_mfa_failure-keeps policy now row =
    elim (Bool-cases (leb policy.failed_threshold (row.failed_count + 1))) [
      | inl y ↦ rw y (refl, refl)
      | inr n ↦ rw n (refl, refl)
    ]

module _ (p : Primitives) (policy : MfaPolicy) (q : Request) where
  -- What a confirmation that succeeds means: the code is that of a step near the present one, of a
  -- factor that was enrolled, unconfirmed and unlocked, which is now confirmed with that step as the
  -- last one; and the calling session was open, is assured, and is the only open one of the user.
  abbrev pub Confirmed : List ℕ → AuthDb → AuthDb → Type 0
  Confirmed code db after =
      (row : UserMfa) × (secret : ℕ) × (matched : ℕ) × (mfa_for q.user db ≡ some row)
      × (row.totp_secret ≡ some secret)
      × (is_some row.confirmed_at ≡ false)
      × (require_mfa_unlocked row q.now ≡ ok tt)
      × (matching_step p secret code (step_at q.now) ≡ some matched)
      × (mfa_for q.user after ≡ some (confirmed_row p policy q row matched))
      × (any (is_open q.session_id) db.sessions ≡ true)
      × Some (IsAssured q.session_id q.now) after.sessions
      × (any (is_other q.user q.session_id) after.sessions ≡ false)

  -- the two ways a confirmation ends
  abbrev pub Confirms : List ℕ → AuthDb → Result MfaError (List (List ℕ)) × AuthDb → Type 0
  Confirms code db (r, after) =
      ((shown : List (List ℕ)) × (r ≡ ok shown) × Confirmed code db after)
      ⊎ ((e : MfaError) × (r ≡ err e)
          × (confirmation (mfa_for q.user after) ≡ confirmation (mfa_for q.user db))
          × (after.sessions ≡ db.sessions))

  refused : (code : List ℕ) (db : AuthDb) (e : MfaError) → Confirms code db (err e, db)
  refused code db e = inr (e, refl, refl, refl)

  counted_failure :
      (code : List ℕ) (db : AuthDb) (row : UserMfa) (e : MfaError)
      → mfa_for q.user db ≡ some row
      → Confirms code db (err e, count_failure p policy q.user q.now row db)
  counted_failure code db row e f =
      let (same, owner) = record_mfa_failure-keeps policy q.now row in
      let found = mfa_for-put_factor q.user (record_mfa_failure policy q.now row) db f owner in
      inr (e, refl, ap confirmation found ∙ same ∙ sym (ap confirmation f), refl)

  activate-Confirms :
      (code : List ℕ) (db : AuthDb) (row : UserMfa) (secret matched : ℕ)
      → mfa_for q.user db ≡ some row
      → row.totp_secret ≡ some secret
      → is_some row.confirmed_at ≡ false
      → require_mfa_unlocked row q.now ≡ ok tt
      → matching_step p secret code (step_at q.now) ≡ some matched
      → Confirms code db (activate p policy q row matched db)
  unfolding activate stamp_session_assurance revoke_other_sessions replace_codes burn_recovery_codes
      insert_recovery_codes
  activate-Confirms code db row secret matched f g n u m =
      elim (Bool-cases (any (is_open q.session_id) db.sessions)) [
        | inr z ↦
            let e : activate p policy q row matched db ≡ (err session_revoked, db) =
              rw (activate, z) refl in
            subst (Confirms code db) (sym e) (refused code db session_revoked)
        | inl y ↦
            let written = put_factor q.user (confirmed_row p policy q row matched) db in
            let found =
              mfa_for-put_factor q.user (confirmed_row p policy q row matched) db f refl in
            let (shown, after) = replace_codes p q (
              revoke_other_sessions q.user q.session_id q.now
                (stamp_session_assurance q.session_id q.now written).1) in
            let e : activate p policy q row matched db ≡ (ok shown, after) =
              rw (activate, y) refl in
            subst (Confirms code db) (sym e) (
              inl (
                shown,
                refl,
                (
                  row,
                  secret,
                  matched,
                  f,
                  g,
                  n,
                  u,
                  m,
                  mfa_for-same q.user after written refl ∙ found,
                  y,
                  revoke_others-stamp_open q.user q.session_id q.now db.sessions y,
                  revoke_others-none q.user q.session_id q.now
                      (stamp_open q.session_id q.now db.sessions),
                ),
              ))
      ]

  becomes :
      (code : List ℕ) (db : AuthDb) (r : Result MfaError (List (List ℕ)) × AuthDb)
      → confirm_mfa p policy q code db ≡ r
      → Confirms code db r
      → Confirms code db (confirm_mfa p policy q code db)
  becomes code db r e h = subst (Confirms code db) (sym e) h

  -- A confirmation with any code ends in one of two ways. It succeeds: the user had enrolled a factor
  -- that was unconfirmed and unlocked, the code is that of a step within one of the present one, and
  -- the calling session was open; the factor is then confirmed with that step as its last one, and the
  -- session is assured and the only open session of the user. Or it is refused, be it because the
  -- session was revoked meanwhile, and leaves all sessions, and whether and when the factor was
  -- confirmed, as they were.
  pub confirm_mfa-Confirms :
      (code : List ℕ) (db : AuthDb) → Confirms code db (confirm_mfa p policy q code db)
  unfolding confirm_mfa
  confirm_mfa-Confirms code db = elim (Option-cases (mfa_for q.user db)) [
    | inl f ↦
        becomes code db (err mfa_not_enrolled, db) (rw (confirm_mfa, f) refl)
          (refused code db mfa_not_enrolled)
    | inr (row, f) ↦ elim (Option-cases row.totp_secret) [
      | inl g ↦
          becomes code db (err mfa_not_enrolled, db) (rw (confirm_mfa, f, g) refl)
            (refused code db mfa_not_enrolled)
      | inr (secret, g) ↦ elim (Bool-cases (is_some row.confirmed_at)) [
        | inl n ↦
            becomes code db (err mfa_already_enrolled, db) (rw (confirm_mfa, f, g, n) refl)
              (refused code db mfa_already_enrolled)
        | inr n ↦ elim (Result-cases (require_mfa_unlocked row q.now)) [
          | inl (e, u) ↦
              becomes code db (err e, db) (rw (confirm_mfa, f, g, n, u) refl) (refused code db e)
          | inr (t, u) ↦ elim (Option-cases (matching_step p secret code (step_at q.now))) [
            | inl m ↦
                becomes code db (err invalid_mfa_code, count_failure p policy q.user q.now row db)
                  (simp (confirm_mfa, f, g, n, u, m))
                  (counted_failure code db row invalid_mfa_code f)
            | inr (matched, m) ↦
                becomes code db (activate p policy q row matched db)
                  (simp (confirm_mfa, f, g, n, u, m))
                  (activate-Confirms code db row secret matched f g n u m)
          ]
        ]
      ]
    ]
  ]
