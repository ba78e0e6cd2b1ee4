-- ===== src/Auth/Sessions/Resolution.antt =====
-- Which cookies `_resolve_session` accepts.
use testing_platform_backend.Auth.Accounts.{Accounts, AppUser, session_bootstrap}
use testing_platform_backend.Auth.Mfa.{Primitives, hash_session_token}
use testing_platform_backend.Auth.Sessions.{
  AuthenticatedSession, Refusal, SessionPolicy, admit, identity_of, is_mfa_enrolled, is_past,
  resolve_session, touch,
}
use testing_platform_backend.Auth.Tables.{UserSession}
use testing_platform_backend.Prelude.{
  Bool, Bool-cases, List, Option, Option-cases, Result, [], ap, arith, cons≢nil, false, inl, inr,
  is_some, none, not, ok, ok-injective, refl, some, sym, true, ℕ, ◌&&◌, ◌+◌, ◌<◌, ◌||◌, ◌↔◌, ◌∙◌,
  ◌∷◌, ◌≡◌, ◌≢◌, ◌⊎◌,
}

module _ (p : Primitives) (policy : SessionPolicy) where
  -- The session `s` of the enabled user `u`, which is live at `now` and not pending, or may be.
  pub record Live (allow_pending : Bool) (now : ℕ) (s : UserSession) (u : AppUser) (db : Accounts)
      : Type 0 where
    pub open_still : s.revoked_at ≡ none
    pub enabled : u.disabled_at ≡ none
    pub within_absolute : now < s.created_at + policy.absolute_seconds
    pub within_idle : now < s.last_seen_at + policy.idle_seconds
    pub factor_done :
        (allow_pending ≡ true)
        ⊎ ((is_mfa_enrolled s.user_id db ≡ false) ⊎ (is_some s.mfa_verified_at ≡ true))

  abbrev pub Admitted :
      Bool → ℕ → UserSession → AppUser → Accounts → AuthenticatedSession → Accounts → Type 0
  Admitted allow_pending now s u db a after =
      Live allow_pending now s u db
      × (a ≡ identity_of s u (is_mfa_enrolled s.user_id db) now)
      × (after ≡ touch s.id now db)

  none-of : {A : Type 0} (o : Option A) → is_some o ≡ false → o ≡ none
  none-of none h = refl
  none-of (some x) h = cc

  factor-cases :
      (allow_pending enrolled stamped : Bool)
      → (not allow_pending && enrolled && not stamped) ≡ false
      → (allow_pending ≡ true) ⊎ ((enrolled ≡ false) ⊎ (stamped ≡ true))
  factor-cases true e s h = inl refl
  factor-cases false false s h = inr (inl refl)
  factor-cases false true true h = inr (inr refl)
  factor-cases false true false h = cc

  admit-Admitted :
      (allow_pending : Bool) (now : ℕ) (s : UserSession) (u : AppUser) (db after : Accounts)
      (a : AuthenticatedSession)
      → admit p policy allow_pending now s u db ≡ (ok a, after)
      → Admitted allow_pending now s u db a after
  unfolding admit
  admit-Admitted allow_pending now s u db after a h =
      elim (Bool-cases (is_some s.revoked_at || is_some u.disabled_at)) [
        | inl y ↦
            let e =
              ap (λ (v : Result Refusal AuthenticatedSession × Accounts). v.0)
                (rw (admit, y) at h) in
            cc
        | inr n1 ↦
            elim (Bool-cases (
              is_past s.created_at policy.absolute_seconds now
              || is_past s.last_seen_at policy.idle_seconds now)) [
                | inl y ↦
                    let e =
                      ap (λ (v : Result Refusal AuthenticatedSession × Accounts). v.0)
                        (rw (admit, n1, y) at h) in
                    cc
                | inr n2 ↦
                    elim (Bool-cases (
                      not allow_pending
                      && is_mfa_enrolled s.user_id db
                      && not (is_some s.mfa_verified_at))) [
                        | inl y ↦
                            let e =
                              ap (λ (v : Result Refusal AuthenticatedSession × Accounts). v.0)
                                (rw (admit, n1, n2, y) at h) in
                            cc
                        | inr n3 ↦
                            let e : ◌≡◌ {A = Result Refusal AuthenticatedSession × Accounts}
                                (
                                  ok (identity_of s u (is_mfa_enrolled s.user_id db) now),
                                  touch s.id now db,
                                )
                                (ok a, after) =
                              rw (admit, n1, n2, n3) at h in
                            let live : Live allow_pending now s u db = record {
                              open_still = none-of s.revoked_at (ground arith);
                              enabled = none-of u.disabled_at (ground arith);
                              within_absolute = ground arith;
                              within_idle = ground arith;
                              factor_done =
                                  factor-cases allow_pending (is_mfa_enrolled s.user_id db)
                                    (is_some s.mfa_verified_at) n3;
                            } in
                            (live, sym (ok-injective (ap (λ v. v.0) e)), sym (ap (λ v. v.1) e))
                      ]
              ]
      ]

  Live-admit :
      (allow_pending : Bool) (now : ℕ) (s : UserSession) (u : AppUser) (db : Accounts)
      → Live allow_pending now s u db
      → admit p policy allow_pending now s u db
        ≡ (ok (identity_of s u (is_mfa_enrolled s.user_id db) now), touch s.id now db)
  unfolding admit
  Live-admit allow_pending now s u db l =
      let b1 : (is_some s.revoked_at || is_some u.disabled_at) ≡ false =
        rw (l.open_still, l.enabled) refl in
      let b2 : (is_past s.created_at policy.absolute_seconds now
            || is_past s.last_seen_at policy.idle_seconds now)
          ≡ false =
        ground (arith, l.within_absolute, l.within_idle) in
      let b3 : (not allow_pending
            && is_mfa_enrolled s.user_id db
            && not (is_some s.mfa_verified_at))
          ≡ false =
        elim l.factor_done [
          | inl y ↦ rw y refl
          | inr (inl n) ↦ ground arith
          | inr (inr v) ↦ ground arith
        ] in
      rw (admit, b1, b2, b3) refl

  -- A cookie is accepted just when it carries a token whose digest is that of a session of an
  -- existing user, and that session is live: not revoked, of a user that is not disabled, within
  -- both timeouts, and past its second factor unless a pending session will do. The identity is
  -- that of the session and its user, and only the stamp of that session changes.
  pub resolve_session_iff :
      (allow_pending : Bool) (token : List ℕ) (now : ℕ) (db after : Accounts)
      (a : AuthenticatedSession)
      → (resolve_session p policy allow_pending (some token) now db ≡ (ok a, after)) ↔ (
          (s : UserSession) × (u : AppUser) × (token ≢ [])
          × (session_bootstrap (hash_session_token p token) db ≡ some (s, u))
          × Admitted allow_pending now s u db a after)
  unfolding resolve_session
  resolve_session_iff allow_pending [] now db after a = (
    λ h. let e = ap (λ (v : Result Refusal AuthenticatedSession × Accounts). v.0) h in cc,
    λ h. let (s, u, n, f, rest) = h in absurd (n refl),
  )
  resolve_session_iff allow_pending (c ∷ token) now db after a =
      elim (Option-cases (session_bootstrap (hash_session_token p (c ∷ token)) db)) [
        | inl n ↦ (
          λ h.
              let e =
                ap (λ (v : Result Refusal AuthenticatedSession × Accounts). v.0)
                  (rw (resolve_session, n) at h) in
              cc,
          λ h. let (s, u, t, f, rest) = h in cc,
        )
        | inr ((s, u), f) ↦ (
          λ h. (
            s,
            u,
            cons≢nil c token,
            f,
            admit-Admitted allow_pending now s u db after a (rw (resolve_session, f) at h),
          ),
          λ h.
              let (s', u', t, g, rest) = h in
              let (live, ea, eb) = rest in
              let run : resolve_session p policy allow_pending (some (c ∷ token)) now db
                  ≡ admit p policy allow_pending now s' u' db =
                rw (resolve_session, g) refl in
              run ∙ Live-admit allow_pending now s' u' db live ∙ rw (ea, eb) refl,
        )
      ]
