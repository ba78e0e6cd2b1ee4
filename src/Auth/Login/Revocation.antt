-- ===== src/Auth/Login/Revocation.antt =====
-- Logging out ends the session for good.
use testing_platform_backend.Auth.Accounts.{Accounts, session_bootstrap}
use testing_platform_backend.Auth.Login.{logout}
use testing_platform_backend.Auth.Mfa.{Primitives, hash_session_token}
use testing_platform_backend.Auth.Sessions.{
  AuthenticatedSession, SessionPolicy, not_authenticated, resolve_session, touch,
}
use testing_platform_backend.Auth.Sessions.Resolution.{resolve_session_iff}
use testing_platform_backend.Auth.Sessions.Revoked.{
  bootstrap_update, revoked_refused, update_sessions,
}
use testing_platform_backend.Auth.Tables.{UserSession, is_open, revoke_session}
use testing_platform_backend.Prelude.{
  Bool, Bool-cases, List, Option-cases, ap, arith, err, false, if◌then◌else◌, inl, inr, is_some, ok,
  refl, some, true, ℕ, ◌==◌, ◌≡◌,
}

revoked_by :
    (id now : ℕ) (s : UserSession)
    → s.id ≡ id
    → is_some (if is_open id s then record s { revoked_at = some now } else s).revoked_at ≡ true
revoked_by id now s e = elim (Option-cases s.revoked_at) [
  | inl n ↦ let y : is_open id s ≡ true = rw n (ground arith) in rw y refl
  | inr (t, r) ↦ let n : is_open id s ≡ false = rw r (ground arith) in rw (n, r) refl
]

touched_id :
    (id now : ℕ) (s : UserSession)
    → (if s.id == id then record s { last_seen_at = now } else s).id ≡ s.id
touched_id id now s = elim (Bool-cases (s.id == id)) [ inl y ↦ rw y refl | inr n ↦ rw n refl ]

touched-update :
    (session now : ℕ) (db : Accounts)
    → touch session now db
      ≡ update_sessions (λ s. s.id == session) (λ s. record s { last_seen_at = now }) db
unfolding touch
touched-update session now db = refl

logged_out-update :
    (session now : ℕ) (db : Accounts)
    → logout session now db
      ≡ update_sessions (is_open session) (λ s. record s { revoked_at = some now }) db
unfolding logout revoke_session
logged_out-update session now db = refl

module _ (p : Primitives) (policy : SessionPolicy) where
  -- Once the session that a token was accepted for has logged out, the token is refused at every
  -- instant, also by the operations that accept a pending session, and the cookie is cleared.
  pub resolve_session-logout :
      (allow_pending : Bool) (token : List ℕ) (now : ℕ) (db after : Accounts)
      (a : AuthenticatedSession) (allow_pending' : Bool) (now' at : ℕ)
      → resolve_session p policy allow_pending (some token) now db ≡ (ok a, after)
      → (resolve_session p policy allow_pending' (some token) now' (logout a.session_id at after)).0
        ≡ err (not_authenticated true)
  resolve_session-logout allow_pending token now db after a allow_pending' now' at h =
      let (s, u, n, f, rest) =
        (resolve_session_iff p policy allow_pending token now db after a).0 h in
      let (live, ea, eb) = rest in
      let hash : ℕ = hash_session_token p token in
      let s1 : UserSession = if s.id == s.id then record s { last_seen_at = now } else s in
      let s2 : UserSession = if is_open s.id s1 then record s1 { revoked_at = some at } else s1 in
      let f1 : session_bootstrap hash (touch s.id now db) ≡ some (s1, u) =
        rw (touched-update s.id now db) (
          bootstrap_update hash (λ x. x.id == s.id) (λ x. record x { last_seen_at = now }) db s u
            (λ x. (refl, refl)) f) in
      let f2 : session_bootstrap hash (logout s.id at (touch s.id now db)) ≡ some (s2, u) =
        rw (logged_out-update s.id at (touch s.id now db)) (
          bootstrap_update hash (is_open s.id) (λ x. record x { revoked_at = some at })
            (touch s.id now db) s1 u (λ x. (refl, refl)) f1) in
      let refused : resolve_session p policy allow_pending' (some token) now'
            (logout s.id at (touch s.id now db))
          ≡ (err (not_authenticated true), logout s.id at (touch s.id now db)) =
        revoked_refused p policy allow_pending' token now' (logout s.id at (touch s.id now db)) s2 u
          n f2 (revoked_by s.id at s1 (touched_id s.id now s)) in
      rw (ea, eb) (ap (λ v. v.0) refused)
