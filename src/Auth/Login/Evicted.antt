-- ===== src/Auth/Login/Evicted.antt =====
-- A password change ends every session that the user had.
use testing_platform_backend.Auth.Accounts.{Accounts, AppUser, has_token_hash, session_bootstrap}
use testing_platform_backend.Auth.Login.{LockoutPolicy, LoginResult, Vault, change_password}
use testing_platform_backend.Auth.Login.Rotation.{change_password-ok, rotated, same_user}
use testing_platform_backend.Auth.Mfa.{Primitives, hash_session_token}
use testing_platform_backend.Auth.Sessions.{SessionPolicy, not_authenticated, resolve_session}
use testing_platform_backend.Auth.Sessions.Revoked.{
  bootstrap-found, bootstrap-some, bootstrap_update, revoked_refused, update_sessions,
}
use testing_platform_backend.Auth.Tables.{
  UserSession, is_open, is_other, revoke_other_sessions, revoke_session,
}
use testing_platform_backend.Prelude.{
  Bool, Bool-cases, List, Option-cases, [], arith, err, false, find, if◌then◌else◌, inl, inr,
  is_some, none, ok, refl, some, true, ℕ, ◌++◌, ◌==◌, ◌∙◌, ◌∷◌, ◌≡◌, ◌≢◌,
}

-- the row after both updates of a password change
evicted : (user session now : ℕ) (s : UserSession) → UserSession
evicted user session now s =
    let first : UserSession =
      if is_other user session s then record s { revoked_at = some now } else s in
    if is_open session first then record first { revoked_at = some now } else first

evicted_revoked :
    (user session now : ℕ) (s : UserSession)
    → (s.user_id == user) ≡ true
    → is_some (evicted user session now s).revoked_at ≡ true
unfolding evicted
evicted_revoked user session now s own = elim (Option-cases s.revoked_at) [
  | inr (t, e) ↦
      let o : is_other user session s ≡ false = ground arith in
      let w : is_open session s ≡ false = ground arith in rw (evicted, o, w, e) refl
  | inl n ↦ elim (Bool-cases (s.id == session)) [
    | inl y ↦
        let o : is_other user session s ≡ false = ground arith in
        let w : is_open session s ≡ true = ground arith in rw (evicted, o, w) refl
    | inr x ↦ let o : is_other user session s ≡ true = ground arith in rw (evicted, o, x) refl
  ]
]

-- A row that a query selects is still selected when a row is added behind it.
find-append :
    {A : Type 0} (q : A → Bool) (xs ys : List A) {a : A}
    → find q xs ≡ some a
    → find q (xs ++ ys) ≡ some a
find-append q [] ys h = cc
find-append q (x ∷ xs) ys {a} h = elim (Bool-cases (q x)) [
  | inl y ↦ rw y (rw y at h)
  | inr n ↦ rw n (find-append q xs ys {a = a} (rw n at h))
]

-- the session that the change opens
abbrev opened_row : Primitives → ℕ → ℕ → ℕ → UserSession
opened_row p now user drawn = record {
  id = p.session_id_at drawn;
  user_id = user;
  token_hash = hash_session_token p (p.token_at drawn);
  created_at = now;
  last_seen_at = now;
  revoked_at = none;
  mfa_verified_at = none;
}

module _ (p : Primitives) (v : Vault) (lockout : LockoutPolicy) (policy : SessionPolicy) where
  -- After a change of the password that succeeds, the token of every session that the user had
  -- before, the one that asked included, is refused at every instant, pending or not, and the
  -- cookie is cleared.
  pub change_password-evicts :
      (user session : ℕ) (old_password new_password : List ℕ) (now : ℕ) (db after : Accounts)
      (r : LoginResult) (token : List ℕ) (s : UserSession) (u : AppUser) (allow_pending : Bool)
      (now' : ℕ)
      → change_password p v lockout user session old_password new_password now db ≡ (ok r, after)
      → token ≢ []
      → session_bootstrap (hash_session_token p token) db ≡ some (s, u)
      → (s.user_id == user) ≡ true
      → resolve_session p policy allow_pending (some token) now' after
        ≡ (err (not_authenticated true), after)
  unfolding evicted revoke_session revoke_other_sessions
  change_password-evicts user session old_password new_password now db after r token s u
        allow_pending now' h n f own =
      let (c, stored, kek, u1, g, st, k, ea) =
        change_password-ok p v lockout user session old_password new_password now db after r h in
      let hash : ℕ = hash_session_token p token in
      let final : Accounts = rotated p v lockout now user session new_password kek c db in
      let once : Accounts =
        update_sessions (is_other user session) (λ x. record x { revoked_at = some now }) db in
      let twice : Accounts =
        update_sessions (is_open session) (λ x. record x { revoked_at = some now }) once in
      let s1 : UserSession =
        if is_other user session s then record s { revoked_at = some now } else s in
      let f1 : session_bootstrap hash once ≡ some (s1, u) =
        bootstrap_update hash (is_other user session) (λ x. record x { revoked_at = some now }) db s
          u (λ x. (refl, refl)) f in
      let f2 : session_bootstrap hash twice ≡ some (evicted user session now s, u) =
        bootstrap_update hash (is_open session) (λ x. record x { revoked_at = some now }) once s1 u
          (λ x. (refl, refl)) f1 in
      let (e, g2) = bootstrap-found hash twice (evicted user session now s) u f2 in
      let found : session_bootstrap hash final ≡ some (evicted user session now s, u) =
        bootstrap-some hash final (evicted user session now s) u
          (find-append (has_token_hash hash) twice.auth.sessions
            (opened_row p now user db.auth.drawn ∷ []) e)
          (same_user p v lockout (evicted user session now s).user_id twice final refl ∙ g2) in
      rw ea (
        revoked_refused p policy allow_pending token now' final (evicted user session now s) u n
          found (evicted_revoked user session now s own))
