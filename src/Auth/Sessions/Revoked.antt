-- ===== src/Auth/Sessions/Revoked.antt =====
-- What becomes of a token when the sessions are updated.
use testing_platform_backend.Auth.Accounts.{
  Accounts, AppUser, has_id, has_token_hash, session_bootstrap, user_by_id,
}
use testing_platform_backend.Auth.Mfa.{Primitives, hash_session_token}
use testing_platform_backend.Auth.Sessions.{
  SessionPolicy, admit, not_authenticated, resolve_session,
}
use testing_platform_backend.Auth.Tables.{UserSession}
use testing_platform_backend.Prelude.{
  Bool, Bool-cases, List, Option, Option-cases, [], ap, err, find, find-modify_all, if◌then◌else◌,
  inl, inr, is_some, modify_all, none, refl, some, some-equal, subst, true, ℕ, ◌==◌, ◌∙◌, ◌∷◌, ◌≡◌,
  ◌≢◌,
}

-- the tables with an update of sessions
abbrev pub update_sessions :
    (UserSession → Bool) → (UserSession → UserSession) → Accounts → Accounts
update_sessions q f db = record db {
  auth = record db.auth { sessions = modify_all q f db.auth.sessions };
}

pub bootstrap-some :
    (hash : ℕ) (db : Accounts) (s : UserSession) (u : AppUser)
    → find (has_token_hash hash) db.auth.sessions ≡ some s
    → user_by_id s.user_id db ≡ some u
    → session_bootstrap hash db ≡ some (s, u)
unfolding session_bootstrap
bootstrap-some hash db s u e f = rw (session_bootstrap, e, f) refl

pub bootstrap-found :
    (hash : ℕ) (db : Accounts) (s : UserSession) (u : AppUser)
    → session_bootstrap hash db ≡ some (s, u)
    → (find (has_token_hash hash) db.auth.sessions ≡ some s) × (user_by_id s.user_id db ≡ some u)
unfolding session_bootstrap
bootstrap-found hash db s u h = elim (Option-cases (find (has_token_hash hash) db.auth.sessions)) [
  | inl n ↦
      let clash : ◌≡◌ {A = Option (UserSession × AppUser)} none (some (s, u)) =
        rw (session_bootstrap, n) at h in
      cc
  | inr (t, e) ↦ elim (Option-cases (user_by_id t.user_id db)) [
    | inl n ↦
        let clash : ◌≡◌ {A = Option (UserSession × AppUser)} none (some (s, u)) =
          rw (session_bootstrap, e, n) at h in
        cc
    | inr (v, g) ↦
        let same : ◌≡◌ {A = Option (UserSession × AppUser)} (some (t, v)) (some (s, u)) =
          rw (session_bootstrap, e, g) at h in
        let pair : ◌≡◌ {A = UserSession × AppUser} (t, v) (s, u) = some-equal (t, v) (s, u) same in
        let st : t ≡ s = ap (λ w. w.0) pair in
        let vu : v ≡ u = ap (λ w. w.1) pair in
        (
          e ∙ ap some st,
          subst (λ (x : UserSession). user_by_id x.user_id db ≡ some u) st (g ∙ ap some vu),
        )
  ]
]

pub bootstrap_update :
    (hash : ℕ) (q : UserSession → Bool) (f : UserSession → UserSession) (db : Accounts)
    (s : UserSession) (u : AppUser)
    → ((x : UserSession) → ((f x).token_hash ≡ x.token_hash) × ((f x).user_id ≡ x.user_id))
    → session_bootstrap hash db ≡ some (s, u)
    → session_bootstrap hash (update_sessions q f db) ≡ some (if q s then f s else s, u)
unfolding user_by_id
bootstrap_update hash q f db s u keeps h =
    let (e, g) = bootstrap-found hash db s u h in
    let row : UserSession = if q s then f s else s in
    let same_user : row.user_id ≡ s.user_id = elim (Bool-cases (q s)) [
      | inl y ↦ rw y ((keeps s).1)
      | inr n ↦ rw n refl
    ] in
    bootstrap-some hash (update_sessions q f db) row u
      (find-modify_all (has_token_hash hash) q f db.auth.sessions
        (λ x. ap (λ i. i == hash) (keeps x).0) e)
      (ap (λ i. find (has_id i) db.users) same_user ∙ g)

module _ (p : Primitives) (policy : SessionPolicy) where
  -- The token of a revoked session is refused at every instant, pending or not, and the cookie is
  -- cleared.
  pub revoked_refused :
      (allow_pending : Bool) (token : List ℕ) (now : ℕ) (db : Accounts) (s : UserSession)
      (u : AppUser)
      → token ≢ []
      → session_bootstrap (hash_session_token p token) db ≡ some (s, u)
      → is_some s.revoked_at ≡ true
      → resolve_session p policy allow_pending (some token) now db
        ≡ (err (not_authenticated true), db)
  unfolding resolve_session admit
  revoked_refused allow_pending [] now db s u n h r = absurd (n refl)
  revoked_refused allow_pending (c ∷ token) now db s u n h r =
      rw (resolve_session, h, admit, r) refl
