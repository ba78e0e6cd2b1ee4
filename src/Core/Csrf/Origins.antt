-- ===== src/Core/Csrf/Origins.antt =====
-- Which requests with the session cookie reach the application.
use testing_platform_backend.Core.Csrf.{
  OriginRequest, bears_session, header_text, is_permitted, is_state_changing, is_unset,
  passes_origin_check, rstrip_slashes,
}
use testing_platform_backend.Prelude.{
  ==_iff, List, Option-cases, [], ap, arith, false, inl, inr, none, refl, some, some-equal, sym,
  true, ℕ, ◌++◌, ◌==◌, ◌↔◌, ◌∙◌, ◌∷◌, ◌≡◌, ◌≢◌, ◌⊎◌,
}
use testing_platform_backend.Text.{starts_with}
use testing_platform_backend.Text.Laws.{text_eq_iff}

starts_with_iff :
    (prefix s : List ℕ) → (starts_with prefix s ≡ true) ↔ ((rest : List ℕ) × (s ≡ prefix ++ rest))
unfolding starts_with
starts_with_iff [] s = (λ h. (s, refl), λ h. refl)
starts_with_iff (c ∷ prefix) [] = (λ h. cc, λ h. let (rest, e) = h in cc)
starts_with_iff (c ∷ prefix) (d ∷ s) = (
  λ h.
      let same : (c == d) ≡ true = ground arith in
      let more : starts_with prefix s ≡ true = ground arith in
      let head : c ≡ d = (==_iff c d).0 same in
      let (rest, e) = (starts_with_iff prefix s).0 more in (rest, rw (head, e) refl),
  λ h.
      let (rest, e) = h in
      let head : d ≡ c = cc in
      let tail : s ≡ prefix ++ rest = cc in
      let same : (c == d) ≡ true = (==_iff c d).1 (sym head) in
      rw (same, (starts_with_iff prefix s).1 (rest, tail)) refl,
)

-- A state-changing request with the session cookie, where a public origin is set, reaches the
-- application just when it names that origin, up to slashes at the end, or names none and comes from
-- a page under that origin.
pub passes_origin_check_iff :
    (auth_public_origin : List ℕ) (r : OriginRequest)
    → r.is_http ≡ true
    → is_state_changing r.method ≡ true
    → bears_session r ≡ true
    → rstrip_slashes auth_public_origin ≢ []
    → (passes_origin_check auth_public_origin r ≡ true) ↔ (
        ((o : List ℕ) × (r.origin ≡ some o)
          × (rstrip_slashes o ≡ rstrip_slashes auth_public_origin))
        ⊎ ((r.origin ≡ none)
            × ((page : List ℕ) × (header_text r.referer
                  ≡ (rstrip_slashes auth_public_origin ++ (47 ∷ [])) ++ page))))
unfolding passes_origin_check is_permitted
passes_origin_check_iff auth_public_origin r http changes bears set =
    let allowed : List ℕ = rstrip_slashes auth_public_origin in
    let is_set : is_unset allowed ≡ false = nonempty allowed set in
    elim (Option-cases r.origin) [
      | inl n ↦
          rw (passes_origin_check, http, changes, bears, is_set, is_permitted, n)
            (
              λ h. inr (refl, (starts_with_iff (allowed ++ (47 ∷ [])) (header_text r.referer)).0 h),
              λ h. elim h [
                | inl (o, e, _) ↦ cc
                | inr (_, page) ↦
                    (starts_with_iff (allowed ++ (47 ∷ [])) (header_text r.referer)).1 page
              ],
            )
      | inr (o, e) ↦
          rw (passes_origin_check, http, changes, bears, is_set, is_permitted, e)
            (
              λ h. inl (o, refl, (text_eq_iff (rstrip_slashes o) allowed).0 h),
              λ h. elim h [
                | inl (o', f, q) ↦
                    (text_eq_iff (rstrip_slashes o) allowed).1
                      (ap rstrip_slashes (some-equal o o' f) ∙ q)
                | inr (n, _) ↦ cc
              ],
            )
    ]
  where
    nonempty : (s : List ℕ) → s ≢ [] → is_unset s ≡ false
    nonempty [] n = absurd (n refl)
    nonempty (c ∷ s) n = refl
