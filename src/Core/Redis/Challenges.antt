-- ===== src/Core/Redis/Challenges.antt =====
-- A challenge is redeemed once, and only under the scope that it was issued for.
use testing_platform_backend.Core.Redis.{
  Entry, challenge_key, delete_entry, get_entry, has_key, is_hex_digit, is_live, is_nonce,
  issue_challenge, set_entry, verify_and_consume,
}
use testing_platform_backend.Modules.Namespaced.{codes}
use testing_platform_backend.Prelude.{
  ==_iff, Bool, Bool-cases, List, Option, Option-cases, [], all, ap, arith, false, find, inl, inr,
  keep, length, length-append, none, not, refl, some, subst, suc, sym, true, ℕ, ◌&&◌, ◌++◌, ◌==◌,
  ◌∙◌, ◌∷◌, ◌≡◌,
}
use testing_platform_backend.Text.{text_eq}
use testing_platform_backend.Text.Laws.{text_eq_iff}

append_split : (xs ys s t : List ℕ) → length s ≡ length t → xs ++ s ≡ ys ++ t → (xs ≡ ys) × (s ≡ t)
append_split [] [] s t l e = (refl, e)
append_split [] (y ∷ ys) s t l e =
    let longer : length s ≡ suc (length (ys ++ t)) = ap length e in
    absurd (omega (arith, longer, length-append ys t))
append_split (x ∷ xs) [] s t l e =
    let longer : suc (length (xs ++ s)) ≡ length t = ap length e in
    absurd (omega (arith, longer, length-append xs s))
append_split (x ∷ xs) (y ∷ ys) s t l e =
    let heads : x ≡ y = cc in
    let tails : xs ++ s ≡ ys ++ t = cc in
    let (a, b) = append_split xs ys s t l tails in (rw (heads, a) refl, b)

nonce_length : (s : List ℕ) → is_nonce s ≡ true → length s ≡ 32
unfolding is_nonce
nonce_length s h = (==_iff (length s) 32).0 (first (length s == 32) (all is_hex_digit s) h)
  where
    first : (a b : Bool) → (a && b) ≡ true → a ≡ true
    first a b q = ground arith

challenge_key_injective :
    (scope nonce scope' nonce' : List ℕ)
    → is_nonce nonce ≡ true
    → is_nonce nonce' ≡ true
    → challenge_key scope nonce ≡ challenge_key scope' nonce'
    → (scope ≡ scope') × (nonce ≡ nonce')
challenge_key_injective scope nonce scope' nonce' n n' e =
    let same : suc (length nonce) ≡ suc (length nonce') =
      ap suc (nonce_length nonce n ∙ sym (nonce_length nonce' n')) in
    let (_, rest) =
      append_split (codes "pow:") (codes "pow:") (scope ++ (58 ∷ nonce)) (scope' ++ (58 ∷ nonce'))
        (lengths same e) e in
    let (a, b) = append_split scope scope' (58 ∷ nonce) (58 ∷ nonce') same rest in (a, tails b)
  where
    lengths :
        suc (length nonce) ≡ suc (length nonce')
        → challenge_key scope nonce ≡ challenge_key scope' nonce'
        → length (scope ++ (58 ∷ nonce)) ≡ length (scope' ++ (58 ∷ nonce'))
    lengths s q = let all_of = ap length q in omega (arith, all_of)

    tails : ◌≡◌ {A = List ℕ} (58 ∷ nonce) (58 ∷ nonce') → nonce ≡ nonce'
    tails q = cc

find-keep_other :
    (key other : List ℕ) (now : ℕ) (store : List Entry)
    → text_eq key other ≡ false
    → find (is_live now other) (keep (λ e. not (has_key key e)) store)
      ≡ find (is_live now other) store
find-keep_other key other now [] n = refl
find-keep_other key other now (e ∷ store) n = elim (Bool-cases (text_eq e.key key)) [
  | inl y ↦
      let same : e.key ≡ key = (text_eq_iff e.key key).0 y in
      let foreign : text_eq e.key other ≡ false = rw same n in
      rw (y, foreign) (find-keep_other key other now store n)
  | inr x ↦ elim (Bool-cases (is_live now other e)) [
    | inl l ↦ rw (x, l) refl
    | inr l ↦ rw (x, l) (find-keep_other key other now store n)
  ]
]

find-keep_own :
    (key : List ℕ) (now : ℕ) (store : List Entry)
    → find (is_live now key) (keep (λ e. not (has_key key e)) store) ≡ none
find-keep_own key now [] = refl
find-keep_own key now (e ∷ store) = elim (Bool-cases (text_eq e.key key)) [
  | inl y ↦ rw y (find-keep_own key now store)
  | inr x ↦ rw (x, x) (find-keep_own key now store)
]

-- A challenge that can be redeemed once another one is issued, and could not be before, is that
-- other one: of the same scope and with the same nonce, whatever characters the scopes have.
pub verify_and_consume-issue_challenge :
    (scope nonce scope' nonce' : List ℕ) (difficulty ttl_seconds now now' found : ℕ)
    (store : List Entry)
    → is_nonce nonce ≡ true
    → (verify_and_consume scope' nonce' now' store).0 ≡ none
    → (verify_and_consume scope' nonce' now'
        (issue_challenge scope nonce difficulty ttl_seconds now store).1).0
      ≡ some found
    → (scope ≡ scope') × (nonce ≡ nonce')
unfolding verify_and_consume issue_challenge set_entry delete_entry get_entry
verify_and_consume-issue_challenge scope nonce scope' nonce' difficulty ttl_seconds now now' found
      store n before after =
    let k : List ℕ = challenge_key scope nonce in
    let k' : List ℕ = challenge_key scope' nonce' in
    elim (Bool-cases (is_nonce nonce')) [
      | inr m ↦
          let clash : ◌≡◌ {A = Option ℕ} none (some found) = rw (verify_and_consume, m) at after in
          cc
      | inl m ↦ elim (Bool-cases (text_eq k k')) [
        | inl y ↦ challenge_key_injective scope nonce scope' nonce' n m ((text_eq_iff k k').0 y)
        | inr x ↦ elim (Option-cases (find (is_live now' k') store)) [
          | inl none_before ↦
              let clash : ◌≡◌ {A = Option ℕ} none (some found) =
                rw (verify_and_consume, m, x, find-keep_other k k' now' store x, none_before) at
                  after in
              cc
          | inr (e, some_before) ↦
              let clash : ◌≡◌ {A = Option ℕ} (some e.value) none =
                rw (verify_and_consume, m, some_before) at before in
              cc
        ]
      ]
    ]

-- A challenge that was redeemed is refused afterwards, at every instant.
verify_and_consume-once :
    (scope nonce : List ℕ) (now now' difficulty : ℕ) (store after : List Entry)
    → verify_and_consume scope nonce now store ≡ (some difficulty, after)
    → verify_and_consume scope nonce now' after ≡ (none, after)
unfolding verify_and_consume delete_entry get_entry
verify_and_consume-once scope nonce now now' difficulty store after h =
    let k : List ℕ = challenge_key scope nonce in
    elim (Bool-cases (is_nonce nonce)) [
      | inr m ↦
          let e = ap (λ (w : Option ℕ × List Entry). w.0) (rw (verify_and_consume, m) at h) in cc
      | inl m ↦ elim (Option-cases (find (is_live now k) store)) [
        | inl n ↦
            let e = ap (λ (w : Option ℕ × List Entry). w.0) (rw (verify_and_consume, m, n) at h) in
            cc
        | inr (x, f) ↦
            let e = ap (λ (w : Option ℕ × List Entry). w.1) (rw (verify_and_consume, m, f) at h) in
            subst (λ t. verify_and_consume scope nonce now' t ≡ (none, t)) e
              (rw (verify_and_consume, m, find-keep_own k now' store) refl)
      ]
    ]
