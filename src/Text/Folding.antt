-- ===== src/Text/Folding.antt =====
-- Folding a text twice is folding it once.
use testing_platform_backend.Prelude.{
  Bool-cases, List, List-cases, [], ap, arith, false, if◌then◌else◌, inl, inr, refl, sym, ℕ, ◌∙◌,
  ◌∷◌, ◌≡◌,
}
use testing_platform_backend.Text.{is_space, lower, lower_char, strip, strip_left, strip_right}

lower_char_space : (c : ℕ) → is_space (lower_char c) ≡ is_space c
unfolding is_space lower_char
lower_char_space c = ground arith

lower_char_twice : (c : ℕ) → lower_char (lower_char c) ≡ lower_char c
unfolding lower_char
lower_char_twice c = ground arith

lower_twice : (s : List ℕ) → lower (lower s) ≡ lower s
unfolding lower
lower_twice [] = refl
lower_twice (c ∷ s) = rw (lower_char_twice c, lower_twice s) refl

strip_left-lower : (s : List ℕ) → strip_left (lower s) ≡ lower (strip_left s)
unfolding strip_left lower
strip_left-lower [] = refl
strip_left-lower (c ∷ s) = elim (Bool-cases (is_space c)) [
  | inl y ↦ rw (lower_char_space c, y) (strip_left-lower s)
  | inr n ↦ rw (lower_char_space c, n) refl
]

strip_right-lower : (s : List ℕ) → strip_right (lower s) ≡ lower (strip_right s)
unfolding strip_right lower
strip_right-lower [] = refl
strip_right-lower (c ∷ s) = elim (List-cases (strip_right s)) [
  | inl e ↦ elim (Bool-cases (is_space c)) [
    | inl y ↦ rw (strip_right-lower s, e, lower_char_space c, y) refl
    | inr n ↦ rw (strip_right-lower s, e, lower_char_space c, n) refl
  ]
  | inr (d, t, e) ↦ rw (strip_right-lower s, e) refl
]

-- The text is empty or begins with something else than white space.
abbrev Starts : List ℕ → Type 0
Starts [] = Unit
Starts (c ∷ s) = is_space c ≡ false

strip_left-Starts : (s : List ℕ) → Starts (strip_left s)
unfolding strip_left
strip_left-Starts [] = tt
strip_left-Starts (c ∷ s) = elim (Bool-cases (is_space c)) [
  | inl y ↦ rw y (strip_left-Starts s)
  | inr n ↦ rw n n
]

strip_left_same : (s : List ℕ) → Starts s → strip_left s ≡ s
unfolding strip_left
strip_left_same [] h = refl
strip_left_same (c ∷ s) h = rw h refl

strip_right-Starts : (s : List ℕ) → Starts s → Starts (strip_right s)
unfolding strip_right
strip_right-Starts [] h = tt
strip_right-Starts (c ∷ s) h = elim (List-cases (strip_right s)) [
  | inl e ↦ rw (e, h) h
  | inr (d, t, e) ↦ rw e h
]

strip_right_twice : (s : List ℕ) → strip_right (strip_right s) ≡ strip_right s
unfolding strip_right
strip_right_twice [] = refl
strip_right_twice (c ∷ s) = elim (List-cases (strip_right s)) [
  | inl e ↦ elim (Bool-cases (is_space c)) [
    | inl y ↦ rw (e, y) refl
    | inr n ↦ rw (e, n) (rw n refl)
  ]
  | inr (d, t, e) ↦
      let again : strip_right (d ∷ t) ≡ d ∷ t = sym (ap strip_right e) ∙ strip_right_twice s ∙ e in
      rw e (
        ap
          (λ (r : List ℕ). elim r as (λ _. List ℕ) [
            | [] ↦ if is_space c then [] else c ∷ []
            | x ∷ xs ↦ c ∷ x ∷ xs
          ])
          again)
]

strip-lower : (s : List ℕ) → strip (lower s) ≡ lower (strip s)
unfolding strip
strip-lower s = ap strip_right (strip_left-lower s) ∙ strip_right-lower (strip_left s)

strip_twice : (s : List ℕ) → strip (strip s) ≡ strip s
unfolding strip
strip_twice s =
    ap strip_right (
      strip_left_same (strip_right (strip_left s))
        (strip_right-Starts (strip_left s) (strip_left-Starts s)))
    ∙ strip_right_twice (strip_left s)

-- `_canonical` of a value that is canonical already
pub lower-strip_twice : (s : List ℕ) → lower (strip (lower (strip s))) ≡ lower (strip s)
lower-strip_twice s =
    ap lower (strip-lower (strip s)) ∙ lower_twice (strip (strip s)) ∙ ap lower (strip_twice s)
