-- ===== src/Prelude/Lists.antt =====
-- Lists measured by native numbers, the comprehensions of the source and predicates by recursion.
use Prim.Native.Nat.{ℕ, suc, ◌+◌, ◌≤◌}
use mathlib.Core.Path.{◌≡◌, refl}
use mathlib.Core.Bool.{Bool, true, false, ◌&&◌, ◌||◌}
use mathlib.Core.Logic.{◌≢◌, ◌⊎◌, inl, inr}
use mathlib.Core.List.{List, [], ◌∷◌, ◌++◌}
use native.Mathlib.Omega.{arith}
use testing_platform_backend.Prelude.Tests.{Bool-cases, if◌then◌else◌}

module _ {ℓ} {A : Type ℓ} where
  abbrev pub length : List A → ℕ
  length [] = 0
  length (x ∷ xs) = suc (length xs)

  pub List-cases : (xs : List A) → (xs ≡ []) ⊎ ((y : A) × (ys : List A) × (xs ≡ y ∷ ys))
  List-cases [] = inl refl
  List-cases (y ∷ ys) = inr (y, ys, refl)

  pub cons≢nil : (x : A) (xs : List A) → x ∷ xs ≢ []
  cons≢nil x xs e = cc

  -- `any(p(x) for x in xs)`
  abbrev pub any : (A → Bool) → List A → Bool
  any p [] = false
  any p (x ∷ xs) = p x || any p xs

  -- `all(p(x) for x in xs)`
  abbrev pub all : (A → Bool) → List A → Bool
  all p [] = true
  all p (x ∷ xs) = p x && all p xs

  -- `sum(1 for x in xs if p(x))`
  abbrev pub count : (A → Bool) → List A → ℕ
  count p [] = 0
  count p (x ∷ xs) = let rest = count p xs in if p x then suc rest else rest

  -- `[x for x in xs if p(x)]`
  abbrev pub keep : (A → Bool) → List A → List A
  keep p [] = []
  keep p (x ∷ xs) = let rest = keep p xs in if p x then x ∷ rest else rest

  abbrev pub All {κ} : (A → Type κ) → List A → Type κ
  All P (y ∷ ys) = P y × All P ys
  All P [] = Unit

  pub All-append {κ} :
      (Q : A → Type κ) (front back : List A) → All Q front → All Q back → All Q (front ++ back)
  All-append Q (y ∷ front) back (first, rest) h = (first, All-append Q front back rest h)
  All-append Q [] back _ h = h

  pub length-append : (xs ys : List A) → length (xs ++ ys) ≡ length xs + length ys
  length-append [] ys = omega arith
  length-append (x ∷ xs) ys = omega (arith, length-append xs ys)

  pub count-le-length : (p : A → Bool) (xs : List A) → count p xs ≤ length xs
  count-le-length p [] = omega arith
  count-le-length p (x ∷ xs) = ground (arith, count-le-length p xs)

  pub keep-append : (p : A → Bool) (xs ys : List A) → keep p (xs ++ ys) ≡ keep p xs ++ keep p ys
  keep-append p [] ys = refl
  keep-append p (x ∷ xs) ys = ground (arith, keep-append p xs ys)

  pub All-map {κ μ} :
      (P : A → Type κ) (Q : A → Type μ) (xs : List A) → ((x : A) → P x → Q x) → All P xs → All Q xs
  All-map P Q [] f h = tt
  All-map P Q (x ∷ xs) f h = (f x h.0, All-map P Q xs f h.1)

module _ {A : Type 0} where
  pub All-both :
      (P Q R : A → Type 0) (xs : List A)
      → ((x : A) → P x → Q x → R x)
      → All P xs
      → All Q xs
      → All R xs
  All-both P Q R [] f h k = tt
  All-both P Q R (x ∷ xs) f h k = (f x h.0 k.0, All-both P Q R xs f h.1 k.1)

-- Two lists of one length, related position by position.
module _ {A B : Type 0} (R : A → B → Type 0) where
  abbrev pub All2 : List A → List B → Type 0
  All2 [] [] = Unit
  All2 [] (y ∷ ys) = ⊥
  All2 (x ∷ xs) [] = ⊥
  All2 (x ∷ xs) (y ∷ ys) = R x y × All2 xs ys

  pub All2-append :
      (xs xs' : List A) (ys ys' : List B) → All2 xs ys → All2 xs' ys' → All2 (xs ++ xs') (ys ++ ys')
  All2-append [] xs' [] ys' h k = k
  All2-append [] xs' (y ∷ ys) ys' h k = absurd h
  All2-append (x ∷ xs) xs' [] ys' h k = absurd h
  All2-append (x ∷ xs) xs' (y ∷ ys) ys' h k = (h.0, All2-append xs xs' ys ys' h.1 k)

  pub All2-All :
      (P : A → Type 0) (Q : B → Type 0) (xs : List A) (ys : List B)
      → ((x : A) (y : B) → P x → R x y → Q y)
      → All P xs
      → All2 xs ys
      → All Q ys
  All2-All P Q [] [] f h k = tt
  All2-All P Q [] (y ∷ ys) f h k = absurd k
  All2-All P Q (x ∷ xs) [] f h k = absurd k
  All2-All P Q (x ∷ xs) (y ∷ ys) f h k = (f x y h.0 k.0, All2-All P Q xs ys f h.1 k.1)

module _ {ℓ} {A : Type ℓ} where
  -- Some element satisfies `P`.
  abbrev pub Some : (A → Type 0) → List A → Type 0
  Some P [] = ⊥
  Some P (x ∷ xs) = P x ⊎ Some P xs

  pub Some-map : (P Q : A → Type 0) (xs : List A) → ((x : A) → P x → Q x) → Some P xs → Some Q xs
  Some-map P Q [] f h = h
  Some-map P Q (x ∷ xs) f (inl h) = inl (f x h)
  Some-map P Q (x ∷ xs) f (inr h) = inr (Some-map P Q xs f h)

module _ {A : Type 0} (p : A → Bool) where
  pub all-All : (xs : List A) → all p xs ≡ true → All (λ x. p x ≡ true) xs
  all-All [] h = tt
  all-All (x ∷ xs) h = (ground arith, all-All xs (ground arith))

  pub All-all : (xs : List A) → All (λ x. p x ≡ true) xs → all p xs ≡ true
  All-all [] h = refl
  All-all (x ∷ xs) h = ground (arith, All-all xs h.1)

  pub any-Some : (xs : List A) → any p xs ≡ true → Some (λ x. p x ≡ true) xs
  any-Some [] h = cc
  any-Some (x ∷ xs) h = elim (Bool-cases (p x)) [
    | inl y ↦ inl y
    | inr n ↦ inr (any-Some xs (ground arith))
  ]

  pub Some-any : (xs : List A) → Some (λ x. p x ≡ true) xs → any p xs ≡ true
  Some-any [] h = absurd h
  Some-any (x ∷ xs) (inl h) = ground arith
  Some-any (x ∷ xs) (inr h) = ground (arith, Some-any xs h)

  pub not_any-All : (xs : List A) → any p xs ≡ false → All (λ x. p x ≡ false) xs
  not_any-All [] h = tt
  not_any-All (x ∷ xs) h = (ground arith, not_any-All xs (ground arith))

  pub All-not_any : (xs : List A) → All (λ x. p x ≡ false) xs → any p xs ≡ false
  All-not_any [] h = refl
  All-not_any (x ∷ xs) h = ground (arith, All-not_any xs h.1)

  pub count_full : (xs : List A) → count p xs ≡ length xs → All (λ x. p x ≡ true) xs
  count_full [] h = tt
  count_full (x ∷ xs) h =
      (ground (arith, count-le-length p xs), count_full xs (ground (arith, count-le-length p xs)))

  pub count_not_full : (xs : List A) → count p xs ≢ length xs → Some (λ x. p x ≡ false) xs
  count_not_full [] h = absurd (h refl)
  count_not_full (x ∷ xs) h = elim (Bool-cases (p x)) [
    | inl y ↦ inr (count_not_full xs (ground arith))
    | inr n ↦ inl n
  ]

  pub count_pos : (xs : List A) → count p xs ≢ 0 → Some (λ x. p x ≡ true) xs
  count_pos [] h = absurd (h refl)
  count_pos (x ∷ xs) h = elim (Bool-cases (p x)) [
    | inl y ↦ inl y
    | inr n ↦ inr (count_pos xs (ground arith))
  ]

  pub count_zero : (xs : List A) → count p xs ≡ 0 → All (λ x. p x ≡ false) xs
  count_zero [] h = tt
  count_zero (x ∷ xs) h = (ground arith, count_zero xs (ground arith))
