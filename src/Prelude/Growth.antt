-- ===== src/Prelude/Growth.antt =====
-- Two states of a table: each old row against what it became, and the rows added behind them.
use mathlib.Core.Path.{◌≡◌, subst}
use mathlib.Core.Logic.{inl, inr}
use mathlib.Core.Bool.{Bool}
use mathlib.Core.Option.{some}
use mathlib.Core.List.{List, [], ◌∷◌, ◌++◌}
use native.Mathlib.Omega.{arith}
use testing_platform_backend.Prelude.Tests.{Bool-cases}
use testing_platform_backend.Prelude.Lists.{All, Some}
use testing_platform_backend.Prelude.Store.{find, modify}

module _ {A : Type 0} (R : A → A → Type 0) (New : A → Type 0) where
  abbrev pub Grows : List A → List A → Type 0
  Grows [] ys = All New ys
  Grows (x ∷ xs) [] = ⊥
  Grows (x ∷ xs) (y ∷ ys) = R x y × Grows xs ys

  pub Grows-refl : ((a : A) → R a a) → (xs : List A) → Grows xs xs
  Grows-refl r [] = tt
  Grows-refl r (x ∷ xs) = (r x, Grows-refl r xs)

  pub Grows-append : ((a : A) → R a a) → (xs ys : List A) → All New ys → Grows xs (xs ++ ys)
  Grows-append r [] ys h = h
  Grows-append r (x ∷ xs) ys h = (r x, Grows-append r xs ys h)

  New-along :
      ((a b : A) → New a → R a b → New b) → (xs ys : List A) → All New xs → Grows xs ys → All New ys
  New-along k [] ys h g = g
  New-along k (x ∷ xs) [] h g = absurd g
  New-along k (x ∷ xs) (y ∷ ys) h g = (k x y h.0 g.0, New-along k xs ys h.1 g.1)

  pub Grows-trans :
      ((a b c : A) → R a b → R b c → R a c)
      → ((a b : A) → New a → R a b → New b)
      → (xs ys zs : List A) → Grows xs ys
      → Grows ys zs
      → Grows xs zs
  Grows-trans t k [] ys zs g h = New-along k ys zs g h
  Grows-trans t k (x ∷ xs) [] zs g h = absurd g
  Grows-trans t k (x ∷ xs) (y ∷ ys) [] g h = absurd h
  Grows-trans t k (x ∷ xs) (y ∷ ys) (z ∷ zs) g h =
      (t x y z g.0 h.0, Grows-trans t k xs ys zs g.1 h.1)

  -- the write of one row
  pub Grows-modify :
      ((a : A) → R a a)
      → (p : A → Bool) (f : A → A) (xs : List A) → ((a : A) → find p xs ≡ some a → R a (f a))
      → Grows xs (modify p f xs)
  Grows-modify r p f [] k = tt
  Grows-modify r p f (x ∷ xs) k = elim (Bool-cases (p x)) [
    | inl y ↦ rw y (k x (rw y), Grows-refl r xs)
    | inr n ↦ rw n (r x, Grows-modify r p f xs (λ a e. k a (rw n e)))
  ]

  -- A row that nothing may change is still what the query for it finds.
  pub find-Grows :
      (p : A → Bool) (xs ys : List A) {a : A}
      → ((u v : A) → R u v → p v ≡ p u)
      → Grows xs ys
      → find p xs ≡ some a
      → (b : A) × (find p ys ≡ some b) × R a b
  find-Grows p [] ys k g e = cc
  find-Grows p (x ∷ xs) [] k g e = absurd g
  find-Grows p (x ∷ xs) (y ∷ ys) {a} k g e = elim (Bool-cases (p x)) [
    | inl h ↦ let q : x ≡ a = ground arith in (y, rw (k x y g.0) (rw h), subst (λ u. R u y) q g.0)
    | inr n ↦
        let (b, f, r) = find-Grows p xs ys {a = a} k g.1 (rw n at e) in
        (b, rw (k x y g.0) (rw n f), r)
  ]

  pub All-Grows :
      (P : A → Type 0)
      → ((a b : A) → P a → R a b → P b)
      → ((a : A) → New a → P a)
      → (xs ys : List A) → All P xs
      → Grows xs ys
      → All P ys
  All-Grows P k n [] [] h g = tt
  All-Grows P k n [] (y ∷ ys) h g = (n y g.0, All-Grows P k n [] ys tt g.1)
  All-Grows P k n (x ∷ xs) [] h g = absurd g
  All-Grows P k n (x ∷ xs) (y ∷ ys) h g = (k x y h.0 g.0, All-Grows P k n xs ys h.1 g.1)

module _ {A : Type 0} (R : A → A → Type 0) (New P : A → Type 0) where
  -- what some row says stays said, as long as its row keeps it
  pub Some-Grows :
      ((a b : A) → P a → R a b → P b) → (xs ys : List A) → Some P xs → Grows R New xs ys → Some P ys
  Some-Grows k [] ys h g = absurd h
  Some-Grows k (x ∷ xs) [] h g = absurd g
  Some-Grows k (x ∷ xs) (y ∷ ys) (inl h) g = inl (k x y h g.0)
  Some-Grows k (x ∷ xs) (y ∷ ys) (inr h) g = inr (Some-Grows k xs ys h g.1)

pub Some-modify :
    {A : Type 0} (P : A → Type 0) (p : A → Bool) (f : A → A) (xs : List A) {a : A}
    → find p xs ≡ some a
    → P (f a)
    → Some P (modify p f xs)
Some-modify P p f [] e h = cc
Some-modify P p f (x ∷ xs) {a} e h = elim (Bool-cases (p x)) [
  | inl y ↦ let q : x ≡ a = ground arith in rw y (inl (rw q h))
  | inr n ↦ rw n (inr (Some-modify P p f xs (rw n at e) h))
]
