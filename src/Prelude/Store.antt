-- ===== src/Prelude/Store.antt =====
-- A table as a list of rows: the row a query selects, and the update of that row.
use mathlib.Core.Path.{◌≡◌, subst, refl, ◌∙◌}
use mathlib.Core.Logic.{inl, inr}
use mathlib.Core.Bool.{Bool, true, false}
use mathlib.Core.Option.{Option, none, some}
use mathlib.Core.List.{List, [], ◌∷◌, ◌++◌}
use native.Mathlib.Omega.{arith}
use testing_platform_backend.Prelude.Tests.{Bool-cases, if◌then◌else◌}
use testing_platform_backend.Prelude.Lists.{All, any}

module _ {ℓ} {A : Type ℓ} where
  -- `SELECT … WHERE p` of at most one row
  abbrev pub find : (A → Bool) → List A → Option A
  find p [] = none
  find p (x ∷ xs) = if p x then some x else find p xs

  -- the write of the row that `find` selects
  abbrev pub modify : (A → Bool) → (A → A) → List A → List A
  modify p f [] = []
  modify p f (x ∷ xs) = if p x then f x ∷ xs else x ∷ modify p f xs

  -- `UPDATE … WHERE p`
  abbrev pub modify_all : (A → Bool) → (A → A) → List A → List A
  modify_all p f [] = []
  modify_all p f (x ∷ xs) = (if p x then f x else x) ∷ modify_all p f xs

  pub find_holds : (p : A → Bool) (xs : List A) {a : A} → find p xs ≡ some a → p a ≡ true
  find_holds p [] h = cc
  find_holds p (x ∷ xs) {a} h = ground (arith, find_holds p xs {a = a})

  pub All-find {κ} :
      (P : A → Type κ) (p : A → Bool) (xs : List A) {a : A} → All P xs → find p xs ≡ some a → P a
  All-find P p [] h e = cc
  All-find P p (x ∷ xs) {a} h e = elim (Bool-cases (p x)) [
    | inl y ↦ let q : x ≡ a = ground arith in subst P q h.0
    | inr n ↦ All-find P p xs h.1 (rw n at e)
  ]

  -- An invariant of every row survives the write of a row that keeps it.
  pub All-modify {κ} :
      (P : A → Type κ) (p : A → Bool) (f : A → A) (xs : List A)
      → All P xs
      → ((a : A) → find p xs ≡ some a → P a → P (f a))
      → All P (modify p f xs)
  All-modify P p f [] h k = h
  All-modify P p f (x ∷ xs) h k = elim (Bool-cases (p x)) [
    | inl y ↦ rw y (k x (rw y) h.0, h.1)
    | inr n ↦ rw n (h.0, All-modify P p f xs h.1 (λ a e. k a (rw n e)))
  ]

  pub All-modify_all {κ} :
      (P : A → Type κ) (p : A → Bool) (f : A → A) (xs : List A)
      → All P xs
      → ((a : A) → p a ≡ true → P a → P (f a))
      → All P (modify_all p f xs)
  All-modify_all P p f [] h k = h
  All-modify_all P p f (x ∷ xs) h k = elim (Bool-cases (p x)) [
    | inl y ↦ rw y (k x y h.0, All-modify_all P p f xs h.1 k)
    | inr n ↦ rw n (h.0, All-modify_all P p f xs h.1 k)
  ]

  pub find-modify :
      (p : A → Bool) (f : A → A) (xs : List A) {a : A}
      → find p xs ≡ some a
      → p (f a) ≡ true
      → find p (modify p f xs) ≡ some (f a)
  find-modify p f [] e h = cc
  find-modify p f (x ∷ xs) {a} e h = elim (Bool-cases (p x)) [
    | inl y ↦ let q : x ≡ a = ground arith in ground arith
    | inr n ↦ rw n (rw n (find-modify p f xs (rw n at e) h))
  ]

  -- An update that keeps what a query selects by changes the selected row, or leaves it alone.
  pub find-modify_all :
      (p q : A → Bool) (f : A → A) (xs : List A) {a : A}
      → ((x : A) → p (f x) ≡ p x)
      → find p xs ≡ some a
      → find p (modify_all q f xs) ≡ some (if q a then f a else a)
  find-modify_all p q f [] k e = cc
  find-modify_all p q f (x ∷ xs) {a} k e = elim (Bool-cases (p x)) [
    | inl y ↦
        let same : x ≡ a = ground arith in
        elim (Bool-cases (q x)) [
          | inl w ↦ let first : p (f x) ≡ true = k x ∙ y in rw (w, first) (rw (← same, w) refl)
          | inr w ↦ rw (w, y) (rw (← same, w) refl)
        ]
    | inr n ↦
        let rest : find p (modify_all q f xs) ≡ some (if q a then f a else a) =
          find-modify_all p q f xs k (rw n at e) in
        elim (Bool-cases (q x)) [
          | inl w ↦ let skip : p (f x) ≡ false = k x ∙ n in rw (w, skip) rest
          | inr w ↦ rw (w, n) rest
        ]
  ]

-- A search that no earlier row satisfies is a search among the later rows.
pub find-append_none :
    {A : Type 0} (p : A → Bool) (xs ys : List A) → any p xs ≡ false → find p (xs ++ ys) ≡ find p ys
find-append_none p [] ys h = refl
find-append_none p (x ∷ xs) ys h =
    let first : p x ≡ false = ground arith in
    let rest : any p xs ≡ false = ground arith in rw first (find-append_none p xs ys rest)
