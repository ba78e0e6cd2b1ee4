-- ===== src/Sorting.antt =====
-- Python's `sorted`, and the order of its tuples and texts, over any Boolean order.
pub mod Laws
use testing_platform_backend.Prelude.{
  All, Bool, List, [], arith, false, if◌then◌else◌, leb, not, true, ℕ, ◌&&◌, ◌||◌, ◌∷◌, ◌≡◌, ◌⊎◌,
}

pub record TotalOrder {A : Type 0} (le : A → A → Bool) : Type 0 where
  pub total : (x y : A) → (le x y ≡ true) ⊎ (le y x ≡ true)
  pub transitive : (x y z : A) → le x y ≡ true → le y z ≡ true → le x z ≡ true
  pub antisymmetric : (x y : A) → le x y ≡ true → le y x ≡ true → x ≡ y

pub leb-TotalOrder : TotalOrder leb
leb-TotalOrder = record {
  total = λ x y. leb_total x y;
  transitive = λ x y z h k. ground arith;
  antisymmetric = λ x y h k. ground arith;
}
  where
    leb_total : (x y : ℕ) → (leb x y ≡ true) ⊎ (leb y x ≡ true)
    leb_total x y = ground arith

module _ {A : Type 0} (le : A → A → Bool) where
  -- the first place where two sequences differ decides; a prefix comes first
  abbrev pub lex_le : List A → List A → Bool
  lex_le [] ys = true
  lex_le (x ∷ xs) [] = false
  lex_le (x ∷ xs) (y ∷ ys) = le x y && (not (le y x) || lex_le xs ys)

  -- `sorted`: a stable sort
  abbrev pub insert_sorted : A → List A → List A
  insert_sorted x [] = x ∷ []
  insert_sorted x (y ∷ ys) = if le x y then x ∷ y ∷ ys else y ∷ insert_sorted x ys

  abbrev pub sorted : List A → List A
  sorted [] = []
  sorted (x ∷ xs) = insert_sorted x (sorted xs)

  -- every element is before all that follow
  abbrev pub IsSorted : List A → Type 0
  IsSorted [] = Unit
  IsSorted (x ∷ xs) = All (λ y. le x y ≡ true) xs × IsSorted xs
