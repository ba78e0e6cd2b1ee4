-- ===== src/Sorting/Laws.antt =====
-- The lexicographic order is total, and sorting by a total order gives one result for all the
-- arrangements of the input.
use mathlib.Core.List.{Permᴰ}
use mathlib.Core.List.Permᴰ
use testing_platform_backend.Prelude.{
  All, All-map, Bool, Bool-cases, List, [], ap, arith, inl, inr, map, refl, true, ◌∙◌, ◌∷◌, ◌≡◌,
  ◌⊎◌,
}
use testing_platform_backend.Sorting.{IsSorted, TotalOrder, insert_sorted, lex_le, sorted}

module _ {A : Type 0} (le : A → A → Bool) (o : TotalOrder le) where
  lex_total : (xs ys : List A) → (lex_le le xs ys ≡ true) ⊎ (lex_le le ys xs ≡ true)
  lex_total [] ys = inl refl
  lex_total (x ∷ xs) [] = inr refl
  lex_total (x ∷ xs) (y ∷ ys) = ground (arith, lex_total xs ys, o.total x y)

  lex_transitive :
      (xs ys zs : List A) → lex_le le xs ys ≡ true → lex_le le ys zs ≡ true → lex_le le xs zs ≡ true
  lex_transitive [] ys zs h k = refl
  lex_transitive (x ∷ xs) [] zs h k = cc
  lex_transitive (x ∷ xs) (y ∷ ys) [] h k = cc
  lex_transitive (x ∷ xs) (y ∷ ys) (z ∷ zs) h k =
      ground
        (arith, lex_transitive xs ys zs, o.transitive x y z, o.transitive z x y, o.transitive y z x)

  lex_antisymmetric : (xs ys : List A) → lex_le le xs ys ≡ true → lex_le le ys xs ≡ true → xs ≡ ys
  lex_antisymmetric [] [] h k = refl
  lex_antisymmetric [] (y ∷ ys) h k = cc
  lex_antisymmetric (x ∷ xs) [] h k = cc
  lex_antisymmetric (x ∷ xs) (y ∷ ys) h k =
      ground (arith, lex_antisymmetric xs ys, o.antisymmetric x y)

  pub lex-TotalOrder : TotalOrder (lex_le le)
  lex-TotalOrder = record {
    total = lex_total;
    transitive = lex_transitive;
    antisymmetric = lex_antisymmetric;
  }

  insert_comm :
      (x y : A) (l : List A)
      → insert_sorted le x (insert_sorted le y l) ≡ insert_sorted le y (insert_sorted le x l)
  insert_comm x y [] = ground (arith, o.total x y, o.antisymmetric x y)
  insert_comm x y (z ∷ l) = ground (
    arith,
    insert_comm x y l,
    o.total x y,
    o.antisymmetric x y,
    o.transitive x y z,
    o.transitive y x z,
    o.total x z,
    o.total y z,
  )

  pub sorted-permᴰ : {xs ys : List A} → Permᴰ xs ys → sorted le xs ≡ sorted le ys
  sorted-permᴰ Permᴰ.nil = refl
  sorted-permᴰ (Permᴰ.cons e q) = rw e (rw (sorted-permᴰ q))
  sorted-permᴰ (Permᴰ.swap {a = x} {b = y} {l = l} e f) =
      rw e (rw f (insert_comm _ _ (sorted le l)))
  sorted-permᴰ (Permᴰ.trans q r) = sorted-permᴰ q ∙ sorted-permᴰ r

  All-insert : (P : A → Type 0) (x : A) (l : List A) → P x → All P l → All P (insert_sorted le x l)
  All-insert P x [] p h = (p, tt)
  All-insert P x (y ∷ l) p h = elim (Bool-cases (le x y)) [
    | inl e ↦ rw e (p, h)
    | inr e ↦ rw e (h.0, All-insert P x l p h.1)
  ]

  insert-IsSorted : (x : A) (l : List A) → IsSorted le l → IsSorted le (insert_sorted le x l)
  insert-IsSorted x [] s = (tt, tt)
  insert-IsSorted x (y ∷ l) s = elim (Bool-cases (le x y)) [
    | inl e ↦ rw e (
      (e, All-map (λ z. le y z ≡ true) (λ z. le x z ≡ true) l (λ z. o.transitive x y z e) s.0),
      s,
    )
    | inr e ↦ rw e (
      All-insert (λ z. le y z ≡ true) x l (ground (arith, o.total x y)) s.0,
      insert-IsSorted x l s.1,
    )
  ]

  pub sorted-IsSorted : (xs : List A) → IsSorted le (sorted le xs)
  sorted-IsSorted [] = tt
  sorted-IsSorted (x ∷ xs) = insert-IsSorted x (sorted le xs) (sorted-IsSorted xs)

module _ {A : Type 0} (le : A → A → Bool) where
  insert-permᴰ : (x : A) (l : List A) → Permᴰ (insert_sorted le x l) (x ∷ l)
  insert-permᴰ x [] = Permᴰ.cons refl Permᴰ.nil
  insert-permᴰ x (y ∷ l) = elim (Bool-cases (le x y)) [
    | inl e ↦ rw e (Permᴰ.refl _)
    | inr e ↦ rw e (Permᴰ.trans (Permᴰ.cons refl (insert-permᴰ x l)) (Permᴰ.swap refl refl))
  ]

  pub sorted-permutes : (xs : List A) → Permᴰ (sorted le xs) xs
  sorted-permutes [] = Permᴰ.nil
  sorted-permutes (x ∷ xs) =
      Permᴰ.trans (insert-permᴰ x (sorted le xs)) (Permᴰ.cons refl (sorted-permutes xs))

pub map-permᴰ :
    {A K : Type 0} (key : A → K) {xs ys : List A} → Permᴰ xs ys → Permᴰ (map key xs) (map key ys)
map-permᴰ key Permᴰ.nil = Permᴰ.nil
map-permᴰ key (Permᴰ.cons e q) = Permᴰ.cons (ap key e) (map-permᴰ key q)
map-permᴰ key (Permᴰ.swap e f) = Permᴰ.swap (ap key e) (ap key f)
map-permᴰ key (Permᴰ.trans q r) = Permᴰ.trans (map-permᴰ key q) (map-permᴰ key r)

-- Sorting by a key, seen through the key.
module _ {A K : Type 0} (le : K → K → Bool) (key : A → K) where
  abbrev by_key : A → A → Bool
  by_key x y = le (key x) (key y)

  map-insert :
      (x : A) (l : List A)
      → map key (insert_sorted by_key x l) ≡ insert_sorted le (key x) (map key l)
  map-insert x [] = refl
  map-insert x (y ∷ l) = ground (arith, map-insert x l)

  pub map-sorted : (xs : List A) → map key (sorted by_key xs) ≡ sorted le (map key xs)
  map-sorted [] = refl
  map-sorted (x ∷ xs) =
      map-insert x (sorted by_key xs) ∙ ap (insert_sorted le (key x)) (map-sorted xs)
