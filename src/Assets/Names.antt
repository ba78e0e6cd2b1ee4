-- ===== src/Assets/Names.antt =====
-- `_labels` and `covers` of domains/assets/verification.py: names as lists of labels.
pub mod Coverage
use testing_platform_backend.Core.Enums.{VerificationScope, exact, zone}
use testing_platform_backend.Prelude.{
  Bool, List, [], any, false, if◌then◌else◌, length, suc, true, zero, ℕ, ◌&&◌, ◌-◌, ◌==◌, ◌∷◌,
}
use testing_platform_backend.Text.{lower, split, strip, text_eq}

abbrev pub is_empty : List ℕ → Bool
is_empty [] = true
is_empty (_ ∷ _) = false

-- `if cleaned.endswith("."): cleaned = cleaned[:-1]`
unfoldable pub drop_dot : List ℕ → List ℕ
drop_dot [] = []
drop_dot (c ∷ []) = if c == 46 then [] else c ∷ []
drop_dot (c ∷ d ∷ s) = c ∷ drop_dot (d ∷ s)

-- `_labels`
unfoldable pub labels : List ℕ → List (List ℕ)
unfolding drop_dot
labels name = elim (lower (drop_dot (strip name))) [
  | [] ↦ []
  | c ∷ s ↦ let parts = split 46 (c ∷ s) in if any is_empty parts then [] else parts
]

-- equality of two lists of labels
unfoldable pub same_labels : List (List ℕ) → List (List ℕ) → Bool
same_labels [] [] = true
same_labels (p ∷ ps) (q ∷ qs) = text_eq p q && same_labels ps qs
same_labels _ _ = false

unfoldable pub drop : ℕ → List (List ℕ) → List (List ℕ)
drop zero ps = ps
drop (suc n) [] = []
drop (suc n) (p ∷ ps) = drop n ps

-- `parts[-n:]` for a positive `n`: the whole list when it is shorter
unfoldable pub take_last : ℕ → List (List ℕ) → List (List ℕ)
unfolding drop
take_last n ps = drop (length ps - n) ps

-- the two arms, on labels of which neither list is empty
unfoldable pub labels_cover : VerificationScope → List (List ℕ) → List (List ℕ) → Bool
unfolding same_labels take_last
labels_cover exact proof target = same_labels proof target
labels_cover zone proof target = same_labels (take_last (length proof) target) proof

-- `covers`; the two scopes are all the members, so the `ValueError` cannot be raised
unfoldable pub covers : List ℕ → VerificationScope → List ℕ → Bool
unfolding labels labels_cover
covers proof_value proof_scope target = elim (labels proof_value) [
  | [] ↦ false
  | p ∷ ps ↦ elim (labels target) [
    | [] ↦ false
    | t ∷ ts ↦ labels_cover proof_scope (p ∷ ps) (t ∷ ts)
  ]
]
