-- ===== src/Prelude/Perms.antt =====
-- What a permutation of a list does not change.
use mathlib.Core.Path.{◌≡◌, refl, ◌∙◌}
use mathlib.Core.Bool.{Bool}
use mathlib.Core.List.{List, Permᴰ}
use native.Mathlib.Omega.{arith}
use testing_platform_backend.Prelude.Lists.{length, any, count}

module _ {A : Type 0} where
  pub length-perm : {xs ys : List A} → Permᴰ xs ys → length xs ≡ length ys
  length-perm Permᴰ.nil = refl
  length-perm (Permᴰ.cons e q) = omega (arith, length-perm q)
  length-perm (Permᴰ.swap e f) = refl
  length-perm (Permᴰ.trans q r) = length-perm q ∙ length-perm r

  pub any-perm : (p : A → Bool) {xs ys : List A} → Permᴰ xs ys → any p xs ≡ any p ys
  any-perm p Permᴰ.nil = refl
  any-perm p (Permᴰ.cons e q) = rw e (rw (any-perm p q))
  any-perm p (Permᴰ.swap e f) = rw e (rw f (ground arith))
  any-perm p (Permᴰ.trans q r) = any-perm p q ∙ any-perm p r

  pub count-perm : (p : A → Bool) {xs ys : List A} → Permᴰ xs ys → count p xs ≡ count p ys
  count-perm p Permᴰ.nil = refl
  count-perm p (Permᴰ.cons e q) = rw e (rw (count-perm p q))
  count-perm p (Permᴰ.swap e f) = rw e (rw f (ground arith))
  count-perm p (Permᴰ.trans q r) = count-perm p q ∙ count-perm p r
