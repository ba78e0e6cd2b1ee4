-- ===== src/Prelude/Tests.antt =====
-- Boolean tests, the conditional, the result of a call that may raise, and case splits that keep
-- their equation.
use Prim.Native.Nat.{ℕ, compare, Ordering}
use mathlib.Core.Path.{◌≡◌, refl}
use mathlib.Core.Logic.{◌↔◌, ◌⊎◌, inl, inr}
use mathlib.Core.Bool.{Bool, true, false}
use mathlib.Core.Option.{Option, none, some}
use native.Mathlib.Omega.{arith}

abbrev pub ltb : ℕ → ℕ → Bool
ltb a b = elim (compare a b) [ Ordering.lt ↦ true | _ ↦ false ]

abbrev pub leb : ℕ → ℕ → Bool
leb a b = elim (compare a b) [ Ordering.gt ↦ false | _ ↦ true ]

infix 50 ◌==◌
abbrev pub ◌==◌ : ℕ → ℕ → Bool
a == b = elim (compare a b) [ Ordering.eq ↦ true | _ ↦ false ]

infix 1 if◌then◌else◌
abbrev pub if◌then◌else◌ {ℓ} : {A : Type ℓ} → Bool → A → A → A
if true then x else y = x
if false then x else y = y

pub ==_refl : (a : ℕ) → (a == a) ≡ true
==_refl a = ground arith

pub ==_iff : (a b : ℕ) → ((a == b) ≡ true) ↔ (a ≡ b)
==_iff a b = ground arith

pub Bool-cases : (b : Bool) → (b ≡ true) ⊎ (b ≡ false)
Bool-cases true = inl refl
Bool-cases false = inr refl

pub Option-cases {ℓ} : {A : Type ℓ} (o : Option A) → (o ≡ none) ⊎ ((a : A) × (o ≡ some a))
Option-cases none = inl refl
Option-cases (some a) = inr (a, refl)

pub some-equal : {A : Type 0} (x y : A) → ◌≡◌ {A = Option A} (some x) (some y) → x ≡ y
some-equal x y h = cc

pub false≢true : ¬ (false ≡ true)
false≢true h = cc

-- `x is not None`
abbrev pub is_some {ℓ} : {A : Type ℓ} → Option A → Bool
is_some none = false
is_some (some _) = true

-- `x or y` on an optional value whose present values are all truthy
abbrev pub or_else {ℓ} : {A : Type ℓ} → Option A → A → A
or_else none d = d
or_else (some a) _ = a

-- Equality of two optional numbers, as Python's `==` and SQL's `=` where both are present.
abbrev pub same_option : Option ℕ → Option ℕ → Bool
same_option none none = true
same_option (some a) (some b) = a == b
same_option _ _ = false

-- What a call that may raise returns.
pub data Result {ℓ} (E A : Type ℓ) : Type ℓ where
  err : E → Result E A
  ok : A → Result E A

infixl 5 ◌>>=◌ ◌>>◌
-- the call, then the code after it, which an exception skips
abbrev pub ◌>>=◌ {ℓ} : {E A B : Type ℓ} → Result E A → (A → Result E B) → Result E B
call >>= after = elim call [ err x ↦ err x | ok v ↦ after v ]

abbrev pub ◌>>◌ : {E B : Type 0} → Result E (Unit {0}) → Result E B → Result E B
call >> after = elim call [ err x ↦ err x | ok _ ↦ after ]

-- `if not b: raise e`
abbrev pub require : {E : Type 0} → Bool → E → Result E (Unit {0})
require passes e = if passes then ok tt else err e

module _ {ℓ} {E A : Type ℓ} where
  pub Result-cases : (m : Result E A) → ((e : E) × (m ≡ err e)) ⊎ ((a : A) × (m ≡ ok a))
  Result-cases (err e) = inl (e, refl)
  Result-cases (ok a) = inr (a, refl)

  pub ok-injective : {x y : A} → ◌≡◌ {A = Result E A} (ok x) (ok y) → x ≡ y
  ok-injective h = cc

  -- When the whole raised nothing, neither did the call nor the code after it.
  pub >>=-ok :
      {B : Type ℓ} {w : B} (call : Result E A) (after : A → Result E B)
      → (call >>= after) ≡ ok w
      → (v : A) × (call ≡ ok v) × (after v ≡ ok w)
  >>=-ok {B = B} {w = w} call after h = elim (Result-cases call) [
    | inl (e, raised) ↦ let clash : ◌≡◌ {A = Result E B} (err e) (ok w) = rw raised at h in cc
    | inr (v, returned) ↦ (v, returned, rw returned at h)
  ]

pub require-ok :
    {E B : Type 0} {w : B} (passes : Bool) (e : E) (after : Result E B)
    → (require passes e >> after) ≡ ok w
    → (passes ≡ true) × (after ≡ ok w)
require-ok {E = E} {B = B} {w = w} passes e after h = elim (Bool-cases passes) [
  | inl y ↦ (y, rw y at h)
  | inr n ↦ let clash : ◌≡◌ {A = Result E B} (err e) (ok w) = rw n at h in cc
]
