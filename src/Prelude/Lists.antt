-- ===== src/Prelude/Lists.antt =====
-- Lists measured by native numbers, tests over lists, and the chain of optional results.
use Prim.Native.Nat.{ℕ, suc, ◌+◌, ◌≤◌}
use mathlib.Core.Path.{◌≡◌, refl}
use mathlib.Core.Bool.{Bool, true, false, ◌&&◌, ◌||◌}
use mathlib.Core.List.{List, [], ◌∷◌, ◌++◌}
use mathlib.Core.Option.{Option, none, some}
use native.Mathlib.Omega.{arith}
use yip_yap_foss.Prelude.Tests.{if◌then◌else◌}

module _ {ℓ} {A : Type ℓ} where
  abbrev pub length : List A → ℕ
  length [] = 0
  length (x ∷ xs) = suc (length xs)

  abbrev pub any : (A → Bool) → List A → Bool
  any p [] = false
  any p (x ∷ xs) = p x || any p xs

  abbrev pub all : (A → Bool) → List A → Bool
  all p [] = true
  all p (x ∷ xs) = p x && all p xs

  -- The elements that pass a Boolean test, in order.
  abbrev pub keep : (A → Bool) → List A → List A
  keep p [] = []
  keep p (x ∷ xs) = if p x then x ∷ keep p xs else keep p xs

  -- The first element that passes a Boolean test.
  abbrev pub first : (A → Bool) → List A → Option A
  first p [] = none
  first p (x ∷ xs) = if p x then some x else first p xs

  -- How many elements pass a Boolean test.
  abbrev pub count_if : (A → Bool) → List A → ℕ
  count_if p [] = 0
  count_if p (x ∷ xs) = (if p x then 1 else 0) + count_if p xs

  abbrev pub All {κ} : (A → Type κ) → List A → Type κ
  All P [] = Unit
  All P (x ∷ xs) = P x × All P xs

  pub length-append : (xs ys : List A) → length (xs ++ ys) ≡ length xs + length ys
  length-append [] ys = omega arith
  length-append (x ∷ xs) ys = omega (arith, length-append xs ys)

module _ {ℓ} {A : Type ℓ} where
  pub any-first : (p : A → Bool) (xs : List A) (x : A) → first p xs ≡ some x → any p xs ≡ true
  any-first p [] x e = cc
  any-first p (y ∷ ys) x e = ground (arith, any-first p ys x)

  pub first_holds : (p : A → Bool) (xs : List A) (x : A) → first p xs ≡ some x → p x ≡ true
  first_holds p [] x e = cc
  first_holds p (y ∷ ys) x e = ground (arith, first_holds p ys x)

  pub first-any-false : (p : A → Bool) (xs : List A) → any p xs ≡ false → first p xs ≡ none
  first-any-false p [] e = refl
  first-any-false p (y ∷ ys) e = ground (arith, first-any-false p ys)

  pub length-keep-le : (p : A → Bool) (xs : List A) → length (keep p xs) ≤ length xs
  length-keep-le p [] = omega arith
  length-keep-le p (x ∷ xs) = ground (arith, length-keep-le p xs)

  pub All-append {κ} : (P : A → Type κ) (xs ys : List A) → All P xs → All P ys → All P (xs ++ ys)
  All-append P [] ys hx hy = hy
  All-append P (x ∷ xs) ys hx hy = (hx.0, All-append P xs ys hx.1 hy)

infixl 5 ◌>>=◌
abbrev pub ◌>>=◌ {ℓ κ} : {A : Type ℓ} {B : Type κ} → Option A → (A → Option B) → Option B
none >>= f = none
some a >>= f = f a

-- What a chain of guards that ended in `some x` has passed.
module _ {ℓ} {A : Type ℓ} where
  pub passed_not :
      (b : Bool) (o : Option A) (x : A)
      → (if b then none else o) ≡ some x
      → (b ≡ false) × (o ≡ some x)
  passed_not b o x e = ground arith

  pub passed :
      (b : Bool) (o : Option A) (x : A)
      → (if b then o else none) ≡ some x
      → (b ≡ true) × (o ≡ some x)
  passed b o x e = ground arith

  pub some_injective : (x y : A) → some x ≡ some y → x ≡ y
  some_injective x y e = cc

  pub bound {κ} :
      {B : Type κ} (o : Option A) (f : A → Option B) (y : B)
      → (o >>= f) ≡ some y
      → (x : A) × (o ≡ some x) × (f x ≡ some y)
  bound none f y e = cc
  bound (some x) f y e = (x, refl, e)
