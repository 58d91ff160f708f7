-- ===== src/Base/Lists.antt =====
-- Lists measured by native numbers, membership tests and predicates by recursion.
use Prim.Native.Nat.{ℕ, zero, suc, ◌+◌, ◌≤◌}
use Prim.Native.String.{String}
use mathlib.Core.Path.{◌≡◌, refl}
use mathlib.Core.Bool.{Bool, true, false, ◌||◌}
use mathlib.Core.Option.{Option, none, some}
use mathlib.Core.List.{List, [], ◌∷◌, ◌++◌}
use native.Mathlib.Omega.{arith}
use text.Mathlib.Text.{◌==◌}
use structured_data_extracto.Base.Tests.{ltb, eqb, if◌then◌else◌}

module _ {ℓ} {A : Type ℓ} where
  abbrev pub length : List A → ℕ
  length [] = 0
  length (x ∷ xs) = suc (length xs)

  abbrev pub get_elem? : List A → ℕ → Option A
  get_elem? [] i = none
  get_elem? (x ∷ xs) zero = some x
  get_elem? (x ∷ xs) (suc i) = get_elem? xs i

  -- `bool(xs)` of a list.
  abbrev pub nonempty : List A → Bool
  nonempty [] = false
  nonempty (_ ∷ _) = true

  abbrev pub All {κ} : (A → Type κ) → List A → Type κ
  All P [] = Unit
  All P (x ∷ xs) = P x × All P xs

  abbrev pub any : (A → Bool) → List A → Bool
  any p [] = false
  any p (x ∷ xs) = p x || any p xs

  pub length-append : (xs ys : List A) → length (xs ++ ys) ≡ length xs + length ys
  length-append [] ys = omega arith
  length-append (x ∷ xs) ys = omega (arith, length-append xs ys)

  pub All-append {κ} : (P : A → Type κ) (xs ys : List A) → All P xs → All P ys → All P (xs ++ ys)
  All-append P [] ys hx hy = hy
  All-append P (x ∷ xs) ys hx hy = (hx.0, All-append P xs ys hx.1 hy)

  -- The sum of a measure over a list.
  abbrev pub sum_of : (A → ℕ) → List A → ℕ
  sum_of f [] = 0
  sum_of f (x ∷ xs) = f x + sum_of f xs

  pub sum_of-append : (f : A → ℕ) (xs ys : List A) → sum_of f (xs ++ ys) ≡ sum_of f xs + sum_of f ys
  sum_of-append f [] ys = omega arith
  sum_of-append f (x ∷ xs) ys = omega (arith, sum_of-append f xs ys)

-- `x in xs` for numbers and for texts.
abbrev pub elem : ℕ → List ℕ → Bool
elem x [] = false
elem x (y ∷ ys) = eqb y x || elem x ys

abbrev pub contains : List String → String → Bool
contains [] k = false
contains (j ∷ js) k = j == k || contains js k

-- `sorted` of a set of numbers: insertion without repetition.
unfoldable pub insert_sorted : ℕ → List ℕ → List ℕ
insert_sorted x [] = x ∷ []
insert_sorted x (y ∷ ys) =
    if ltb x y then x ∷ y ∷ ys else if eqb x y then y ∷ ys else y ∷ insert_sorted x ys

-- Strictly ascending, above a bound.
abbrev pub Ascends : ℕ → List ℕ → Type 0
Ascends lo [] = Unit
Ascends lo (x ∷ xs) = (lo ≤ x) × Ascends (suc x) xs

abbrev pub IsStrictlySorted : List ℕ → Type 0
IsStrictlySorted = Ascends 0

pub insert_sorted-Ascends :
    (lo x : ℕ) (xs : List ℕ) → lo ≤ x → Ascends lo xs → Ascends lo (insert_sorted x xs)
unfolding insert_sorted
insert_sorted-Ascends lo x [] h s = (h, tt)
insert_sorted-Ascends lo x (y ∷ ys) h s = ground (arith, insert_sorted-Ascends (suc y) x ys)

pub elem-insert_sorted :
    (z x : ℕ) (xs : List ℕ) → elem z (insert_sorted x xs) ≡ (eqb x z || elem z xs)
unfolding insert_sorted
elem-insert_sorted z x [] = refl
elem-insert_sorted z x (y ∷ ys) = ground (arith, elem-insert_sorted z x ys)

placed-All {κ} :
    (P : ℕ → Type κ) (x y : ℕ) (ys zs : List ℕ) (a b : Bool)
    → P x
    → All P (y ∷ ys)
    → All P zs
    → All P (if a then x ∷ y ∷ ys else if b then y ∷ ys else y ∷ zs)
placed-All P x y ys zs true b p h k = (p, h)
placed-All P x y ys zs false true p h k = h
placed-All P x y ys zs false false p h k = (h.0, k)

pub insert_sorted-All {κ} :
    (P : ℕ → Type κ) (x : ℕ) (xs : List ℕ) → P x → All P xs → All P (insert_sorted x xs)
unfolding insert_sorted
insert_sorted-All P x [] p h = (p, tt)
insert_sorted-All P x (y ∷ ys) p h =
    placed-All P x y ys (insert_sorted x ys) (ltb x y) (eqb x y) p h
      (insert_sorted-All P x ys p h.1)
