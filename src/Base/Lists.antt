-- ===== src/Base/Lists.antt =====
-- Lists measured by native numbers, and predicates on every element.
use Prim.Native.Nat.{ℕ, zero, suc, ◌+◌, ◌≤◌}
use mathlib.Core.Path.{◌≡◌}
use mathlib.Core.Bool.{Bool, true, ◌&&◌}
use mathlib.Core.List.{List, [], ◌∷◌, ◌++◌}
use native.Mathlib.Omega.{arith}

module _ {ℓ} {A : Type ℓ} where
  abbrev pub length : List A → ℕ
  length [] = 0
  length (x ∷ xs) = suc (length xs)

  abbrev pub take : ℕ → List A → List A
  take zero xs = []
  take (suc n) [] = []
  take (suc n) (x ∷ xs) = x ∷ take n xs

  abbrev pub all : (A → Bool) → List A → Bool
  all p [] = true
  all p (x ∷ xs) = p x && all p xs

  pub length-append : (xs ys : List A) → length (xs ++ ys) ≡ length xs + length ys
  length-append [] ys = omega arith
  length-append (x ∷ xs) ys = omega (arith, length-append xs ys)

  pub length-take-le : (n : ℕ) (xs : List A) → length (take n xs) ≤ n
  length-take-le zero xs = omega arith
  length-take-le (suc n) [] = omega arith
  length-take-le (suc n) (x ∷ xs) = omega (arith, length-take-le n xs)

  pub length-take-le_length : (n : ℕ) (xs : List A) → length (take n xs) ≤ length xs
  length-take-le_length zero xs = omega arith
  length-take-le_length (suc n) [] = omega arith
  length-take-le_length (suc n) (x ∷ xs) = omega (arith, length-take-le_length n xs)

abbrev pub All {ℓ κ} : {A : Type ℓ} → (A → Type κ) → List A → Type κ
All P [] = Unit
All P (x ∷ xs) = P x × All P xs

module _ {ℓ κ} {A : Type ℓ} (P : A → Type κ) where
  pub All-take : (n : ℕ) (xs : List A) → All P xs → All P (take n xs)
  All-take zero xs h = tt
  All-take (suc n) [] h = tt
  All-take (suc n) (x ∷ xs) h = (h.0, All-take n xs h.1)

  pub All-append : (xs ys : List A) → All P xs → All P ys → All P (xs ++ ys)
  All-append [] ys h k = k
  All-append (x ∷ xs) ys h k = (h.0, All-append xs ys h.1 k)

pub All-map {ℓ κ μ} :
    {A : Type ℓ} {P : A → Type κ} {Q : A → Type μ} (f : (a : A) → P a → Q a) (xs : List A)
    → All P xs
    → All Q xs
All-map f [] h = tt
All-map f (x ∷ xs) h = (f x h.0, All-map f xs h.1)
