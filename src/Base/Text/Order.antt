-- ===== src/Base/Text/Order.antt =====
-- Go's `<` on strings is the order of their bytes, which for valid UTF-8 is that of the code points.
use byte_danceliveauctioni.Base.Tests.{ltb, if◌then◌else◌}
use byte_danceliveauctioni.Base.Text.{codes}
use Prim.Native.Nat.{ℕ, ◌<◌}
use Prim.Native.String.{String}
use mathlib.Core.Path.{◌≡◌, refl}
use mathlib.Core.Logic.{◌⊎◌, ◌↔◌, inl, inr}
use mathlib.Core.Bool.{Bool, true, false}
use mathlib.Core.List.{List, [], ◌∷◌}
use native.Mathlib.Omega.{arith}
use text.Mathlib.TextEquality.{Char-path}

unfoldable pub lt_codes : List ℕ → List ℕ → Bool
lt_codes xs [] = false
lt_codes [] (y ∷ ys) = true
lt_codes (x ∷ xs) (y ∷ ys) =
    let rest = lt_codes xs ys in if ltb x y then true else (if ltb y x then false else rest)

unfoldable pub str_lt : String → String → Bool
unfolding lt_codes
str_lt a b = lt_codes (codes a) (codes b)

lt_codes_irrefl : (xs : List ℕ) → lt_codes xs xs ≡ false
unfolding lt_codes
lt_codes_irrefl [] = refl
lt_codes_irrefl (x ∷ xs) = ground (arith, lt_codes_irrefl xs)

lt_codes_trans :
    (xs ys zs : List ℕ) → lt_codes xs ys ≡ true → lt_codes ys zs ≡ true → lt_codes xs zs ≡ true
unfolding lt_codes
lt_codes_trans xs ys [] h k = cc
lt_codes_trans xs [] (z ∷ zs) h k = cc
lt_codes_trans [] (y ∷ ys) (z ∷ zs) h k = refl
lt_codes_trans (x ∷ xs) (y ∷ ys) (z ∷ zs) h k = ground (arith, lt_codes_trans xs ys zs)

lt_codes_total : (xs ys : List ℕ) → lt_codes xs ys ≡ false → lt_codes ys xs ≡ false → xs ≡ ys
unfolding lt_codes
lt_codes_total [] [] h k = refl
lt_codes_total [] (y ∷ ys) h k = cc
lt_codes_total (x ∷ xs) [] h k = cc
lt_codes_total (x ∷ xs) (y ∷ ys) h k = ground (arith, lt_codes_total xs ys)

codes_injective : (a b : String) → codes a ≡ codes b → a ≡ b
codes_injective String.[] String.[] h = refl
codes_injective String.[] (String.◌∷◌ d t) h = cc
codes_injective (String.◌∷◌ c s) String.[] h = cc
codes_injective (String.◌∷◌ c s) (String.◌∷◌ d t) h =
    cc (Char-path c d (ground arith), codes_injective s t (ground arith))

-- The order of strings is strict and total.
pub str_lt_irrefl : (a : String) → str_lt a a ≡ false
unfolding str_lt
str_lt_irrefl a = lt_codes_irrefl (codes a)

pub str_lt_trans : (a b c : String) → str_lt a b ≡ true → str_lt b c ≡ true → str_lt a c ≡ true
unfolding str_lt
str_lt_trans a b c = lt_codes_trans (codes a) (codes b) (codes c)

pub str_lt_total : (a b : String) → str_lt a b ≡ false → str_lt b a ≡ false → a ≡ b
unfolding str_lt
str_lt_total a b h k = codes_injective a b (lt_codes_total (codes a) (codes b) h k)

-- One text is a proper beginning of the other, or has the smaller code where they first differ.
abbrev pub CodesBefore : List ℕ → List ℕ → Type 0
CodesBefore xs [] = ⊥
CodesBefore [] (y ∷ ys) = Unit
CodesBefore (x ∷ xs) (y ∷ ys) = (x < y) ⊎ ((x ≡ y) × CodesBefore xs ys)

lt_codes-CodesBefore : (xs ys : List ℕ) → lt_codes xs ys ≡ true → CodesBefore xs ys
unfolding lt_codes
lt_codes-CodesBefore xs [] h = cc
lt_codes-CodesBefore [] (y ∷ ys) h = tt
lt_codes-CodesBefore (x ∷ xs) (y ∷ ys) h = ground (arith, lt_codes-CodesBefore xs ys)

CodesBefore-lt_codes : (xs ys : List ℕ) → CodesBefore xs ys → lt_codes xs ys ≡ true
unfolding lt_codes
CodesBefore-lt_codes xs [] h = absurd h
CodesBefore-lt_codes [] (y ∷ ys) h = refl
CodesBefore-lt_codes (x ∷ xs) (y ∷ ys) (inl less) = ground arith
CodesBefore-lt_codes (x ∷ xs) (y ∷ ys) (inr (same, later)) =
    let rest = CodesBefore-lt_codes xs ys later in ground arith

pub str_lt_iff : (a b : String) → (str_lt a b ≡ true) ↔ CodesBefore (codes a) (codes b)
unfolding str_lt
str_lt_iff a b =
    (lt_codes-CodesBefore (codes a) (codes b), CodesBefore-lt_codes (codes a) (codes b))
