-- ===== src/Base/Int.antt =====
-- Signed integers over the native numbers, and Go's int64 and int32 arithmetic on them. A value of
-- type int64 is an integer; each sum and difference is brought back into the range of the type.
use byte_danceliveauctioni.Base.Tests.{ltb, leb, ◌==◌, if◌then◌else◌}
use Prim.Native.Nat.{ℕ, suc, ◌+◌, ◌-◌, ◌%◌, ◌^◌, ◌≤◌, ◌<◌}
use mathlib.Core.Path.{◌≡◌, refl}
use mathlib.Core.Logic.{◌↔◌}
use mathlib.Core.Bool.{Bool, true}
use native.Mathlib.Omega.{arith}

-- `negsuc n` is -(n + 1).
pub data ℤ : Type 0 where
  pos : ℕ → ℤ
  negsuc : ℕ → ℤ

abbrev pub pos_part : ℤ → ℕ
pos_part (pos n) = n
pos_part (negsuc n) = 0

abbrev pub neg_part : ℤ → ℕ
neg_part (pos n) = 0
neg_part (negsuc n) = suc n

-- a - b, as an integer.
abbrev pub sub_ℕ : ℕ → ℕ → ℤ
sub_ℕ a b = if leb b a then pos (a - b) else negsuc (b - a - 1)

infix 50 ◌≤ℤ◌ ◌<ℤ◌
abbrev pub ◌≤ℤ◌ : ℤ → ℤ → Type 0
a ≤ℤ b = pos_part a + neg_part b ≤ pos_part b + neg_part a

abbrev pub ◌<ℤ◌ : ℤ → ℤ → Type 0
a <ℤ b = pos_part a + neg_part b < pos_part b + neg_part a

abbrev pub ltb_ℤ : ℤ → ℤ → Bool
ltb_ℤ a b = ltb (pos_part a + neg_part b) (pos_part b + neg_part a)

abbrev pub leb_ℤ : ℤ → ℤ → Bool
leb_ℤ a b = leb (pos_part a + neg_part b) (pos_part b + neg_part a)

abbrev pub eqb_ℤ : ℤ → ℤ → Bool
eqb_ℤ a b = pos_part a + neg_part b == pos_part b + neg_part a

pub eq_of_parts : (a b : ℤ) → pos_part a + neg_part b ≡ pos_part b + neg_part a → a ≡ b
eq_of_parts a b h = ground arith

pub eqb_ℤ_iff : (a b : ℤ) → (eqb_ℤ a b ≡ true) ↔ (a ≡ b)
eqb_ℤ_iff a b = (λ h. eq_of_parts a b (ground arith), λ e. ground arith)

-- The integer that a bit pattern of 64 bits stands for.
signed64 : ℕ → ℤ
signed64 m = if ltb m (2 ^ 63) then pos m else negsuc (2 ^ 64 - 1 - m)

unfoldable pub wrap64 : ℤ → ℤ
unfolding signed64
wrap64 (pos n) = signed64 (n % 2 ^ 64)
wrap64 (negsuc n) = signed64 (2 ^ 64 - 1 - n % 2 ^ 64)

signed32 : ℕ → ℤ
signed32 m = if ltb m (2 ^ 31) then pos m else negsuc (2 ^ 32 - 1 - m)

unfoldable pub wrap32 : ℤ → ℤ
unfolding signed32
wrap32 (pos n) = signed32 (n % 2 ^ 32)
wrap32 (negsuc n) = signed32 (2 ^ 32 - 1 - n % 2 ^ 32)

-- Go's `+` and `-` on int64, and `+` on int32.
unfoldable pub add64 : ℤ → ℤ → ℤ
unfolding wrap64
add64 a b = wrap64 (sub_ℕ (pos_part a + pos_part b) (neg_part a + neg_part b))

unfoldable pub sub64 : ℤ → ℤ → ℤ
unfolding wrap64
sub64 a b = wrap64 (sub_ℕ (pos_part a + neg_part b) (neg_part a + pos_part b))

unfoldable pub add32 : ℤ → ℤ → ℤ
unfolding wrap32
add32 a b = wrap32 (sub_ℕ (pos_part a + pos_part b) (neg_part a + neg_part b))

-- Inside the range of the type the operations are exact.
pub add64_exact :
    (a b : ℤ)
    → pos_part a + pos_part b < 2 ^ 63
    → neg_part a + neg_part b ≤ 2 ^ 63
    → pos_part (add64 a b) + neg_part a + neg_part b
      ≡ neg_part (add64 a b) + pos_part a + pos_part b
unfolding add64
add64_exact a b h k = ground arith

pub sub64_exact :
    (a b : ℤ)
    → pos_part a + neg_part b < 2 ^ 63
    → neg_part a + pos_part b ≤ 2 ^ 63
    → pos_part (sub64 a b) + neg_part a + pos_part b
      ≡ neg_part (sub64 a b) + pos_part a + neg_part b
unfolding sub64
sub64_exact a b h k = ground arith

pub add32_exact :
    (a b : ℤ)
    → pos_part a + pos_part b < 2 ^ 31
    → neg_part a + neg_part b ≤ 2 ^ 31
    → pos_part (add32 a b) + neg_part a + neg_part b
      ≡ neg_part (add32 a b) + pos_part a + pos_part b
unfolding add32
add32_exact a b h k = ground arith

-- A sum of two numbers that are not negative is not negative either, as long as it fits.
pub add64_pos :
    (a b : ℤ)
    → neg_part a ≡ 0
    → neg_part b ≡ 0
    → pos_part a + pos_part b < 2 ^ 63
    → (neg_part (add64 a b) ≡ 0) × (pos_part (add64 a b) ≡ pos_part a + pos_part b)
unfolding add64
add64_pos a b h k l = ground arith

pub add32_pos :
    (a b : ℤ)
    → neg_part a ≡ 0
    → neg_part b ≡ 0
    → pos_part a + pos_part b < 2 ^ 31
    → (neg_part (add32 a b) ≡ 0) × (pos_part (add32 a b) ≡ pos_part a + pos_part b)
unfolding add32
add32_pos a b h k l = ground arith

wraps_around : add64 (pos (2 ^ 63 - 1)) (pos 1) ≡ negsuc (2 ^ 63 - 1)
unfolding add64
wraps_around = refl
