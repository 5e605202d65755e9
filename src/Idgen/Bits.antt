-- ===== src/Idgen/Bits.antt =====
-- The parts of an id do not overlap, so that their disjunction is their sum.
use Prim.Native.Nat.{max, digits, bit_and, bit_or, bit_or-bitwise}
use byte_danceliveauctioni.Base.{
  ℕ, zero, suc, ◌+◌, ◌*◌, ◌/◌, ◌%◌, ◌^◌, ◌≤◌, ◌<◌, ◌≡◌, refl, Bool, true, ◌&&◌, ◌==◌, arith, ◌∙◌,
}

-- The lowest k digits of a are zeros, and b has no others.
abbrev pub Fits : ℕ → ℕ → ℕ → Type 0
Fits zero a b = b ≡ 0
Fits (suc k) a b = (a % 2 ≡ 0) × Fits k (a / 2) (b / 2)

or_digits : ℕ → ℕ → ℕ → ℕ
or_digits n a b = digits (λ c. c) max n a b

or_digits-zero : (n a : ℕ) → a ≤ n → or_digits n a 0 ≡ a
unfolding or_digits
or_digits-zero zero zero h = refl
or_digits-zero zero (suc a) h = absurd (omega arith)
or_digits-zero (suc n) zero h = refl
or_digits-zero (suc n) (suc a) h =
    let rest = or_digits-zero n (suc a / 2) (omega arith) in ground arith

or_digits-add : (k n a b : ℕ) → a ≤ n → Fits k a b → or_digits n a b ≡ a + b
unfolding or_digits
or_digits-add zero n a b h f = rw f (or_digits-zero n a h ∙ omega arith)
or_digits-add (suc k) zero zero b h f = omega arith
or_digits-add (suc k) zero (suc a) b h f = absurd (omega arith)
or_digits-add (suc k) (suc n) zero b h f = omega arith
or_digits-add (suc k) (suc n) (suc a) b h f =
    let rest = or_digits-add k n (suc a / 2) (b / 2) (omega arith) f.1 in
    let even = f.0 in ground arith

pub bit_or-add : (k a b : ℕ) → Fits k a b → bit_or a b ≡ a + b
unfolding or_digits
bit_or-add k a b f = bit_or-bitwise a b ∙ or_digits-add k a a b (omega arith) f

-- A mask, by its table.
masks_below : ℕ → Bool
masks_below zero = true
masks_below (suc n) = (bit_and n 4095 == n % 4096) && masks_below n

masks_below_sound : (n x : ℕ) → masks_below n ≡ true → x < n → bit_and x 4095 ≡ x % 4096
unfolding masks_below
masks_below_sound zero x h l = absurd (omega arith)
masks_below_sound (suc n) x h l = ground (arith, masks_below_sound n x)

mask_table : masks_below 4097 ≡ true
unfolding masks_below
mask_table = refl

pub bit_and-mask : (x : ℕ) → x ≤ 4096 → bit_and x 4095 ≡ x % 4096
bit_and-mask x h = masks_below_sound 4097 x mask_table (omega arith)

pub worker-Fits : (d w : ℕ) → w < 1024 → Fits 22 (d * 2 ^ 22) (w * 2 ^ 12)
worker-Fits d w h = omega arith

pub sequence-Fits : (d w s : ℕ) → s < 4096 → Fits 12 (d * 2 ^ 22 + w * 2 ^ 12) s
sequence-Fits d w s h = omega arith
