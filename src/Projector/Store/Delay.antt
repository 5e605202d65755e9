-- ===== src/Projector/Store/Delay.antt =====
-- The delays between the attempts.
use byte_danceliveauctioni.Base.{
  ℕ, zero, suc, ◌*◌, ◌-◌, ◌/◌, ◌^◌, ◌≤◌, ltb, leb, if◌then◌else◌, Bool-cases, inl, inr, ◌≡◌, sym,
  ap, ◌∙◌, arith,
}
use byte_danceliveauctioni.Projector.Store.{doubled, retry_limit}

-- The smaller of two numbers.
unfoldable pub minimum : ℕ → ℕ → ℕ
minimum a b = if leb a b then a else b

double_pow : (limit p : ℕ) → limit * 2 * p ≡ limit * (2 * p)
double_pow limit p = grind arith

pow_step : (n : ℕ) → 2 ^ suc n ≡ 2 * 2 ^ n
pow_step n = omega arith

pow_pos : (n : ℕ) → 1 ≤ 2 ^ n
pow_pos zero = omega arith
pow_pos (suc n) = omega (arith, pow_pos n)

le_mul : (limit p : ℕ) → 1 ≤ p → limit ≤ limit * p
le_mul limit zero h = absurd (omega arith)
le_mul limit (suc p) h = grind arith

doubled-minimum :
    (max_delay steps limit : ℕ)
    → limit ≤ max_delay
    → doubled max_delay steps limit ≡ minimum (limit * 2 ^ steps) max_delay
unfolding doubled minimum
doubled-minimum max_delay zero limit h = ground arith
doubled-minimum max_delay (suc steps) limit h =
    let grows = le_mul (limit * 2) (2 ^ steps) (pow_pos steps) in
    let whole : limit * 2 ^ suc steps ≡ limit * 2 * 2 ^ steps =
      ap (λ k. limit * k) (pow_step steps) ∙ sym (double_pow limit (2 ^ steps)) in
    let goal = ap (λ k. minimum k max_delay) (sym whole) in
    elim (Bool-cases (ltb limit max_delay)) [
      | inl below ↦ elim (Bool-cases (ltb (max_delay / 2) limit)) [
        | inl over ↦ ground arith
        | inr under ↦
            let rest = doubled-minimum max_delay steps (limit * 2) (ground arith) in ground arith
      ]
      | inr full ↦ ground arith
    ]

doubled-le :
    (max_delay steps limit : ℕ) → limit ≤ max_delay → doubled max_delay steps limit ≤ max_delay
unfolding minimum
doubled-le max_delay steps limit h = let e = doubled-minimum max_delay steps limit h in ground arith

-- For every base delay up to the largest, and every number of failed attempts: the limit of the delay before the next
-- attempt is the base doubled once for each failed attempt after the first, cut at the largest delay.
pub retry_limit-minimum :
    (base max_delay failed : ℕ)
    → base ≤ max_delay
    → retry_limit base max_delay failed ≡ minimum (base * 2 ^ (failed - 1)) max_delay
unfolding retry_limit
retry_limit-minimum base max_delay failed h =
    let e = doubled-minimum max_delay (failed - 1) base h in
    let l = doubled-le max_delay (failed - 1) base h in ground arith
