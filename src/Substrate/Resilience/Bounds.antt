-- ===== src/Substrate/Resilience/Bounds.antt =====
-- How long a retry waits.
use cite_delta_rag.Prelude.{ℕ, zero, suc, ◌-◌, ◌*◌, ◌^◌, ◌≤◌, arith, min, max}
use cite_delta_rag.Substrate.Resilience.{max_exponent, backoff_ceiling, full_jitter_delay}

pow_positive : (n : ℕ) → 1 ≤ 2 ^ n
pow_positive zero = omega arith
pow_positive (suc n) = omega (arith, pow_positive n)

pow_mono : (a b : ℕ) → a ≤ b → 2 ^ a ≤ 2 ^ b
pow_mono zero b h = pow_positive b
pow_mono (suc a) zero h = absurd (omega (arith, h))
pow_mono (suc a) (suc b) h = omega (arith, pow_mono a b (omega (arith, h)))

mul_mono : (n a b : ℕ) → a ≤ b → n * a ≤ n * b
mul_mono zero a b h = omega arith
mul_mono (suc n) a b h = omega (arith, mul_mono n a b h, h)

ceiling_le_cap : (attempt base cap : ℕ) → backoff_ceiling attempt base cap ≤ cap
unfolding backoff_ceiling
ceiling_le_cap attempt base cap = omega arith

ceiling_le_doubling :
    (attempt base cap : ℕ)
    → 1 ≤ attempt
    → backoff_ceiling attempt base cap ≤ base * 2 ^ (attempt - 1)
unfolding backoff_ceiling
ceiling_le_doubling attempt base cap h = omega (
  arith,
  mul_mono base (2 ^ min (max attempt 1 - 1) max_exponent) (2 ^ (attempt - 1))
      (pow_mono (min (max attempt 1 - 1) max_exponent) (attempt - 1) (omega (arith, h))),
)

-- The windows grow: a later attempt's window is never shorter.
pub ceiling_mono :
    (a b base cap : ℕ) → a ≤ b → backoff_ceiling a base cap ≤ backoff_ceiling b base cap
unfolding backoff_ceiling
ceiling_mono a b base cap h = omega (
  arith,
  mul_mono base (2 ^ min (max a 1 - 1) max_exponent) (2 ^ min (max b 1 - 1) max_exponent) (
      pow_mono (min (max a 1 - 1) max_exponent) (min (max b 1 - 1) max_exponent)
        (omega (arith, h))),
)

-- With a generator that stays within the window it is given, the delay of an attempt is at most the
-- cap and at most the base doubled with every attempt after the first.
pub full_jitter_delay_within :
    (uniform : ℕ → ℕ) (attempt base cap : ℕ)
    → ((c : ℕ) → uniform c ≤ c)
    → 1 ≤ attempt
    → (full_jitter_delay uniform attempt base cap ≤ cap)
      × (full_jitter_delay uniform attempt base cap ≤ base * 2 ^ (attempt - 1))
unfolding full_jitter_delay
full_jitter_delay_within uniform attempt base cap u h = (
  omega (arith, u (backoff_ceiling attempt base cap), ceiling_le_cap attempt base cap),
  omega (arith, u (backoff_ceiling attempt base cap), ceiling_le_doubling attempt base cap h),
)
