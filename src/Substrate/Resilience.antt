-- ===== src/Substrate/Resilience.antt =====
-- resilience.py: retry timing. A duration is a number of ticks; the random number generator is an
-- argument that picks a duration from 0 to the one given.
pub mod Bounds
mod Examples
use cite_delta_rag.Prelude.{ℕ, ◌+◌, ◌-◌, ◌*◌, ◌^◌, ◌≤◌, ◌≡◌, arith, min, max}

abbrev pub max_exponent : ℕ
max_exponent = 32

unfoldable pub backoff_ceiling : ℕ → ℕ → ℕ → ℕ
backoff_ceiling attempt base cap = min cap (base * 2 ^ min (max attempt 1 - 1) max_exponent)

-- `uniform` is `rng.uniform(0.0, …)`.
unfoldable pub full_jitter_delay : (ℕ → ℕ) → ℕ → ℕ → ℕ → ℕ
unfolding backoff_ceiling
full_jitter_delay uniform attempt base cap = uniform (backoff_ceiling attempt base cap)
