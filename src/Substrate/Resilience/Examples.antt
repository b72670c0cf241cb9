-- ===== src/Substrate/Resilience/Examples.antt =====
-- A third attempt, with the theorems applied to it.
use cite_delta_rag.Prelude.{◌*◌, ◌^◌, ◌-◌, ◌/◌, ◌≤◌, arith}
use cite_delta_rag.Substrate.Resilience.{full_jitter_delay}
use cite_delta_rag.Substrate.Resilience.Bounds.{full_jitter_delay_within}

full_jitter_delay_within_example :
    (full_jitter_delay (λ c. c / 2) 3 500 60_000 ≤ 60_000)
    × (full_jitter_delay (λ c. c / 2) 3 500 60_000 ≤ 500 * 2 ^ (3 - 1))
full_jitter_delay_within_example =
    full_jitter_delay_within (λ c. c / 2) 3 500 60_000 (λ c. omega arith) (omega arith)
