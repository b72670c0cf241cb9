-- ===== src/Substrate/Queue/Examples/RetryRuns.antt =====
-- The first worker fails, and the table is counted.
use cite_delta_rag.Prelude.{
  ◌+◌, ◌*◌, ◌^◌, ◌-◌, ◌/◌, ◌≡◌, min, refl, inl, inr, arith, In, true, [], string_eq,
}
use cite_delta_rag.Prelude.Int.{beq_ℤ}
use cite_delta_rag.Text.{codes}
use cite_delta_rag.Substrate.Queue.Table.{update_where}
use cite_delta_rag.Substrate.Queue.Claim.{claim_rows, claimable, lease}
use cite_delta_rag.Substrate.Queue.Finish.{nack, is_held}
use cite_delta_rag.Substrate.Queue.History.{claims, step}
use cite_delta_rag.Substrate.Queue.Identity.{HasIds, step-HasIds}
use cite_delta_rag.Substrate.Queue.Retry.{Retried, nack_retries}
use cite_delta_rag.Substrate.Queue.Examples.{q, urgent, table, table-HasIds, claimed, first_handle}

claimed-HasIds : HasIds claimed
unfolding step
claimed-HasIds = step-HasIds table (claims q 20 "a" 1 []) table-HasIds

leased_row : In (lease q 20 "a" urgent) claimed.rows
unfolding claim_rows claimable lease beq_ℤ update_where
leased_row = inr (inl refl)

is_holding : is_held first_handle (lease q 20 "a" urgent) ≡ true
unfolding is_held lease
is_holding = refl

nack_retries_example :
    Retried
      (lease q 20 "a" urgent)
      (25 + min 60 (1 * 2 ^ (1 - 1)))
      (nack (λ c. c / 2) q 25 first_handle (codes "timeout") claimed)
unfolding lease
nack_retries_example =
    nack_retries (λ c. c / 2) q 25 first_handle (codes "timeout") claimed (lease q 20 "a" urgent)
      (λ c. omega arith) (omega arith) claimed-HasIds leased_row is_holding
