-- ===== src/Substrate/Adapters/Examples.antt =====
-- A retried reply, and an endpoint that is down.
use cite_delta_rag.Prelude.{ℕ, zero, suc, ◌+◌, ◌<◌, ◌≡◌, refl, inl, inr, none, some, [], ◌∷◌, arith}
use cite_delta_rag.Text.{codes}
use cite_delta_rag.Substrate.Pricing.{price}
use cite_delta_rag.Substrate.Adapters.{Reaction, retryable, replied, completion_error, stop_from}
use cite_delta_rag.Substrate.Adapters.Retries.{calls, spaced}
use cite_delta_rag.Substrate.Adapters.Billing.{
  IsBilled, IsUnavailable, anthropic_replied, openrouter_exhausted,
}
use cite_delta_rag.Substrate.Adapters.Anthropic
use cite_delta_rag.Substrate.Adapters.Anthropic.{Message}
use cite_delta_rag.Substrate.Adapters.OpenRouter
use cite_delta_rag.Substrate.Adapters.OpenRouter.{Reply, Post, status, reaction}

abbrev message : Message
message = record {
  stop_reason = some "end_turn";
  content = record { kind = "text"; text = codes "yes" } ∷ [];
  model = codes "claude-haiku-4-5-20251001";
  input_tokens = some 1_000;
  output_tokens = some 200;
  cache_creation_input_tokens = none;
  cache_read_input_tokens = none;
  category = none;
}

abbrev react : ℕ → Reaction Message
react zero = retryable
react (suc zero) = retryable
react (suc (suc n)) = replied message

priced_at : price (Anthropic.usage_of message) "claude-haiku-4-5" 739_700 ≡ some 2_000
unfolding price Anthropic.usage_of
priced_at = refl

anthropic_replied_example :
    (calls (Anthropic.complete react (λ n. n) [] 3 "run" 739_700 "claude-haiku-4-5").events ≡ 2)
    × IsBilled [] "run"
        (Anthropic.usage_of message)
        (stop_from Anthropic.stop_reasons message.stop_reason)
        2_000
        (Anthropic.complete react (λ n. n) [] 3 "run" 739_700 "claude-haiku-4-5")
anthropic_replied_example =
    anthropic_replied react (λ n. n) [] 3 "run" 739_700 "claude-haiku-4-5" 1 2_000 message once refl
      (omega arith) priced_at
  where
    once : (i : ℕ) → i < 1 → react (1 + i) ≡ retryable
    once zero h = refl
    once (suc i) h = absurd (omega (arith, h))

abbrev reply : Reply
reply = record {
  finish_reason = none;
  content = none;
  model = none;
  prompt_tokens = none;
  completion_tokens = none;
}

abbrev post : ℕ → Post
post n = status 503 reply

openrouter_exhausted_example :
    let t = OpenRouter.complete post (λ n. n) [] 3 "run" 739_900 "openai/gpt-5.6-luna" in
    (t.ending ≡ completion_error) × (t.ledger ≡ []) × (t.events ≡ spaced (λ n. n) 1 3)
openrouter_exhausted_example =
    openrouter_exhausted post (λ n. n) [] 3 "run" 739_900 "openai/gpt-5.6-luna" unavailable
  where
    unavailable : (i : ℕ) → i < 3 → IsUnavailable (post (1 + i))
    unavailable i h = inr (inr (inr (inl refl)))
