-- ===== src/Substrate/Adapters/OpenRouter.antt =====
-- llm/openrouter_adapter.py, for a reply of the endpoint.
use cite_delta_rag.Prelude.{
  ℕ, String, Option, none, some, List, [], ◌∷◌, leb, nat_eq, string_eq, if◌then◌else◌, elem,
}
use cite_delta_rag.Prelude.Dict.{Dict}
use cite_delta_rag.Text.{Text, truthy, codes}
use cite_delta_rag.Answer.Service.{StopReason, end_turn, max_tokens, refusal}
use cite_delta_rag.Substrate.Pricing.{TokenUsage, CostLedger}
use cite_delta_rag.Substrate.Adapters.{
  Reaction, retryable, failed, replied, Trail, attempts, priced, is_refusal, or_zero, stop_from,
}

-- The JSON of a reply; `choices` that are missing or empty make the code raise, and are not here.
pub record Reply : Type 0 where
  pub finish_reason : Option String
  pub content : Option Text
  pub model : Option Text
  pub prompt_tokens : Option ℕ
  pub completion_tokens : Option ℕ

pub data Post : Type 0 where
  transport_error : Post
  status : ℕ → Reply → Post

-- `_STOP_REASONS`
abbrev pub stop_reasons : Dict String StopReason
stop_reasons = ("stop", end_turn) ∷ ("length", max_tokens) ∷ ("content_filter", refusal) ∷ []

-- `_RETRYABLE_STATUS`
abbrev pub retryable_status : List ℕ
retryable_status = 429 ∷ 500 ∷ 502 ∷ 503 ∷ 504 ∷ []

unfoldable pub reaction : Post → Reaction Reply
reaction transport_error = retryable
reaction (status code raw) =
    if elem code retryable_status then retryable else (if leb 400 code then failed else replied raw)

unfoldable pub usage_of : Reply → TokenUsage
usage_of raw = record {
  input_tokens = or_zero raw.prompt_tokens;
  output_tokens = or_zero raw.completion_tokens;
  cache_write_tokens = 0;
  cache_read_tokens = 0;
}

abbrev pub or_empty : Option Text → Text
or_empty t = elim t [ none ↦ [] | some s ↦ s ]

-- `raw.get("model") or requested_model`
unfoldable pub model_or : Option Text → Text → Text
model_or none requested = requested
model_or (some m) requested = if truthy m then m else requested

-- `_to_response`
unfoldable pub to_response : CostLedger → String → ℕ → String → Reply → Trail
unfolding priced stop_from usage_of model_or
to_response ledger run_id when requested raw =
    let stop = stop_from stop_reasons raw.finish_reason in
    priced ledger run_id when requested (usage_of raw) (λ cost. record {
      text = if is_refusal stop then [] else or_empty raw.content;
      usage = usage_of raw;
      stop_reason = stop;
      model = model_or raw.model (codes requested);
      refusal_category = none;
      cost_usd = cost;
    })

-- `complete`
unfoldable pub complete : (ℕ → Post) → (ℕ → ℕ) → CostLedger → ℕ → String → ℕ → String → Trail
unfolding attempts reaction to_response
complete post delay ledger max_attempts run_id when model =
    attempts (λ n. reaction (post n)) delay (to_response ledger run_id when model) ledger 1
      max_attempts
