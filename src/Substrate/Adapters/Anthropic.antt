-- ===== src/Substrate/Adapters/Anthropic.antt =====
-- llm/anthropic_adapter.py, for a message of the SDK.
use cite_delta_rag.Prelude.{
  ℕ, String, Option, none, List, [], ◌∷◌, ◌++◌, ◌==◌, nat_eq, string_eq, if◌then◌else◌,
}
use cite_delta_rag.Prelude.Dict.{Dict}
use cite_delta_rag.Text.{Text}
use cite_delta_rag.Answer.Service.{StopReason, end_turn, max_tokens, refusal}
use cite_delta_rag.Substrate.Pricing.{TokenUsage, CostLedger}
use cite_delta_rag.Substrate.Adapters.{
  Reaction, Trail, attempts, priced, is_refusal, or_zero, stop_from,
}

pub record Block : Type 0 where
  pub kind : String
  pub text : Text

-- The message of the SDK.
pub record Message : Type 0 where
  pub stop_reason : Option String
  pub content : List Block
  pub model : Text
  pub input_tokens : Option ℕ
  pub output_tokens : Option ℕ
  pub cache_creation_input_tokens : Option ℕ
  pub cache_read_input_tokens : Option ℕ
  pub category : Option Text

-- `_STOP_REASONS`
abbrev pub stop_reasons : Dict String StopReason
stop_reasons = ("end_turn", end_turn) ∷ ("max_tokens", max_tokens) ∷ ("refusal", refusal) ∷ []

unfoldable pub text_of : List Block → Text
text_of [] = []
text_of (b ∷ bs) = let rest = text_of bs in if b.kind == "text" then b.text ++ rest else rest

unfoldable pub usage_of : Message → TokenUsage
usage_of raw = record {
  input_tokens = or_zero raw.input_tokens;
  output_tokens = or_zero raw.output_tokens;
  cache_write_tokens = or_zero raw.cache_creation_input_tokens;
  cache_read_tokens = or_zero raw.cache_read_input_tokens;
}

-- `_to_response`
unfoldable pub to_response : CostLedger → String → ℕ → String → Message → Trail
unfolding priced stop_from text_of usage_of
to_response ledger run_id when model raw =
    let stop = stop_from stop_reasons raw.stop_reason in
    priced ledger run_id when model (usage_of raw) (λ cost. record {
      text = if is_refusal stop then [] else text_of raw.content;
      usage = usage_of raw;
      stop_reason = stop;
      model = raw.model;
      refusal_category = if is_refusal stop then raw.category else none;
      cost_usd = cost;
    })

-- `complete`, for the request's run and model.
unfoldable pub complete :
    (ℕ → Reaction Message) → (ℕ → ℕ) → CostLedger → ℕ → String → ℕ → String → Trail
unfolding attempts to_response
complete react delay ledger max_attempts run_id when model =
    attempts react delay (to_response ledger run_id when model) ledger 1 max_attempts
