-- ===== src/Substrate/Adapters.antt =====
-- llm/anthropic_adapter.py and llm/openrouter_adapter.py: a completion with its retries, read, priced
-- and recorded. How a provider reacts to the calls, counted from one, is a parameter, and so is the
-- delay before the next one.
pub mod Anthropic
pub mod OpenRouter
pub mod Retries
pub mod Billing
mod Examples
use cite_delta_rag.Prelude.{
  ℕ, zero, suc, ◌+◌, String, Bool, true, false, not, ◌&&◌, ◌||◌, Option, none, some, List, [], ◌∷◌,
  ◌++◌, map, ltb, leb, ◌==◌, nat_eq, string_eq, if◌then◌else◌, select, elem,
}
use cite_delta_rag.Prelude.Dict
use cite_delta_rag.Prelude.Dict.{Dict}
use cite_delta_rag.Text.{Text, truthy, codes}
use cite_delta_rag.Answer.Service.{StopReason, end_turn, max_tokens, refusal, other}
use cite_delta_rag.Substrate.Pricing.{TokenUsage, price, CostLedger, record_cost}

-- What one call of a provider comes to.
pub data Reaction (R : Type 0) : Type 0 where
  retryable : Reaction R
  failed : Reaction R
  replied : R → Reaction R

-- What an adapter makes of a reply.
pub record Completion : Type 0 where
  pub text : Text
  pub usage : TokenUsage
  pub stop_reason : StopReason
  pub model : Text
  pub refusal_category : Option Text
  pub cost_usd : ℕ

-- `unknown_rate` is the exception of `price`.
pub data Ending : Type 0 where
  completed : Completion → Ending
  completion_error : Ending
  unknown_rate : Ending

pub data Event : Type 0 where
  called : ℕ → Event
  slept : ℕ → Event

pub record Trail : Type 0 where
  pub events : List Event
  pub ledger : CostLedger
  pub ending : Ending

abbrev pub ended : CostLedger → Ending → Trail
ended ledger ending = record { events = []; ledger = ledger; ending = ending }

abbrev pub after : List Event → Trail → Trail
after events t = record { events = events ++ t.events; ledger = t.ledger; ending = t.ending }

-- `await asyncio.sleep(delay)`, if another attempt follows.
unfoldable pub pause : (ℕ → ℕ) → ℕ → ℕ → List Event
pause delay attempt zero = []
pause delay attempt (suc left) = slept (delay attempt) ∷ []

-- The loop over the attempts, of which `left` are left from `attempt` on.
unfoldable pub attempts :
    {R : Type 0} → (ℕ → Reaction R) → (ℕ → ℕ) → (R → Trail) → CostLedger → ℕ → ℕ → Trail
unfolding pause
attempts react delay respond ledger attempt zero = ended ledger completion_error
attempts react delay respond ledger attempt (suc left) =
    let rest = attempts react delay respond ledger (suc attempt) left in
    elim (react attempt) [
      | retryable ↦ after (called attempt ∷ pause delay attempt left) rest
      | failed ↦ after (called attempt ∷ []) (ended ledger completion_error)
      | replied raw ↦ after (called attempt ∷ []) (respond raw)
    ]

-- The price by the model that was asked for, recorded before the response is made.
unfoldable pub priced : CostLedger → String → ℕ → String → TokenUsage → (ℕ → Completion) → Trail
priced ledger run_id when model usage make = elim (price usage model when) [
  | none ↦ ended ledger unknown_rate
  | some cost ↦ ended (record_cost ledger run_id cost).0 (completed (make cost))
]

abbrev pub is_refusal : StopReason → Bool
is_refusal stop = elim stop [ refusal ↦ true | _ ↦ false ]

abbrev pub or_zero : Option ℕ → ℕ
or_zero n = elim n [ none ↦ 0 | some k ↦ k ]

-- `raw.stop_reason or ""`, looked up with `StopReason.OTHER` as the default.
unfoldable pub stop_from : Dict String StopReason → Option String → StopReason
stop_from table none = Dict.get_or table "" other
stop_from table (some reason) = Dict.get_or table reason other
