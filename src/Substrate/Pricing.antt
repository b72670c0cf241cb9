-- ===== src/Substrate/Pricing.antt =====
-- llm/pricing.py: what a call cost. A date is its ordinal, a rate a number of cents per million
-- tokens, and a cost a number of millionths of a dollar.
pub mod Rates
pub mod Ledger
mod Examples
use cite_delta_rag.Prelude.{
  ℕ, ◌+◌, ◌*◌, ◌/◌, ◌%◌, String, Bool, true, false, ◌&&◌, Option, none, some, List, [], ◌∷◌, ltb,
  ◌==◌, string_eq, if◌then◌else◌,
}
use cite_delta_rag.Prelude.Dict.{Dict}
use cite_delta_rag.Prelude.Dict

-- llm/__init__.py
pub record TokenUsage : Type 0 where
  pub input_tokens : ℕ
  pub output_tokens : ℕ
  pub cache_write_tokens : ℕ
  pub cache_read_tokens : ℕ

-- `TokenUsage.total`
abbrev pub total_tokens : TokenUsage → ℕ
total_tokens u = u.input_tokens + u.output_tokens + u.cache_write_tokens + u.cache_read_tokens

pub record Rate : Type 0 where
  pub model : String
  pub input_per_mtok : ℕ
  pub output_per_mtok : ℕ
  pub effective_from : ℕ
  pub effective_to : Option ℕ

before_expiry : Option ℕ → ℕ → Bool
before_expiry none day = true
before_expiry (some end) day = ltb day end

unfoldable pub covers : Rate → ℕ → Bool
unfolding before_expiry
covers r day = if ltb day r.effective_from then false else before_expiry r.effective_to day

abbrev rate : String → ℕ → ℕ → ℕ → Option ℕ → Rate
rate model i o from to = record {
  model = model;
  input_per_mtok = i;
  output_per_mtok = o;
  effective_from = from;
  effective_to = to;
}

-- `RATES`; the ordinals are of 2025-10-30, 2026-01-01, 2026-04-03, 2026-08-23 and 2026-09-01.
abbrev pub rates : List Rate
rates =
    rate "claude-opus-5" 500 2_500 739_617 none
    ∷ rate "claude-sonnet-5" 200 1_000 739_617 (some 739_860)
    ∷ rate "claude-sonnet-5" 300 1_500 739_860 none
    ∷ rate "claude-haiku-4-5" 100 500 739_617 none
    ∷ rate "google/gemma-4-26b-a4b-it:free" 0 0 739_709 none
    ∷ rate "google/gemma-4-26b-a4b-it" 10 30 739_709 none
    ∷ rate "liquid/lfm-2.5-2.6b:free" 0 0 739_851 none
    ∷ rate "openai/gpt-5.6-luna" 20 120 739_851 none
    ∷ rate "openai/text-embedding-3-small@512" 2 0 739_554 none
    ∷ []

unfoldable pub find_rate : List Rate → String → ℕ → Option Rate
unfolding covers
find_rate [] model day = none
find_rate (r ∷ rs) model day =
    let rest = find_rate rs model day in if r.model == model && covers r day then some r else rest

-- `none` is `UnknownRate`.
unfoldable pub rate_for : String → ℕ → Option Rate
unfolding find_rate
rate_for model day = find_rate rates model day

-- The cost in units of 1e-10 dollars: the multipliers are hundredths, a rate is in cents, and a
-- million of tokens is 1e6.
unfoldable pub exact_cost : TokenUsage → Rate → ℕ
exact_cost u r =
    u.input_tokens * r.input_per_mtok * 100
    + u.cache_write_tokens * r.input_per_mtok * 125
    + u.cache_read_tokens * r.input_per_mtok * 10
    + u.output_tokens * r.output_per_mtok * 100

-- `quantize(Decimal("0.000001"))`: to the nearest millionth, and from the middle to the even one.
unfoldable pub quantize : ℕ → ℕ
quantize n =
    let q = n / 10_000 in
    let rest = n % 10_000 in
    if ltb rest 5_000 then q else if ltb 5_000 rest then q + 1 else q + q % 2

price_at : TokenUsage → Option Rate → Option ℕ
unfolding exact_cost quantize
price_at u none = none
price_at u (some r) = some (quantize (exact_cost u r))

unfoldable pub price : TokenUsage → String → ℕ → Option ℕ
unfolding price_at rate_for
price u model day = price_at u (rate_for model day)

-- `CostLedger._by_run`
abbrev pub CostLedger : Type 0
CostLedger = Dict String ℕ

unfoldable pub record_cost : CostLedger → String → ℕ → CostLedger × ℕ
record_cost ledger run_id cost =
    let running = Dict.get_or ledger run_id 0 + cost in (Dict.put ledger run_id running, running)

sum_values : CostLedger → ℕ
sum_values [] = 0
sum_values ((run_id, cost) ∷ rest) = cost + sum_values rest

unfoldable pub total : CostLedger → Option String → ℕ
unfolding sum_values
total ledger none = sum_values ledger
total ledger (some run_id) = Dict.get_or ledger run_id 0
