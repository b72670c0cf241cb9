-- ===== src/Substrate/Adapters/Billing.antt =====
-- What `complete` of the two adapters promises to the service: retries, and the cost of the reply.
use cite_delta_rag.Prelude.{
  ℕ, suc, ◌⊎◌, ◌+◌, ◌≤◌, ◌<◌, ◌≡◌, refl, ap, ◌∙◌, String, true, false, none, some, Option-cases, [],
  inl, inr, arith, if◌then◌else◌, nat_eq, string_eq, ◌==◌, ==_refl,
}
use cite_delta_rag.Prelude.Dict
use cite_delta_rag.Prelude.Dict.{get-put}
use cite_delta_rag.Answer.Service.{StopReason}
use cite_delta_rag.Substrate.Pricing.{TokenUsage, price, CostLedger, record_cost, total}
use cite_delta_rag.Substrate.Adapters.{
  Reaction, retryable, replied, Completion, completed, completion_error, Trail, attempts, priced,
  is_refusal, stop_from,
}
use cite_delta_rag.Substrate.Adapters.Retries.{
  calls, spaced, attempts_exhausted, attempts_replied, attempts_bounded,
}
use cite_delta_rag.Substrate.Adapters.Anthropic
use cite_delta_rag.Substrate.Adapters.Anthropic.{Message}
use cite_delta_rag.Substrate.Adapters.OpenRouter
use cite_delta_rag.Substrate.Adapters.OpenRouter.{Reply, Post, transport_error, status}
use cite_delta_rag.Text.{codes}

-- A reply that is priced ends in a completion of that cost, recorded once for the run; one without a
-- rate in the exception of `price`, with nothing recorded.
pub record IsBilled (ledger : CostLedger) (run_id : String) (usage : TokenUsage) (stop : StopReason)
    (cost : ℕ) (t : Trail) : Type 0 where
  pub made : Completion
  pub ends : t.ending ≡ completed made
  pub costs : made.cost_usd ≡ cost
  pub uses : made.usage ≡ usage
  pub stops : made.stop_reason ≡ stop
  pub says_nothing : is_refusal stop ≡ true → made.text ≡ []
  pub recorded : total t.ledger (some run_id) ≡ total ledger (some run_id) + cost
  pub others :
      (other_run : String)
      → (run_id == other_run) ≡ false
      → total t.ledger (some other_run) ≡ total ledger (some other_run)

record_adds :
    (ledger : CostLedger) (run_id : String) (cost : ℕ)
    → total (record_cost ledger run_id cost).0 (some run_id) ≡ total ledger (some run_id) + cost
unfolding record_cost total
record_adds ledger run_id cost =
    ground
      (arith, get-put ledger run_id run_id (Dict.get_or ledger run_id 0 + cost), ==_refl run_id)

record_keeps :
    (ledger : CostLedger) (run_id other_run : String) (cost : ℕ)
    → (run_id == other_run) ≡ false
    → total (record_cost ledger run_id cost).0 (some other_run) ≡ total ledger (some other_run)
unfolding record_cost total
record_keeps ledger run_id other_run cost e =
    ground (arith, get-put ledger run_id other_run (Dict.get_or ledger run_id 0 + cost), e)

anthropic-IsBilled :
    (ledger : CostLedger) (run_id : String) (when : ℕ) (model : String) (raw : Message) (cost : ℕ)
    → price (Anthropic.usage_of raw) model when ≡ some cost
    → IsBilled ledger run_id
        (Anthropic.usage_of raw)
        (stop_from Anthropic.stop_reasons raw.stop_reason)
        cost
        (Anthropic.to_response ledger run_id when model raw)
unfolding Anthropic.to_response priced
anthropic-IsBilled ledger run_id when model raw cost e =
    let stop = stop_from Anthropic.stop_reasons raw.stop_reason in
    rw (e, Anthropic.to_response, priced)
      (record {
        made = record {
          text = if is_refusal stop then [] else Anthropic.text_of raw.content;
          usage = Anthropic.usage_of raw;
          stop_reason = stop;
          model = raw.model;
          refusal_category = if is_refusal stop then raw.category else none;
          cost_usd = cost;
        };
        ends = refl;
        costs = refl;
        uses = refl;
        stops = refl;
        says_nothing = λ h. ground (arith, h);
        recorded = record_adds ledger run_id cost;
        others = λ o d. record_keeps ledger run_id o cost d;
      })

openrouter-IsBilled :
    (ledger : CostLedger) (run_id : String) (when : ℕ) (model : String) (raw : Reply) (cost : ℕ)
    → price (OpenRouter.usage_of raw) model when ≡ some cost
    → IsBilled ledger run_id
        (OpenRouter.usage_of raw)
        (stop_from OpenRouter.stop_reasons raw.finish_reason)
        cost
        (OpenRouter.to_response ledger run_id when model raw)
unfolding OpenRouter.to_response priced
openrouter-IsBilled ledger run_id when model raw cost e =
    let stop = stop_from OpenRouter.stop_reasons raw.finish_reason in
    rw (e, OpenRouter.to_response, priced)
      (record {
        made = record {
          text = if is_refusal stop then [] else OpenRouter.or_empty raw.content;
          usage = OpenRouter.usage_of raw;
          stop_reason = stop;
          model = OpenRouter.model_or raw.model (codes model);
          refusal_category = none;
          cost_usd = cost;
        };
        ends = refl;
        costs = refl;
        uses = refl;
        stops = refl;
        says_nothing = λ h. ground (arith, h);
        recorded = record_adds ledger run_id cost;
        others = λ o d. record_keeps ledger run_id o cost d;
      })

-- A status below 400 is no failure.
accepted :
    (code : ℕ) (raw : Reply) → code < 400 → OpenRouter.reaction (status code raw) ≡ replied raw
unfolding OpenRouter.reaction
accepted code raw h = ground (arith, h)

-- A trail that ends as another does, with the same ledger, is billed as it is.
moved :
    {ledger : CostLedger} {run_id : String} {usage : TokenUsage} {stop : StopReason} {cost : ℕ}
    (t u : Trail)
    → t.ending ≡ u.ending
    → t.ledger ≡ u.ledger
    → IsBilled ledger run_id usage stop cost u
    → IsBilled ledger run_id usage stop cost t
moved {run_id} t u e l b = record {
  made = b.made;
  ends = e ∙ b.ends;
  costs = b.costs;
  uses = b.uses;
  stops = b.stops;
  says_nothing = b.says_nothing;
  recorded = ap (λ g. total g (some run_id)) l ∙ b.recorded;
  others = λ o d. ap (λ g. total g (some o)) l ∙ b.others o d;
}

anthropic_quiet :
    (ledger : CostLedger) (run_id : String) (when : ℕ) (model : String) (raw : Message)
    → calls (Anthropic.to_response ledger run_id when model raw).events ≡ 0
unfolding Anthropic.to_response priced
anthropic_quiet ledger run_id when model raw =
    elim (Option-cases (price (Anthropic.usage_of raw) model when)) [
      | inl e ↦ rw (e, Anthropic.to_response, priced) refl
      | inr (cost, e) ↦ rw (e, Anthropic.to_response, priced) refl
    ]

openrouter_quiet :
    (ledger : CostLedger) (run_id : String) (when : ℕ) (model : String) (raw : Reply)
    → calls (OpenRouter.to_response ledger run_id when model raw).events ≡ 0
unfolding OpenRouter.to_response priced
openrouter_quiet ledger run_id when model raw =
    elim (Option-cases (price (OpenRouter.usage_of raw) model when)) [
      | inl e ↦ rw (e, OpenRouter.to_response, priced) refl
      | inr (cost, e) ↦ rw (e, OpenRouter.to_response, priced) refl
    ]

-- If Anthropic's first k calls fail in a way that can be repeated and the next replies, within the
-- attempts and at a known rate, it is called k + 1 times, and the completion is billed once at the rate
-- of the model asked for.
pub anthropic_replied :
    (react : ℕ → Reaction Message) (delay : ℕ → ℕ) (ledger : CostLedger) (max_attempts : ℕ)
    (run_id : String) (when : ℕ) (model : String) (k cost : ℕ) (raw : Message)
    → ((i : ℕ) → i < k → react (1 + i) ≡ retryable)
    → react (1 + k) ≡ replied raw
    → k < max_attempts
    → price (Anthropic.usage_of raw) model when ≡ some cost
    → let t = Anthropic.complete react delay ledger max_attempts run_id when model in
      (calls t.events ≡ suc k)
      × IsBilled ledger run_id
          (Anthropic.usage_of raw)
          (stop_from Anthropic.stop_reasons raw.stop_reason)
          cost
          t
unfolding Anthropic.complete
anthropic_replied react delay ledger max_attempts run_id when model k cost raw h r l e =
    let respond = Anthropic.to_response ledger run_id when model in
    let (ends, books, counted, paused) =
      attempts_replied react delay respond ledger 1 k max_attempts raw h r l in
    (
      omega (arith, counted, anthropic_quiet ledger run_id when model raw),
      moved (attempts react delay respond ledger 1 max_attempts) (respond raw) ends books
          (anthropic-IsBilled ledger run_id when model raw cost e),
    )

-- OpenRouter's endpoint is called at most max_attempts times, whatever it answers.
pub openrouter_bounded :
    (post : ℕ → Post) (delay : ℕ → ℕ) (ledger : CostLedger) (max_attempts : ℕ) (run_id : String)
    (when : ℕ) (model : String)
    → calls (OpenRouter.complete post delay ledger max_attempts run_id when model).events
      ≤ max_attempts
unfolding OpenRouter.complete
openrouter_bounded post delay ledger max_attempts run_id when model =
    attempts_bounded (λ n. OpenRouter.reaction (post n)) delay
      (OpenRouter.to_response ledger run_id when model) ledger
      (openrouter_quiet ledger run_id when model) 1 max_attempts

-- A transport error, or one of the statuses of an endpoint that is overloaded or down.
abbrev pub IsUnavailable : Post → Type 0
IsUnavailable transport_error = Unit {0}
IsUnavailable (status code raw) =
    (code ≡ 429) ⊎ ((code ≡ 500) ⊎ ((code ≡ 502) ⊎ ((code ≡ 503) ⊎ (code ≡ 504))))

unavailable_retried : (p : Post) → IsUnavailable p → OpenRouter.reaction p ≡ retryable
unfolding OpenRouter.reaction
unavailable_retried transport_error u = refl
unavailable_retried (status code raw) u = ground (arith, u)

-- If each attempt at OpenRouter ends in a transport error or in a status 429, 500, 502, 503 or 504, it
-- is called max_attempts times with the attempt's delay slept between each two, and the end is a
-- CompletionError with nothing recorded.
pub openrouter_exhausted :
    (post : ℕ → Post) (delay : ℕ → ℕ) (ledger : CostLedger) (max_attempts : ℕ) (run_id : String)
    (when : ℕ) (model : String)
    → ((i : ℕ) → i < max_attempts → IsUnavailable (post (1 + i)))
    → let t = OpenRouter.complete post delay ledger max_attempts run_id when model in
      (t.ending ≡ completion_error) × (t.ledger ≡ ledger) × (t.events ≡ spaced delay 1 max_attempts)
unfolding OpenRouter.complete
openrouter_exhausted post delay ledger max_attempts run_id when model h =
    attempts_exhausted (λ n. OpenRouter.reaction (post n)) delay
      (OpenRouter.to_response ledger run_id when model) ledger 1 max_attempts
      (λ i l. unavailable_retried (post (1 + i)) (h i l))

-- If OpenRouter's first k calls fail in a way that can be repeated and the next has a status below 400,
-- within the attempts and at a known rate, it is called k + 1 times and the completion is billed once.
pub openrouter_replied :
    (post : ℕ → Post) (delay : ℕ → ℕ) (ledger : CostLedger) (max_attempts : ℕ) (run_id : String)
    (when : ℕ) (model : String) (k cost code : ℕ) (raw : Reply)
    → ((i : ℕ) → i < k → OpenRouter.reaction (post (1 + i)) ≡ retryable)
    → post (1 + k) ≡ status code raw
    → code < 400
    → k < max_attempts
    → price (OpenRouter.usage_of raw) model when ≡ some cost
    → let t = OpenRouter.complete post delay ledger max_attempts run_id when model in
      (calls t.events ≡ suc k)
      × IsBilled ledger run_id
          (OpenRouter.usage_of raw)
          (stop_from OpenRouter.stop_reasons raw.finish_reason)
          cost
          t
unfolding OpenRouter.complete OpenRouter.reaction
openrouter_replied post delay ledger max_attempts run_id when model k cost code raw h r c l e =
    let react = λ (n : ℕ). OpenRouter.reaction (post n) in
    let respond = OpenRouter.to_response ledger run_id when model in
    let (ends, books, counted, paused) =
      attempts_replied react delay respond ledger 1 k max_attempts raw h
        (ap OpenRouter.reaction r ∙ accepted code raw c) l in
    (
      omega (arith, counted, openrouter_quiet ledger run_id when model raw),
      moved (attempts react delay respond ledger 1 max_attempts) (respond raw) ends books
          (openrouter-IsBilled ledger run_id when model raw cost e),
    )
