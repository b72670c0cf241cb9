-- ===== src/Answer/Service/Spending.antt =====
-- What a run asks of the model, and what it costs.
use cite_delta_rag.Prelude.{
  ◌≡◌, refl, subst, ap, ◌≢◌, ◌⊎◌, inl, inr, ℕ, true, false, Option, none, some, List, [], ◌∷◌,
  arith, Bool-cases,
}
use cite_delta_rag.Prelude.Int.{int_eq}
use cite_delta_rag.Prelude.Dict
use cite_delta_rag.Answer.Models.{Citation, answered, refused}
use cite_delta_rag.Answer.Gate.{GateVerdict, passed, stopped, pre_flight}
use cite_delta_rag.Answer.Validator.{ok, validate_citations}
use cite_delta_rag.Answer.Payload.{Library, Attempt-cases, Payload, read_payload}
use cite_delta_rag.Answer.Service.{
  AnswerService, Call, CompletionRequest, Outcome, unavailable, responded, Event, phase, requested,
  Run, returned, provider_error, key_error, overflow_error, was_refused, request, verify, evidence,
  index_by_id, quotes_by_id, attach, answer, refuse, conclude, judge, generate, greet, gated,
}
use cite_delta_rag.Answer.Service.Citations.{attach-total, cited, cited-IsSupported}
use cite_delta_rag.Answer.Service.Paths.{shown}
use cite_delta_rag.Answer.Service.Overflow.{HasInfiniteId, read_payload-overflowed}

-- The requests among the events.
abbrev pub requests : List Event → List CompletionRequest
requests [] = []
requests (phase t ∷ es) = requests es
requests (requested r ∷ es) = r ∷ requests es

-- The cost that a run reports; none if it raised.
abbrev pub cost_of : Run → Option ℕ
cost_of (returned (answered a)) = some a.cost_usd
cost_of (returned (refused r)) = some r.cost_usd
cost_of provider_error = none
cost_of key_error = none
cost_of overflow_error = none

-- After a passed validation every cited id is indexed, so nothing is missing.
attach_verified :
    (c : Call) (passages : List Citation) (p : Payload)
    → ok (validate_citations p.refs (evidence c passages)) ≡ true
    → (cs : List Citation) × (attach
          (index_by_id passages [])
          (quotes_by_id p.refs [])
          (cited c passages 0 p)
        ≡ some cs)
attach_verified c passages p h =
    attach-total (index_by_id passages []) (quotes_by_id p.refs []) (cited c passages 0 p) λ i m.
      let (ref, _, same, supported) = cited-IsSupported c passages 0 p i h m in
      (
        supported.source,
        subst (λ j. Dict.get (index_by_id passages []) j ≡ some supported.source) same
            supported.was_shown,
      )

cost_of-verify :
    (c : Call) (passages : List Citation) (cost : ℕ) (p : Payload)
    → cost_of (verify c passages cost p) ≡ some cost
unfolding verify refuse
cost_of-verify c passages cost p =
    elim (Bool-cases (ok (validate_citations p.refs (evidence c passages)))) [
      | inl e ↦ let (cs, f) = attach_verified c passages p e in ground (arith, e, f)
      | inr e ↦ ground (arith, e)
    ]

cost_of-conclude :
    (c : Call) (passages : List Citation) (cost : ℕ) (p : Payload)
    → (cost_of (conclude c passages cost p).1 ≡ some cost)
      × (requests (conclude c passages cost p).0 ≡ [])
unfolding conclude refuse
cost_of-conclude c passages cost p = ground (arith, cost_of-verify c passages cost p)

-- How a request ended.
abbrev pub Charged : Library → Outcome → Run → Type 0
Charged lib unavailable run = run ≡ provider_error
Charged lib (responded r) run =
    (cost_of run ≡ some r.cost_usd)
    ⊎ ((run ≡ overflow_error) × (was_refused r ≡ false) × HasInfiniteId lib r.text)

Charged-judge :
    (svc : AnswerService) (c : Call) (passages : List Citation) (o : Outcome)
    → Charged svc.library o (judge svc c passages o).1 × (requests (judge svc c passages o).0 ≡ [])
unfolding judge refuse
Charged-judge svc c passages unavailable = (refl, refl)
Charged-judge svc c passages (responded r) = elim (Bool-cases (was_refused r)) [
  | inl declined ↦ rw (declined, judge) (inl refl, refl)
  | inr kept ↦ elim (Attempt-cases (read_payload svc.library r.text)) [
    | inl (p, e) ↦
        let (cost, quiet) = cost_of-conclude c passages r.cost_usd p in
        rw (kept, e, judge) (inl cost, quiet)
    | inr (inl e) ↦ rw (kept, e, judge) (inl refl, refl)
    | inr (inr e) ↦
        rw (kept, e, judge) (inr (refl, refl, read_payload-overflowed svc.library r.text e), refl)
  ]
]

Charged-generate :
    (svc : AnswerService) (c : Call)
    → (requests (generate svc c).0 ≡ request svc c (shown svc c) ∷ [])
      × Charged svc.library (svc.complete (request svc c (shown svc c))) (generate svc c).1
unfolding generate
Charged-generate svc c =
    let (charged, none_more) =
      Charged-judge svc c (shown svc c) (svc.complete (request svc c (shown svc c))) in
    (ap (◌∷◌ (request svc c (shown svc c))) none_more, charged)

GateVerdict-cases :
    (v : GateVerdict)
    → (v ≡ passed)
      ⊎ ((v ≢ passed)
          × ((svc : AnswerService) (c : Call)
              → (requests (gated svc c v).0 ≡ []) × (cost_of (gated svc c v).1 ≡ some 0)))
unfolding gated refuse
GateVerdict-cases passed = inl refl
GateVerdict-cases (stopped reason detail) = inr (λ e. cc, λ svc c. (refl, refl))

abbrev pub IsGated : AnswerService → Call → Type 0
IsGated svc c = (svc.is_greeting c.trace.query ≡ true) ⊎ (pre_flight c.trace ≢ passed)

-- A greeting or a query that the gate stops costs nothing and asks nothing of the model. Any other
-- run makes exactly one request, and then fails if the provider is unavailable, and otherwise
-- returns an answer or a refusal that reports the response's cost, unless the id of a citation in the
-- response is an infinite number, when it may raise an OverflowError.
pub answer_spending :
    (svc : AnswerService) (c : Call)
    → (IsGated svc c × (requests (answer svc c).0 ≡ []) × (cost_of (answer svc c).1 ≡ some 0))
      ⊎ ((svc.is_greeting c.trace.query ≡ false)
          × (pre_flight c.trace ≡ passed)
          × (requests (answer svc c).0 ≡ request svc c (shown svc c) ∷ [])
          × Charged svc.library (svc.complete (request svc c (shown svc c))) (answer svc c).1)
unfolding answer greet gated
answer_spending svc c = elim (Bool-cases (svc.is_greeting c.trace.query)) [
  | inl e ↦ inl (inl e, rw (e, answer), rw (e, answer))
  | inr e ↦ elim (GateVerdict-cases (pre_flight c.trace)) [
    | inl f ↦
        let (asked, charged) = Charged-generate svc c in
        inr (e, f, rw (e, f, answer) asked, rw (e, f, answer) charged)
    | inr (f, free) ↦
        let (asked, cost) = free svc c in inl (inr f, rw (e, answer) asked, rw (e, answer) cost)
  ]
]
