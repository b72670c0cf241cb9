-- ===== src/Answer/Service/Paths.antt =====
-- The branches of `answer`: which run ends how, and what it spends.
use cite_delta_rag.Prelude.{◌≡◌, refl, inl, inr, true, false, some, List, [], arith, ℕ}
use cite_delta_rag.Prelude.Int.{int_eq}
use cite_delta_rag.Text.{strip, truthy}
use cite_delta_rag.Answer.Models.{Citation, Answer, answered}
use cite_delta_rag.Answer.Gate.{passed, pre_flight}
use cite_delta_rag.Answer.Payload.{got, Attempt-cases, Payload, read_payload}
use cite_delta_rag.Answer.Validator.{CitedRef, ok, validate_citations}
use cite_delta_rag.Answer.Validator.Sound.{FirstUse, IsSupported, validate_citations-ok_iff}
use cite_delta_rag.Answer.Service.Citations.{cited, verify-answered}
use cite_delta_rag.Answer.Service.{
  AnswerService, Call, CompletionResponse, Outcome, unavailable, responded, returned, was_refused,
  refuse, greet, request, verify, evidence, attach, index_by_id, quotes_by_id, conclude, judge,
  generate, answer,
}

abbrev pub shown : AnswerService → Call → List Citation
shown svc c = svc.rerank c.trace.query c.candidates c.k

-- What a run that ends in an answer has behind it.
pub record Grounds (svc : AnswerService) (c : Call) (a : Answer) : Type 0 where
  pub no_greeting : svc.is_greeting c.trace.query ≡ false
  pub gate_passed : pre_flight c.trace ≡ passed
  pub response : CompletionResponse
  pub called : svc.complete (request svc c (shown svc c)) ≡ responded response
  pub not_refused : was_refused response ≡ false
  pub payload : Payload
  pub readable : read_payload svc.library response.text ≡ got payload
  pub in_scope : payload.out_of_scope ≡ false
  pub is_sufficient : payload.sufficient ≡ true
  pub has_text : truthy (strip payload.answer) ≡ true
  pub checked : ok (validate_citations payload.refs (evidence c (shown svc c))) ≡ true
  pub supported :
      (ref : CitedRef) → FirstUse payload.refs ref → IsSupported (evidence c (shown svc c)) ref
  pub attached :
      attach
        (index_by_id (shown svc c) [])
        (quotes_by_id payload.refs [])
        (cited c (shown svc c) response.cost_usd payload)
      ≡ some a.citations
  pub says : a.text ≡ payload.answer
  pub costs : a.cost_usd ≡ response.cost_usd

verify-says :
    (c : Call) (cs : List Citation) (cost : ℕ) (p : Payload) (a : Answer)
    → verify c cs cost p ≡ returned (answered a)
    → (a.text ≡ p.answer) × (a.cost_usd ≡ cost)
unfolding verify refuse
verify-says c cs cost p a h = ground arith

conclude-answered :
    (c : Call) (cs : List Citation) (cost : ℕ) (p : Payload) (a : Answer)
    → (conclude c cs cost p).1 ≡ returned (answered a)
    → (p.out_of_scope ≡ false)
      × (p.sufficient ≡ true)
      × (truthy (strip p.answer) ≡ true)
      × (verify c cs cost p ≡ returned (answered a))
unfolding conclude refuse
conclude-answered c cs cost p a h = ground arith

judge-answered :
    (svc : AnswerService) (c : Call) (cs : List Citation) (o : Outcome) (a : Answer)
    → (judge svc c cs o).1 ≡ returned (answered a)
    → (r : CompletionResponse) × (p : Payload) × (o ≡ responded r)
      × (was_refused r ≡ false)
      × (read_payload svc.library r.text ≡ got p)
      × ((conclude c cs r.cost_usd p).1 ≡ returned (answered a))
unfolding judge refuse
judge-answered svc c cs unavailable a h = absurd (ground arith)
judge-answered svc c cs (responded r) a h = elim (Attempt-cases (read_payload svc.library r.text)) [
  | inr (inl e) ↦ absurd (ground (arith, e))
  | inr (inr e) ↦ absurd (ground (arith, e))
  | inl (p, e) ↦ (r, p, refl, ground (arith, e), e, ground (arith, e))
]

answer-generate :
    (svc : AnswerService) (c : Call) (a : Answer)
    → (answer svc c).1 ≡ returned (answered a)
    → (svc.is_greeting c.trace.query ≡ false)
      × (pre_flight c.trace ≡ passed)
      × ((generate svc c).1 ≡ returned (answered a))
unfolding answer greet refuse
answer-generate svc c a h = ground arith

-- A run ends in an answer only if the query is no greeting, the gate passed, the model was called
-- and did not refuse, its response was readable, in scope, sufficient and not blank, and the first
-- reference to each id is supported by the passages that were shown. The answer has the text and the
-- cost of the response, and the citations that its references are attached to.
pub answer-Grounds :
    (svc : AnswerService) (c : Call) (a : Answer)
    → (answer svc c).1 ≡ returned (answered a)
    → Grounds svc c a
unfolding generate
answer-Grounds svc c a h =
    let (g, gate, run) = answer-generate svc c a h in
    let (r, p, called, kept, readable, done) = judge-answered svc c (shown svc c) _ a run in
    let (scope, enough, full, verified) = conclude-answered c (shown svc c) r.cost_usd p a done in
    let (checked, attached) = verify-answered c (shown svc c) r.cost_usd p a verified in
    let (says, costs) = verify-says c (shown svc c) r.cost_usd p a verified in
    record {
      no_greeting = g;
      gate_passed = gate;
      response = r;
      called = called;
      not_refused = kept;
      payload = p;
      readable = readable;
      in_scope = scope;
      is_sufficient = enough;
      has_text = full;
      checked = checked;
      supported = (validate_citations-ok_iff p.refs (evidence c (shown svc c))).0 checked;
      attached = attached;
      says = says;
      costs = costs;
    }
