-- ===== src/Answer/Service.antt =====
-- answer/service.py, `AnswerService.answer`: retrieve, gate, generate, validate. The messages to
-- `on_phase` and the request to the model come back in order as events.
pub mod Citations
pub mod Paths
pub mod Guarantee
pub mod Overflow
pub mod Spending
pub mod Duplicates
mod Examples
use cite_delta_rag.Prelude.{
  ℕ, Bool, true, false, not, ◌||◌, Option, none, some, List, [], ◌∷◌, ◌++◌, if◌then◌else◌, length,
  elem,
}
use cite_delta_rag.Prelude.Int.{ℤ, pos, int_eq}
use cite_delta_rag.Prelude.Dict.{Dict}
use cite_delta_rag.Prelude.Dict
use cite_delta_rag.Text.{Text, codes, strip, truthy}
use cite_delta_rag.Text.Decimal.{show}
use cite_delta_rag.Temporal.{AdmissibleSet}
use cite_delta_rag.Answer.Models.{
  RefusalReason, greeting, out_of_scope, insufficient_evidence, fabricated_citation,
  provider_refused, malformed_response, Citation, RetrievalTrace, AnswerResult, answered, refused,
}
use cite_delta_rag.Answer.Gate.{GateVerdict, passed, stopped, pre_flight}
use cite_delta_rag.Answer.Prompt.{build_user_message}
use cite_delta_rag.Answer.Payload.{
  Library, Attempt, got, malformed, overflowed, Payload, read_payload,
}
use cite_delta_rag.Answer.Validator.{CitedRef, Evidence, ok, validate_citations}

-- substrate/llm: a request (the system prompt and the schema are constants of its caller), and what
-- a call comes to.
pub record CompletionRequest : Type 0 where
  pub model : Text
  pub user : Text
  pub max_tokens : ℕ
  pub run_id : Text

pub data StopReason : Type 0 where
  end_turn max_tokens refusal other : StopReason

pub record CompletionResponse : Type 0 where
  pub text : Text
  pub stop_reason : StopReason
  pub cost_usd : ℕ

unfoldable pub was_refused : CompletionResponse → Bool
was_refused r = elim r.stop_reason [ refusal ↦ true | _ ↦ false ]

-- `unavailable` is a `CompletionError`.
pub data Outcome : Type 0 where
  unavailable : Outcome
  responded : CompletionResponse → Outcome

-- The service's fields and collaborators.
pub record AnswerService : Type 0 where
  pub complete : CompletionRequest → Outcome
  pub model : Text
  pub max_tokens : ℕ
  pub rerank : Text → List Citation → ℕ → List Citation
  pub is_greeting : Text → Bool
  pub library : Library

-- The arguments of `answer`, and the clock's reading when it returns.
pub record Call : Type 0 where
  pub trace : RetrievalTrace
  pub candidates : List Citation
  pub admissible : AdmissibleSet
  pub run_id : Text
  pub k : ℕ
  pub elapsed : ℕ

pub data Event : Type 0 where
  phase : Text → Event
  requested : CompletionRequest → Event

-- `provider_error` is the `CompletionError` let through, `key_error` a missing `by_id[i]`, and `overflow_error`
-- the exception of `int` that the reading of a response does not catch.
pub data Run : Type 0 where
  returned : AnswerResult → Run
  provider_error : Run
  key_error : Run
  overflow_error : Run

pub greeting_reply : Text
greeting_reply =
    codes
      "Doing well — ready when you are. I answer questions about **8 CFR Part 214**, the rules for nonimmigrant classes: F-1 student status, practical training, transfers, grace periods. I can answer as the regulation stood on any date since December 2016, so if you filed something in 2019, ask me about 2019."

unfoldable pub greet : Call → Run
greet c = returned (
    refused (record {
      query = c.trace.query;
      as_of = c.trace.as_of;
      reason = greeting;
      detail = greeting_reply;
      trace = none;
      cost_usd = 0;
      latency_ms = c.elapsed;
    }))

-- A refusal with the trace; `cost` is 0 at the gate.
unfoldable pub refuse : Call → ℕ → RefusalReason → Text → Run
refuse c cost reason detail = returned (
    refused (record {
      query = c.trace.query;
      as_of = c.trace.as_of;
      reason = reason;
      detail = detail;
      trace = some c.trace;
      cost_usd = cost;
      latency_ms = c.elapsed;
    }))

-- `{c.chunk_id: c for c in shown}`
unfoldable pub index_by_id : List Citation → Dict ℤ Citation → Dict ℤ Citation
index_by_id [] d = d
index_by_id (c ∷ cs) d = index_by_id cs (Dict.put d c.chunk_id c)

-- `{r.chunk_id: r.quote for r in refs}`
unfoldable pub quotes_by_id : List CitedRef → Dict ℤ Text → Dict ℤ Text
quotes_by_id [] d = d
quotes_by_id (r ∷ rs) d = quotes_by_id rs (Dict.put d r.chunk_id r.quote)

unfoldable pub or_empty : Option Text → Text
or_empty none = []
or_empty (some t) = t

-- `replace(by_id[i], quote=quotes.get(i, ""))`
with_quote : Option Text → Option Citation → Option Citation
unfolding or_empty
with_quote q none = none
with_quote q (some c) = some (record c { quote = or_empty q })

and_then : Option Citation → Option (List Citation) → Option (List Citation)
and_then none rest = none
and_then (some c) none = none
and_then (some c) (some cs) = some (c ∷ cs)

unfoldable pub attach : Dict ℤ Citation → Dict ℤ Text → List ℤ → Option (List Citation)
unfolding with_quote and_then
attach by_id quotes [] = some []
attach by_id quotes (i ∷ is) =
    and_then (with_quote (Dict.get quotes i) (Dict.get by_id i)) (attach by_id quotes is)

pub fabricated_detail : Text
fabricated_detail =
    codes "The generated answer cited a source that could not be verified, so it was discarded."

pub uncovered_detail : Text → Text
uncovered_detail as_of =
    codes "The provisions in force on " ++ (as_of ++ codes " do not cover this question.")

deliver : Call → ℕ → Payload → Option (List Citation) → Run
deliver c cost p none = key_error
deliver c cost p (some citations) = returned (
    answered (record {
      query = c.trace.query;
      as_of = c.trace.as_of;
      text = p.answer;
      citations = citations;
      trace = c.trace;
      cost_usd = cost;
      latency_ms = c.elapsed;
    }))

abbrev evidence : Call → List Citation → Evidence
evidence c shown = record {
  shown = index_by_id shown [];
  in_force = c.admissible;
  corpus_ids = none;
}

-- From the validation on.
unfoldable pub verify : Call → List Citation → ℕ → Payload → Run
unfolding deliver
verify c shown cost p =
    let result = validate_citations p.refs (evidence c shown) in
    if not (ok result)
    then refuse c cost fabricated_citation fabricated_detail
    else deliver c cost p (attach (index_by_id shown []) (quotes_by_id p.refs []) result.cited)

verifying : Payload → Event
verifying p = phase (codes "Verifying " ++ (show (pos (length p.refs)) ++ codes " citations"))

-- From a payload that was read.
unfoldable pub conclude : Call → List Citation → ℕ → Payload → List Event × Run
unfolding verifying
conclude c shown cost p =
    if p.out_of_scope
    then ([], refuse c cost out_of_scope (codes "That question is outside the regulation I cover."))
    else if not p.sufficient || not (truthy (strip p.answer))
    then ([], refuse c cost insufficient_evidence (uncovered_detail c.trace.as_of))
    else (verifying p ∷ [], verify c shown cost p)

read : Call → List Citation → ℕ → Attempt Payload → List Event × Run
read c shown cost malformed =
    ([], refuse c cost malformed_response (codes "The model's response could not be read."))
read c shown cost overflowed = ([], overflow_error)
read c shown cost (got p) = conclude c shown cost p

unfoldable pub judge : AnswerService → Call → List Citation → Outcome → List Event × Run
unfolding read was_refused
judge svc c shown unavailable = ([], provider_error)
judge svc c shown (responded r) =
    if was_refused r
    then (
      [],
      refuse c r.cost_usd provider_refused (codes "The model declined to answer this question."),
    )
    else read c shown r.cost_usd (read_payload svc.library r.text)

abbrev pub request : AnswerService → Call → List Citation → CompletionRequest
request svc c shown = record {
  model = svc.model;
  user = build_user_message c.trace.query c.trace.as_of shown;
  max_tokens = svc.max_tokens;
  run_id = c.run_id;
}

reading : Call → List Citation → Event
reading c shown = phase (
    codes "Reading "
    ++ (show (pos (length shown)) ++ (codes " passages in force on " ++ c.trace.as_of)))

-- From the reranker on.
unfoldable pub generate : AnswerService → Call → List Event × Run
unfolding reading
generate svc c =
    let shown = svc.rerank c.trace.query c.candidates c.k in
    let (events, run) = judge svc c shown (svc.complete (request svc c shown)) in
    (
      reading c shown
          ∷ phase (codes "Drafting the answer")
          ∷ requested (request svc c shown)
          ∷ events,
      run,
    )

gated : AnswerService → Call → GateVerdict → List Event × Run
gated svc c passed = generate svc c
gated svc c (stopped reason detail) = ([], refuse c 0 reason detail)

unfoldable pub answer : AnswerService → Call → List Event × Run
unfolding gated
answer svc c =
    if svc.is_greeting c.trace.query then ([], greet c) else gated svc c (pre_flight c.trace)
