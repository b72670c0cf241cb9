-- ===== src/Answer/Service/Duplicates.antt =====
-- References that repeat an id.
use cite_delta_rag.Prelude.{◌≡◌, refl, ℕ, true, false, List, [], ◌∷◌, arith, ==_refl}
use cite_delta_rag.Prelude.Int.{ℤ, int_eq}
use cite_delta_rag.Text.{Text, strip, truthy}
use cite_delta_rag.Answer.Models.{Citation, Answer, answered}
use cite_delta_rag.Answer.Gate.{passed, pre_flight}
use cite_delta_rag.Answer.Validator.{CitedRef, validate_citations, ok}
use cite_delta_rag.Answer.Validator.Sound.{IsSupported, IsSupported-check_ref}
use cite_delta_rag.Answer.Payload.{got, Payload, read_payload}
use cite_delta_rag.Answer.Service.{
  AnswerService, Call, CompletionResponse, responded, returned, was_refused, request, verify,
  conclude, judge, generate, evidence, attach, answer, or_empty, gated,
}
use cite_delta_rag.Answer.Service.Citations.{get-quotes_by_id_last}
use cite_delta_rag.Answer.Service.Paths.{shown}

abbrev pub twice : ℤ → Text → Text → List CitedRef
twice i first second =
    record { chunk_id = i; quote = first } ∷ record { chunk_id = i; quote = second } ∷ []

abbrev pub says : Text → List CitedRef → Payload
says text refs = record { out_of_scope = false; sufficient = true; answer = text; refs = refs }

-- The answer that carries `second`.
abbrev pub carries : Call → ℕ → Text → Citation → Text → Answer
carries c cost text source second = record {
  query = c.trace.query;
  as_of = c.trace.as_of;
  text = text;
  citations = record source { quote = second } ∷ [];
  trace = c.trace;
  cost_usd = cost;
  latency_ms = c.elapsed;
}

module _ (c : Call) (passages : List Citation) (cost : ℕ) (text : Text) (i : ℤ)
    (first second : Text) where
  validate-twice :
      IsSupported (evidence c passages) (record { chunk_id = i; quote = first })
      → validate_citations (twice i first second) (evidence c passages)
        ≡ record { cited = i ∷ []; failures = [] }
  unfolding validate_citations
  validate-twice s = ground (
    arith,
    IsSupported-check_ref (evidence c passages) (record { chunk_id = i; quote = first }) s,
    ==_refl i,
  )

  verify-twice :
      (s : IsSupported (evidence c passages) (record { chunk_id = i; quote = first }))
      → verify c passages cost (says text (twice i first second))
        ≡ returned (answered (carries c cost text s.source second))
  unfolding verify attach ok or_empty
  verify-twice s = ground (
    arith,
    validate-twice s,
    s.was_shown,
    get-quotes_by_id_last (record { chunk_id = i; quote = first } ∷ [])
        (record { chunk_id = i; quote = second }) [] [] refl,
  )

-- The second quote for an id is not checked: if the model supports an id with a good quote and then
-- names it again with any other text, the run answers with that text as the citation's quote.
pub answer_second_quote_unchecked :
    (svc : AnswerService) (c : Call) (r : CompletionResponse) (text : Text) (i : ℤ)
    (first second : Text)
    → svc.is_greeting c.trace.query ≡ false
    → pre_flight c.trace ≡ passed
    → svc.complete (request svc c (shown svc c)) ≡ responded r
    → was_refused r ≡ false
    → read_payload svc.library r.text ≡ got (says text (twice i first second))
    → truthy (strip text) ≡ true
    → (s : IsSupported (evidence c (shown svc c)) (record { chunk_id = i; quote = first }))
    → (answer svc c).1 ≡ returned (answered (carries c r.cost_usd text s.source second))
unfolding answer gated generate judge conclude
answer_second_quote_unchecked svc c r text i first second g gate called kept readable full s =
    rw (g, gate, called, kept, readable, full)
      (verify-twice c (shown svc c) r.cost_usd text i first second s)
