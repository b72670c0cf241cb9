-- ===== src/Eval/Examples.antt =====
-- An answer with one citation is graded.
use cite_delta_rag.Prelude.{◌≡◌, refl, true, false, none, some, [], ◌∷◌}
use cite_delta_rag.Prelude.Int.{pos, int_eq, beq_ℤ}
use cite_delta_rag.Prelude.Dict
use cite_delta_rag.Text.{codes, strip, split, join, contains}
use cite_delta_rag.Answer.Models.{Citation, RetrievalTrace, Answer, answered}
use cite_delta_rag.Answer.Rerank.{passthrough}
use cite_delta_rag.Answer.Gate.{pre_flight}
use cite_delta_rag.Answer.Validator.{ok, validate_citations, check_ref, normalize}
use cite_delta_rag.Answer.Payload.{
  Json, bool, num, text, arr, obj, nil, cons, end, field, got, Payload, read_payload,
}
use cite_delta_rag.Answer.Service.{
  AnswerService, Call, CompletionResponse, end_turn, responded, returned, answer, generate, judge,
  conclude, verify, index_by_id, quotes_by_id, attach, was_refused, or_empty,
}
use cite_delta_rag.Answer.Service.Paths.{shown}
use cite_delta_rag.Eval.Graders.{citations_hold, matches}
use cite_delta_rag.Eval.Graders.Promise.{answer_citations_hold}

abbrev passage : Citation
passage = record {
  chunk_id = pos 4;
  citation_path = codes "8 CFR 214.2(f)";
  effective_from = codes "2016-12-23";
  effective_to = none;
  text = codes "Duration of status.";
  rrf_score = 30_000_000_000;
  ranks = [];
  quote = [];
}

abbrev reply : Json
reply = obj (
    field "out_of_scope" (bool false) (
      field "sufficient" (bool true) (
        field "answer" (text (codes "Yes.")) (
          field "citations"
            (arr (
              cons (obj (field "id" (num (pos 4)) (field "quote" (text (codes "of status")) end)))
                nil))
            end))))

abbrev response : CompletionResponse
response = record { text = codes "{}"; stop_reason = end_turn; cost_usd = 9 }

abbrev service : AnswerService
service = record {
  complete = λ r. responded response;
  model = codes "model";
  max_tokens = 800;
  rerank = passthrough;
  is_greeting = λ query. false;
  library = record { loads = λ t. some reply; repr = λ v. []; parse_int = λ t. none };
}

abbrev trace : RetrievalTrace
trace = record {
  query = codes "Until when?";
  as_of = codes "2019-06-01";
  candidates_lexical = 1;
  candidates_vector = 1;
  fused = 1;
  hits = record { chunk_id = pos 4; score = 30_000_000_000; ranks = [] } ∷ [];
}

abbrev call : Call
call = record {
  trace = trace;
  candidates = passage ∷ [];
  admissible = record { ids = pos 4 ∷ []; label = codes "2019-06-01"; corpus_size = 1 };
  run_id = codes "eval";
  k = 8;
  elapsed = 1;
}

abbrev result : Answer
result = record {
  query = trace.query;
  as_of = trace.as_of;
  text = codes "Yes.";
  citations = record passage { quote = codes "of status" } ∷ [];
  trace = trace;
  cost_usd = 9;
  latency_ms = 1;
}

abbrev payload : Payload
payload = record {
  out_of_scope = false;
  sufficient = true;
  answer = codes "Yes.";
  refs = record { chunk_id = pos 4; quote = codes "of status" } ∷ [];
}

payload_read : read_payload service.library (codes "{}") ≡ got payload
unfolding read_payload
payload_read = refl

answered_run : (answer service call).1 ≡ returned (answered result)
unfolding answer pre_flight generate judge read_payload conclude strip verify ok validate_citations
    check_ref Dict.get index_by_id Dict.put attach quotes_by_id was_refused beq_ℤ normalize split
    join contains or_empty
answered_run = refl

answer_citations_hold_example : citations_hold (answered result) (shown service call) ≡ true
answer_citations_hold_example =
    answer_citations_hold service call result response payload refl payload_read (refl, tt)
      answered_run

coarser_matches : matches (codes "8 CFR 214.2(f)") (codes "214.2(f)(5)") ≡ true
unfolding matches
coarser_matches = refl
