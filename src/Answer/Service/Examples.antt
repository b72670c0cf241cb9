-- ===== src/Answer/Service/Examples.antt =====
-- A question answered from one passage, with the theorems applied to it.
use cite_delta_rag.Prelude.{◌≡◌, refl, inl, true, false, none, some, List, [], ◌∷◌, In, ◌⊎◌, ◌↔◌}
use cite_delta_rag.Prelude.Int.{pos, int_eq, beq_ℤ}
use cite_delta_rag.Prelude.Dict
use cite_delta_rag.Text.{Text, codes, strip, split, join, contains, truthy}
use cite_delta_rag.Answer.Models.{Citation, RetrievalTrace, Answer, answered}
use cite_delta_rag.Answer.Rerank.{passthrough}
use cite_delta_rag.Answer.Gate.{pre_flight, passed}
use cite_delta_rag.Answer.Validator.{
  CitedRef, Evidence, ok, validate_citations, check_ref, normalize,
}
use cite_delta_rag.Answer.Payload.{
  Json, bool, num, text, arr, obj, Items, nil, cons, end, field, Library, got, Payload,
  read_payload, float, infinite,
}
use cite_delta_rag.Answer.Service.{
  AnswerService, Call, CompletionResponse, end_turn, responded, returned, answer, request, generate,
  judge, conclude, verify, index_by_id, quotes_by_id, attach, was_refused, overflow_error, or_empty,
  evidence,
}
use cite_delta_rag.Answer.Validator.Sound.{FirstUse, IsSupported, validate_citations-ok_iff}
use cite_delta_rag.Answer.Service.Paths.{shown, Grounds, answer-Grounds}
use cite_delta_rag.Answer.Service.Guarantee.{answer_cites_shown, answer_quotes_found}
use cite_delta_rag.Answer.Service.Spending.{IsGated, Charged, requests, cost_of, answer_spending}
use cite_delta_rag.Answer.Service.Duplicates.{twice, says, carries, answer_second_quote_unchecked}

abbrev passage : Citation
passage = record {
  chunk_id = pos 7;
  citation_path = codes "8 CFR 214.2(f)(5)";
  effective_from = codes "2016-12-23";
  effective_to = none;
  text = codes "The student has  60 days to depart.";
  rrf_score = 32_000_000_000;
  ranks = [];
  quote = [];
}

abbrev other_passage : Citation
other_passage = record {
  chunk_id = pos 8;
  citation_path = codes "8 CFR 214.1";
  effective_from = codes "2017-01-17";
  effective_to = some (codes "2020-05-01");
  text = codes "General requirements.";
  rrf_score = 16_000_000_000;
  ranks = [];
  quote = [];
}

abbrev cites : Text → Json
cites quote = obj (field "id" (num (pos 7)) (field "quote" (text quote) end))

abbrev reply : Items → Json
reply citations = obj (
    field "out_of_scope" (bool false) (
      field "sufficient" (bool true)
        (field "answer" (text (codes "Sixty days.")) (field "citations" (arr citations) end))))

abbrev reads : Json → Library
reads v = record { loads = λ t. some v; repr = λ u. []; parse_int = λ t. none }

abbrev response : CompletionResponse
response = record { text = codes "{}"; stop_reason = end_turn; cost_usd = 1_200 }

abbrev service : Json → AnswerService
service v = record {
  complete = λ r. responded response;
  model = codes "model";
  max_tokens = 800;
  rerank = passthrough;
  is_greeting = λ query. false;
  library = reads v;
}

abbrev trace : RetrievalTrace
trace = record {
  query = codes "How long may I stay?";
  as_of = codes "2019-06-01";
  candidates_lexical = 2;
  candidates_vector = 2;
  fused = 2;
  hits = record { chunk_id = pos 7; score = 32_000_000_000; ranks = [] } ∷ [];
}

abbrev call : Call
call = record {
  trace = trace;
  candidates = passage ∷ other_passage ∷ [];
  admissible = record { ids = pos 7 ∷ pos 8 ∷ []; label = codes "2019-06-01"; corpus_size = 2 };
  run_id = codes "run";
  k = 2;
  elapsed = 40;
}

abbrev quoted : Citation
quoted = record passage { quote = codes "60 days" }

abbrev result : Citation → Answer
result citation = record {
  query = trace.query;
  as_of = trace.as_of;
  text = codes "Sixty days.";
  citations = citation ∷ [];
  trace = trace;
  cost_usd = 1_200;
  latency_ms = 40;
}

abbrev good : Json
good = reply (cons (cites (codes "60 days")) nil)

good_run : (answer (service good) call).1 ≡ returned (answered (result quoted))
unfolding answer pre_flight generate judge read_payload conclude strip verify ok validate_citations
    check_ref Dict.get index_by_id Dict.put attach quotes_by_id was_refused beq_ℤ normalize split
    join contains or_empty
good_run = refl

abbrev good_payload : Payload
good_payload = record {
  out_of_scope = false;
  sufficient = true;
  answer = codes "Sixty days.";
  refs = record { chunk_id = pos 7; quote = codes "60 days" } ∷ [];
}

good_payload_read : read_payload (reads good) (codes "{}") ≡ got good_payload
unfolding read_payload
good_payload_read = refl

answer_cites_shown_example :
    (source : Citation) × In source (shown (service good) call)
    × (quoted ≡ record source { quote = codes "60 days" })
    × In (pos 7) (pos 7 ∷ pos 8 ∷ [])
answer_cites_shown_example =
    answer_cites_shown (service good) call (result quoted) quoted good_run (inl refl)

answer_quotes_found_example :
    (truthy (strip (codes "60 days")) ≡ true)
    × (contains (normalize passage.text) (normalize (codes "60 days")) ≡ true)
answer_quotes_found_example =
    answer_quotes_found (service good) call (result quoted) quoted response good_payload refl
      good_payload_read (refl, tt) good_run (inl refl)

answer-Grounds_example : Grounds (service good) call (result quoted)
answer-Grounds_example = answer-Grounds (service good) call (result quoted) good_run

answer_spending_example :
    (IsGated (service good) call
      × (requests (answer (service good) call).0 ≡ [])
      × (cost_of (answer (service good) call).1 ≡ some 0))
    ⊎ ((false ≡ false)
        × (pre_flight trace ≡ passed)
        × (requests (answer (service good) call).0
            ≡ request (service good) call (shown (service good) call) ∷ [])
        × Charged (service good).library (responded response) (answer (service good) call).1)
answer_spending_example = answer_spending (service good) call

-- The model names an infinite id, which JSON texts can: no refusal reports the cost.
abbrev infinite_id : Json
infinite_id =
    reply (cons (obj (field "id" (float (infinite true)) (field "quote" (text []) end))) nil)

infinite_run : (answer (service infinite_id) call).1 ≡ overflow_error
unfolding answer pre_flight generate judge read_payload was_refused
infinite_run = refl

abbrev repeated : Json
repeated = reply (cons (cites (codes "60 days")) (cons (cites (codes "ninety years")) nil))

supported :
    IsSupported
      (evidence call (shown (service repeated) call))
      (record { chunk_id = pos 7; quote = codes "60 days" })
unfolding index_by_id Dict.get Dict.put beq_ℤ strip normalize split join contains
supported = record {
  source = passage;
  was_shown = refl;
  is_in_force = inl refl;
  has_quote = refl;
  quote_found = refl;
  known = λ ids e. absurd (cc e);
}

repeated_read :
    read_payload (reads repeated) (codes "{}")
    ≡ got (says (codes "Sixty days.") (twice (pos 7) (codes "60 days") (codes "ninety years")))
unfolding read_payload
repeated_read = refl

gate_open : pre_flight trace ≡ passed
unfolding pre_flight
gate_open = refl

was_kept : was_refused response ≡ false
unfolding was_refused
was_kept = refl

not_blank : truthy (strip (codes "Sixty days.")) ≡ true
unfolding strip
not_blank = refl

answer_second_quote_unchecked_example :
    (answer (service repeated) call).1
    ≡ returned (
        answered (carries call 1_200 (codes "Sixty days.") supported.source (codes "ninety years")))
answer_second_quote_unchecked_example =
    answer_second_quote_unchecked (service repeated) call response (codes "Sixty days.") (pos 7)
      (codes "60 days") (codes "ninety years") refl gate_open refl was_kept repeated_read not_blank
      supported

-- Two references, the second of which was not shown.
abbrev mixed : List CitedRef
mixed =
    record { chunk_id = pos 7; quote = codes "60 days" }
    ∷ record { chunk_id = pos 9; quote = codes "60 days" }
    ∷ []

abbrev shown_evidence : Evidence
shown_evidence = evidence call (shown (service good) call)

validate_citations-ok_iff_example :
    (ok (validate_citations mixed shown_evidence) ≡ true)
    ↔ ((ref : CitedRef) → FirstUse mixed ref → IsSupported shown_evidence ref)
validate_citations-ok_iff_example = validate_citations-ok_iff mixed shown_evidence

-- The second is reported.
mixed_fails : ok (validate_citations mixed shown_evidence) ≡ false
unfolding ok validate_citations check_ref index_by_id Dict.get Dict.put beq_ℤ strip normalize split
    join contains
mixed_fails = refl
