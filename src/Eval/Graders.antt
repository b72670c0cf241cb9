-- ===== src/Eval/Graders.antt =====
-- eval/graders.py: what a case's result is worth.
pub mod Promise
use cite_delta_rag.Prelude.{
  ℕ, Bool, true, false, not, ◌&&◌, ◌||◌, Option, none, some, List, [], ◌∷◌, ltb, leb, take, any,
  if◌then◌else◌,
}
use cite_delta_rag.Prelude.Int.{ℤ, int_eq}
use cite_delta_rag.Prelude.Dict.{Dict}
use cite_delta_rag.Prelude.Dict
use cite_delta_rag.Text.{Text, codes, strip, truthy, contains, starts_with, remove_from, same_text}
use cite_delta_rag.Answer.Models.{
  RefusalReason, greeting, out_of_scope, no_admissible_source, low_confidence,
  insufficient_evidence, fabricated_citation, provider_refused, malformed_response, Citation,
  Answer, Refusal, AnswerResult, answered, refused,
}
use cite_delta_rag.Answer.Validator.{normalize}
use cite_delta_rag.Answer.Service.{index_by_id}

-- eval/cases.py; a class and a reason are their values.
pub record EvalCase : Type 0 where
  pub id : Text
  pub cls : Text
  pub query : Text
  pub as_of : ℕ
  pub expected_citations : List Text
  pub expects_refusal : Bool
  pub expected_reason : Option Text
  pub must_not_cite : List Text

pub record CaseScore : Type 0 where
  pub case_id : Text
  pub cls : Text
  pub retrieved : Bool
  pub citations_valid : Bool
  pub refusal_correct : Bool
  pub reason_correct : Bool
  pub temporal_correct : Bool
  pub leaked_forbidden : Bool
  pub latency_ms : ℕ

unfoldable pub case_passed : CaseScore → Bool
case_passed s =
    s.citations_valid && s.refusal_correct && s.temporal_correct && not s.leaked_forbidden

unfoldable pub matches : Text → Text → Bool
unfolding remove_from starts_with
matches path expected =
    let p = remove_from (codes "8 CFR ") 0 path in
    let e = remove_from (codes "8 CFR ") 0 expected in starts_with p e || starts_with e p

abbrev pub was_declined : AnswerResult → Bool
was_declined (answered a) = false
was_declined (refused r) = true

-- `() if result.refused else result.citations`
abbrev pub cited_by : AnswerResult → List Citation
cited_by (answered a) = a.citations
cited_by (refused r) = []

abbrev pub latency_of : AnswerResult → ℕ
latency_of (answered a) = a.latency_ms
latency_of (refused r) = r.latency_ms

-- The body of the loop of `_citations_hold`, on `shown.get(cited.chunk_id)`.
unfoldable pub holds : Citation → Option Citation → Bool
unfolding normalize strip contains
holds cited none = false
holds cited (some source) =
    truthy (strip cited.quote) && contains (normalize source.text) (normalize cited.quote)

unfoldable pub all_hold : Dict ℤ Citation → List Citation → Bool
unfolding holds
all_hold shown [] = true
all_hold shown (c ∷ cs) =
    let rest = all_hold shown cs in if holds c (Dict.get shown c.chunk_id) then rest else false

unfoldable pub citations_hold : AnswerResult → List Citation → Bool
unfolding all_hold index_by_id
citations_hold result candidates = all_hold (index_by_id candidates []) (cited_by result)

reason_value : RefusalReason → Text
reason_value greeting = codes "greeting"
reason_value out_of_scope = codes "out_of_scope"
reason_value no_admissible_source = codes "no_admissible_source"
reason_value low_confidence = codes "low_confidence"
reason_value insufficient_evidence = codes "insufficient_evidence"
reason_value fabricated_citation = codes "fabricated_citation"
reason_value provider_refused = codes "provider_refused"
reason_value malformed_response = codes "malformed_response"

has_reason : Text → AnswerResult → Bool
unfolding reason_value same_text
has_reason expected (answered a) = false
has_reason expected (refused r) = same_text (reason_value r.reason) expected

unfoldable pub reason_correct : Option Text → AnswerResult → Bool
unfolding has_reason
reason_correct none result = true
reason_correct (some expected) result = has_reason expected result

-- The dates of a citation are text; `from_iso` is `date.fromisoformat`, and `none` its `ValueError`.
module _ (from_iso : Text → Option ℕ) where
  ends_after : ℕ → Option ℕ → Option Bool
  ends_after as_of none = none
  ends_after as_of (some end) = some (ltb as_of end)

  open_or_after : ℕ → Option Text → Option Bool
  unfolding ends_after
  open_or_after as_of none = some true
  open_or_after as_of (some end) = ends_after as_of (from_iso end)

  began : ℕ → Option Text → Option ℕ → Option Bool
  unfolding open_or_after
  began as_of end none = none
  began as_of end (some start) =
      let later = open_or_after as_of end in if leb start as_of then later else some false

  and_all : Option Bool → Option Bool → Option Bool
  and_all none rest = none
  and_all (some true) rest = rest
  and_all (some false) rest = some false

  -- `all(…)` stops at the first citation that was not in force.
  unfoldable pub temporal_ok : ℕ → List Citation → Option Bool
  unfolding began and_all
  temporal_ok as_of [] = some true
  temporal_ok as_of (c ∷ cs) =
      and_all (began as_of c.effective_to (from_iso c.effective_from)) (temporal_ok as_of cs)

same_bool : Bool → Bool → Bool
same_bool true b = b
same_bool false b = not b

none_expected : List Text → Bool
none_expected [] = true
none_expected (t ∷ ts) = false

score : EvalCase → AnswerResult → List Citation → Option Bool → Option CaseScore
unfolding none_expected matches same_bool citations_hold reason_correct
score case result candidates none = none
score case result candidates (some temporal) = some (record {
  case_id = case.id;
  cls = case.cls;
  retrieved =
      none_expected case.expected_citations
      || any (λ exp. any (λ (c : Citation). matches c.citation_path exp) (take 5 candidates))
          case.expected_citations;
  citations_valid = citations_hold result candidates;
  refusal_correct = same_bool (was_declined result) case.expects_refusal;
  reason_correct = reason_correct case.expected_reason result;
  temporal_correct = temporal;
  leaked_forbidden =
      any (λ bad. any (λ (c : Citation). matches c.citation_path bad) (cited_by result))
        case.must_not_cite;
  latency_ms = latency_of result;
})

-- `none` is the `ValueError` of a date that cannot be read.
unfoldable pub grade :
    (Text → Option ℕ) → EvalCase → AnswerResult → List Citation → Option CaseScore
unfolding score temporal_ok
grade from_iso case result candidates =
    score case result candidates (temporal_ok from_iso case.as_of (cited_by result))
