-- ===== src/Eval/Graders/Promise.antt =====
-- The grader's check of the citations, on the service's answers.
use cite_delta_rag.Prelude.{
  ◌≡◌, refl, ap, sym, subst, ◌∙◌, true, Option, some, List, [], ◌∷◌, In, inl, inr, Distinct,
}
use cite_delta_rag.Prelude.Int.{ℤ, int_eq}
use cite_delta_rag.Prelude.Dict.{Dict}
use cite_delta_rag.Prelude.Dict
use cite_delta_rag.Text.{strip, truthy, contains}
use cite_delta_rag.Answer.Models.{Citation, Answer, answered}
use cite_delta_rag.Answer.Validator.{normalize}
use cite_delta_rag.Answer.Validator.Sound.{ids}
use cite_delta_rag.Answer.Payload.{got, Payload, read_payload}
use cite_delta_rag.Answer.Service.{
  AnswerService, Call, CompletionResponse, responded, returned, request, answer, index_by_id,
}
use cite_delta_rag.Answer.Service.Citations.{index-shown}
use cite_delta_rag.Answer.Service.Paths.{shown, answer-Grounds}
use cite_delta_rag.Answer.Service.Guarantee.{verify-Provenance, answer_quotes_found}
use cite_delta_rag.Eval.Graders.{citations_hold, all_hold, holds}

all_hold-In :
    (d : Dict ℤ Citation) (cs : List Citation)
    → ((c : Citation) → In c cs → holds c (Dict.get d c.chunk_id) ≡ true)
    → all_hold d cs ≡ true
unfolding all_hold
all_hold-In d [] h = refl
all_hold-In d (c ∷ cs) h = rw (h c (inl refl), all_hold-In d cs (λ x m. h x (inr m)))

holds-source :
    (x source : Citation) (o : Option Citation)
    → o ≡ some source
    → x.text ≡ source.text
    → truthy (strip x.quote) ≡ true
    → contains (normalize x.text) (normalize x.quote) ≡ true
    → holds x o ≡ true
unfolding holds
holds-source x source o e t q f = rw (e, q, sym t, f)

-- If the model's references name each id once, the grader, given the passages that were shown, finds
-- the quote of every citation of an answer in its passage.
pub answer_citations_hold :
    (svc : AnswerService) (c : Call) (a : Answer) (r : CompletionResponse) (p : Payload)
    → svc.complete (request svc c (shown svc c)) ≡ responded r
    → read_payload svc.library r.text ≡ got p
    → Distinct (ids p.refs)
    → (answer svc c).1 ≡ returned (answered a)
    → citations_hold (answered a) (shown svc c) ≡ true
unfolding citations_hold
answer_citations_hold svc c a r p called readable distinct h =
    let g = answer-Grounds svc c a h in
    all_hold-In (index_by_id (shown svc c) []) a.citations λ x m.
      let v = verify-Provenance c (shown svc c) g.payload a.citations x g.checked g.attached m in
      let (place, same) = index-shown (shown svc c) v.ref.chunk_id v.source v.indexed in
      let (quoted, found) = answer_quotes_found svc c a x r p called readable distinct h m in
      let id_eq : x.chunk_id ≡ v.ref.chunk_id = ap (λ y. y.chunk_id) v.made ∙ same in
      holds-source x v.source _
        (subst (λ i. Dict.get (index_by_id (shown svc c) []) i ≡ some v.source) (sym id_eq)
          v.indexed)
        (ap (λ y. y.text) v.made) quoted found
