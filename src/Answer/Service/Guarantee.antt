-- ===== src/Answer/Service/Guarantee.antt =====
-- The citations of an answer that is shown.
use cite_delta_rag.Prelude.{
  ◌≡◌, refl, sym, subst, ap, ◌∙◌, true, false, some, List, [], ◌∷◌, ◌++◌, arith, elem, In, Distinct,
}
use mathlib.Core.Option.{some-injective}
use cite_delta_rag.Prelude.Int.{int_eq}
use cite_delta_rag.Prelude.Dict
use cite_delta_rag.Text.{strip, truthy, contains}
use cite_delta_rag.Answer.Models.{Citation, Answer, answered}
use cite_delta_rag.Answer.Validator.{CitedRef, normalize, ok, validate_citations}
use cite_delta_rag.Answer.Validator.Sound.{ids, FirstUse, IsSupported}
use cite_delta_rag.Answer.Payload.{got, Payload, read_payload}
use cite_delta_rag.Answer.Service.{
  AnswerService, Call, responded, CompletionResponse, returned, or_empty, request, evidence,
  index_by_id, quotes_by_id, attach, answer,
}
use cite_delta_rag.Answer.Service.Citations.{
  index-shown, get-quotes_by_id_last, attach-In, cited, cited-IsSupported,
}
use cite_delta_rag.Answer.Service.Paths.{shown, answer-Grounds}

-- One citation of an answer, the id that it was made from, and the first reference to that id.
pub record Provenance (c : Call) (passages : List Citation) (p : Payload) (x : Citation)
    : Type 0 where
  pub source : Citation
  pub ref : CitedRef
  pub is_first : FirstUse p.refs ref
  pub supported : IsSupported (evidence c passages) ref
  pub indexed : Dict.get (index_by_id passages []) ref.chunk_id ≡ some source
  pub made : x ≡ record source { quote = or_empty (Dict.get (quotes_by_id p.refs []) ref.chunk_id) }

pub verify-Provenance :
    (c : Call) (passages : List Citation) (p : Payload) (cs : List Citation) (x : Citation)
    → ok (validate_citations p.refs (evidence c passages)) ≡ true
    → attach (index_by_id passages []) (quotes_by_id p.refs []) (cited c passages 0 p) ≡ some cs
    → In x cs
    → Provenance c passages p x
verify-Provenance c passages p cs x h e m =
    let (i, place, (s, found, made)) =
      attach-In (index_by_id passages []) (quotes_by_id p.refs []) (cited c passages 0 p) cs x e
        m in
    let (ref, first, same, supported) = cited-IsSupported c passages 0 p i h place in
    record {
      source = s;
      ref = ref;
      is_first = first;
      supported = supported;
      indexed = subst (λ j. Dict.get (index_by_id passages []) j ≡ some s) (sym same) found;
      made =
          subst (λ j. x ≡ record s { quote = or_empty (Dict.get (quotes_by_id p.refs []) j) })
            (sym same) made;
    }

-- Each citation of an answer is one of the passages that were shown to the model, unchanged but for
-- its quote, and its chunk is in the admissible set of the date.
pub answer_cites_shown :
    (svc : AnswerService) (c : Call) (a : Answer) (x : Citation)
    → (answer svc c).1 ≡ returned (answered a)
    → In x a.citations
    → (source : Citation) × In source (shown svc c)
      × (x ≡ record source { quote = x.quote })
      × In x.chunk_id c.admissible.ids
answer_cites_shown svc c a x h m =
    let g = answer-Grounds svc c a h in
    let v = verify-Provenance c (shown svc c) g.payload a.citations x g.checked g.attached m in
    let (place, same) = index-shown (shown svc c) v.ref.chunk_id v.source v.indexed in
    (
      v.source,
      place,
      subst (λ y. y ≡ record v.source { quote = y.quote }) (sym v.made) refl,
      subst (λ i. In i c.admissible.ids) (sym (ap (λ y. y.chunk_id) v.made ∙ same))
          v.supported.is_in_force,
    )

got-injective : {p q : Payload} → got p ≡ got q → p ≡ q
got-injective e = cc

Distinct-middle :
    (front : List CitedRef) (r : CitedRef) (back : List CitedRef)
    → Distinct (ids (front ++ (r ∷ back)))
    → elem r.chunk_id (ids back) ≡ false
Distinct-middle [] r back d = d.0
Distinct-middle (x ∷ front) r back d = Distinct-middle front r back d.1

pub Provenance-quote :
    (c : Call) (passages : List Citation) (p : Payload) (x : Citation)
    → Distinct (ids p.refs)
    → (v : Provenance c passages p x) → (x.quote ≡ v.ref.quote) × (x.text ≡ v.supported.source.text)
Provenance-quote c passages p x distinct v =
    let (front, back, e, new) = v.is_first in
    let d = Distinct-middle front v.ref back (subst (λ rs. Distinct (ids rs)) e distinct) in
    let last : Dict.get (quotes_by_id p.refs []) v.ref.chunk_id ≡ some v.ref.quote =
      rw e (get-quotes_by_id_last front v.ref back [] d) in
    (
      ap (λ y. y.quote) v.made ∙ (unfold or_empty in ap or_empty last),
      ap (λ y. y.text) v.made
          ∙ ap (λ y. y.text) (some-injective _ _ (sym v.indexed ∙ v.supported.was_shown)),
    )

-- If the model's references name each id once, the quote of each citation of an answer is not
-- blank, and occurs in the citation's own text up to white space.
pub answer_quotes_found :
    (svc : AnswerService) (c : Call) (a : Answer) (x : Citation) (r : CompletionResponse)
    (p : Payload)
    → svc.complete (request svc c (shown svc c)) ≡ responded r
    → read_payload svc.library r.text ≡ got p
    → Distinct (ids p.refs)
    → (answer svc c).1 ≡ returned (answered a)
    → In x a.citations
    → (truthy (strip x.quote) ≡ true) × (contains (normalize x.text) (normalize x.quote) ≡ true)
answer_quotes_found svc c a x r p called readable distinct h m =
    let g = answer-Grounds svc c a h in
    let v = verify-Provenance c (shown svc c) g.payload a.citations x g.checked g.attached m in
    let one : r ≡ g.response = ground (arith, g.called) in
    let same : p ≡ g.payload =
      got-injective (sym readable ∙ ap (λ t. read_payload svc.library t.text) one ∙ g.readable) in
    let (quote_eq, text_eq) =
      Provenance-quote c (shown svc c) g.payload x
        (subst (λ q. Distinct (ids q.refs)) same distinct) v in
    (rw quote_eq v.supported.has_quote, rw (quote_eq, text_eq) v.supported.quote_found)
