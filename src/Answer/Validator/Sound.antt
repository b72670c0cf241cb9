-- ===== src/Answer/Validator/Sound.antt =====
-- What a passed validation proves of each reference.
use cite_delta_rag.Prelude.{
  ◌≡◌, refl, ap, ◌↔◌, inl, inr, true, false, none, some, List, [], ◌∷◌, ◌++◌, arith, elem, In,
  elem→In, In→elem, Bool-cases, Option-cases, map, elem-append, ==_iff,
}
use cite_delta_rag.Prelude.Int.{ℤ, int_eq}
use cite_delta_rag.Prelude.Dict
use cite_delta_rag.Text.{strip, contains, truthy}
use cite_delta_rag.Answer.Models.{Citation}
use cite_delta_rag.Answer.Validator.{
  CitedRef, Evidence, ValidationFailure, normalize, check_ref, failed, validate_loop,
  validate_citations, ok,
}

-- The reference points at a passage that was shown, that is in force, in the corpus where its ids
-- are known, and that holds the quoted words; and there are such words.
pub record IsSupported (ev : Evidence) (ref : CitedRef) : Type 0 where
  pub source : Citation
  pub was_shown : Dict.get ev.shown ref.chunk_id ≡ some source
  pub is_in_force : In ref.chunk_id ev.in_force.ids
  pub has_quote : truthy (strip ref.quote) ≡ true
  pub quote_found : contains (normalize source.text) (normalize ref.quote) ≡ true
  pub known : (ids : List ℤ) → ev.corpus_ids ≡ some ids → In ref.chunk_id ids

check_ref-IsSupported :
    (ev : Evidence) (ref : CitedRef) → check_ref ev ref ≡ none → IsSupported ev ref
unfolding check_ref
check_ref-IsSupported ev ref h = elim (Option-cases (Dict.get ev.shown ref.chunk_id)) [
  | inl e ↦ absurd (ground (arith, e))
  | inr (s, e) ↦ record {
    source = s;
    was_shown = e;
    is_in_force = elem→In _ _ (ground (arith, e));
    has_quote = ground (arith, e);
    quote_found = ground (arith, e);
    known = λ ids k. elem→In _ _ (ground (arith, k));
  }
]

pub IsSupported-check_ref :
    (ev : Evidence) (ref : CitedRef) → IsSupported ev ref → check_ref ev ref ≡ none
unfolding check_ref
IsSupported-check_ref ev ref h = elim (Option-cases ev.corpus_ids) [
  | inl e ↦ ground (arith, e, h.was_shown, In→elem _ _ h.is_in_force)
  | inr (ids, e) ↦
      ground (arith, e, h.was_shown, In→elem _ _ h.is_in_force, In→elem _ _ (h.known ids e))
]

loop-append-failures :
    (ev : Evidence) (refs : List CitedRef) (seen : List ℤ) (f : ValidationFailure)
    (fs : List ValidationFailure)
    → ok (validate_loop ev refs seen (f ∷ fs)) ≡ false
unfolding validate_loop ok
loop-append-failures ev [] seen f fs = refl
loop-append-failures ev (r ∷ rs) seen f fs = ground (
  arith,
  loop-append-failures ev rs seen f fs,
  loop-append-failures ev rs (seen ++ (r.chunk_id ∷ [])) f (fs ++ failed r (check_ref ev r)),
)

abbrev pub ids : List CitedRef → List ℤ
ids = map (λ r. r.chunk_id)

-- The loop passes each reference whose id was not used before.
loop-ok-check :
    (ev : Evidence) (front : List CitedRef) (ref : CitedRef) (back : List CitedRef) (seen : List ℤ)
    → elem ref.chunk_id seen ≡ false
    → elem ref.chunk_id (ids front) ≡ false
    → ok (validate_loop ev (front ++ (ref ∷ back)) seen []) ≡ true
    → check_ref ev ref ≡ none
unfolding validate_loop
loop-ok-check ev [] ref back seen hs hf h = elim (Option-cases (check_ref ev ref)) [
  | inl e ↦ e
  | inr (c, e) ↦ absurd (
      ground (
        arith,
        e,
        loop-append-failures ev back (seen ++ (ref.chunk_id ∷ []))
            (record { chunk_id = ref.chunk_id; check = c }) [],
      ))
]
loop-ok-check ev (x ∷ front) ref back seen hs hf h = elim (Option-cases (check_ref ev x)) [
  | inl e ↦ ground (
    arith,
    elem-append ref.chunk_id seen (x.chunk_id ∷ []),
    loop-ok-check ev front ref back seen,
    loop-ok-check ev front ref back (seen ++ (x.chunk_id ∷ [])),
  )
  | inr (c, e) ↦ ground (
    arith,
    loop-ok-check ev front ref back seen,
    loop-append-failures ev (front ++ (ref ∷ back)) (seen ++ (x.chunk_id ∷ []))
        (record { chunk_id = x.chunk_id; check = c }) [],
  )
]

check-loop-ok :
    (ev : Evidence) (refs : List CitedRef) (seen : List ℤ)
    → ((front : List CitedRef) (ref : CitedRef) (back : List CitedRef)
        → refs ≡ front ++ (ref ∷ back)
        → elem ref.chunk_id seen ≡ false
        → elem ref.chunk_id (ids front) ≡ false
        → check_ref ev ref ≡ none)
    → ok (validate_loop ev refs seen []) ≡ true
unfolding validate_loop
check-loop-ok ev [] seen h = unfold ok in refl
check-loop-ok ev (r ∷ rs) seen h = elim (Bool-cases (elem r.chunk_id seen)) [
  | inl e ↦ rw e (
      check-loop-ok ev rs seen λ front ref back d hs hf.
        h (r ∷ front) ref back (ap (◌∷◌ r) d) hs
          (ground (arith, e, hf, ==_iff r.chunk_id ref.chunk_id)))
  | inr e ↦
      rw (e, h [] r rs refl e refl)
        (check-loop-ok ev rs (seen ++ (r.chunk_id ∷ [])) λ front ref back d hs hf.
          h (r ∷ front) ref back (ap (◌∷◌ r) d)
            (ground (arith, elem-append ref.chunk_id seen (r.chunk_id ∷ [])))
            (ground (arith, elem-append ref.chunk_id seen (r.chunk_id ∷ []))))
]

abbrev pub FirstUse : List CitedRef → CitedRef → Type 0
FirstUse refs ref =
    (front : List CitedRef) × (back : List CitedRef) × (refs ≡ front ++ (ref ∷ back))
    × (elem ref.chunk_id (ids front) ≡ false)

-- A validation passes exactly when each cited id's first reference is supported by the evidence: it
-- was shown, is in force, is in the corpus where the corpus's ids are given, and its quote is not
-- blank and occurs in the passage, up to white space.
pub validate_citations-ok_iff :
    (refs : List CitedRef) (ev : Evidence)
    → (ok (validate_citations refs ev) ≡ true)
      ↔ ((ref : CitedRef) → FirstUse refs ref → IsSupported ev ref)
unfolding validate_citations
validate_citations-ok_iff refs ev = (
  λ h ref (front, back, e, new).
      check_ref-IsSupported ev ref (loop-ok-check ev front ref back [] refl new (rw e at h)),
  λ h.
      check-loop-ok ev refs []
        λ front ref back e _ new. IsSupported-check_ref ev ref (h ref (front, back, e, new)),
)
