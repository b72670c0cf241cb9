-- ===== src/Answer/Validator/Cited.antt =====
-- The ids that a validation lists as cited.
use cite_delta_rag.Prelude.{
  ◌≡◌, refl, ap, inl, inr, true, ◌||◌, List, [], ◌∷◌, ◌++◌, arith, ◌==◌, elem, Bool-cases,
  elem-append, ==_iff, Distinct, Distinct-append_one,
}
use cite_delta_rag.Prelude.Int.{ℤ, int_eq}
use cite_delta_rag.Answer.Validator.{
  CitedRef, Evidence, ValidationFailure, check_ref, failed, validate_loop, validate_citations,
}
use cite_delta_rag.Answer.Validator.Sound.{ids, FirstUse}

elem-cited_loop :
    (ev : Evidence) (refs : List CitedRef) (seen : List ℤ) (fs : List ValidationFailure) (i : ℤ)
    → elem i (validate_loop ev refs seen fs).cited ≡ (elem i seen || elem i (ids refs))
unfolding validate_loop
elem-cited_loop ev [] seen fs i = ground arith
elem-cited_loop ev (r ∷ rs) seen fs i = ground (
  arith,
  elem-cited_loop ev rs seen fs i,
  elem-cited_loop ev rs (seen ++ (r.chunk_id ∷ [])) (fs ++ failed r (check_ref ev r)) i,
  elem-append i seen (r.chunk_id ∷ []),
  ==_iff r.chunk_id i,
)

Distinct-cited_loop :
    (ev : Evidence) (refs : List CitedRef) (seen : List ℤ) (fs : List ValidationFailure)
    → Distinct seen
    → Distinct (validate_loop ev refs seen fs).cited
unfolding validate_loop
Distinct-cited_loop ev [] seen fs d = d
Distinct-cited_loop ev (r ∷ rs) seen fs d = elim (Bool-cases (elem r.chunk_id seen)) [
  | inl e ↦ rw (e, Distinct) (Distinct-cited_loop ev rs seen fs d)
  | inr e ↦
      rw (e, Distinct) (Distinct-cited_loop ev rs _ _ (Distinct-append_one seen r.chunk_id d e))
]

-- The cited ids are the ids of the references, each once.
pub cited_ids :
    (refs : List CitedRef) (ev : Evidence)
    → Distinct (validate_citations refs ev).cited
      × ((i : ℤ) → elem i (validate_citations refs ev).cited ≡ elem i (ids refs))
unfolding validate_citations
cited_ids refs ev = (Distinct-cited_loop ev refs [] [] tt, λ i. elem-cited_loop ev refs [] [] i)

-- An id among the references has a first reference.
pub first_use :
    (refs : List CitedRef) (i : ℤ)
    → elem i (ids refs) ≡ true
    → (ref : CitedRef) × FirstUse refs ref × (ref.chunk_id ≡ i)
first_use [] i h = cc
first_use (r ∷ rs) i h = elim (Bool-cases (r.chunk_id == i)) [
  | inl e ↦ (r, ([], rs, refl, refl), (==_iff r.chunk_id i).0 e)
  | inr e ↦
      let (ref, (front, back, d, new), same) = first_use rs i (ground arith) in
      (
        ref,
        (
          r ∷ front,
          back,
          ap (◌∷◌ r) d,
          ground (arith, ==_iff r.chunk_id i, ==_iff r.chunk_id ref.chunk_id),
        ),
        same,
      )
]
