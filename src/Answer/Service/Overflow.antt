-- ===== src/Answer/Service/Overflow.antt =====
-- When the reading of a response raises an exception that the service does not catch.
use cite_delta_rag.Prelude.{
  ◌≡◌, refl, ap, inl, inr, Bool, In, ◌∙◌, Option, none, some, List, [], ◌∷◌, arith, Option-cases,
}
use cite_delta_rag.Prelude.Int.{int_eq}
use cite_delta_rag.Answer.Payload.{
  Json, null, bool, num, float, text, arr, obj, finite, negative_zero, infinite, nan, Library, item,
  iterate, Attempt, overflowed, Attempt-cases, ◌>>=◌, or_malformed, to_int, read_ref, read_refs,
  read_payload,
}
use cite_delta_rag.Text.{Text}

-- A response in which the id of a citation is an infinite number.
abbrev pub HasInfiniteId : Library → Text → Type 0
HasInfiniteId lib t =
    (payload : Json) × (citations : Json) × (values : List Json) × (value : Json) × (sign : Bool)
    × (lib.loads t ≡ some payload)
    × (item payload "citations" ≡ some citations)
    × (iterate citations ≡ some values)
    × In value values
    × (item value "id" ≡ some (float (infinite sign)))

to_int-overflowed :
    (lib : Library) (v : Json)
    → to_int lib v ≡ overflowed
    → (sign : Bool) × (v ≡ float (infinite sign))
unfolding to_int
to_int-overflowed lib (float (infinite sign)) e = (sign, refl)
to_int-overflowed lib (float (finite n d)) e = absurd (cc e)
to_int-overflowed lib (float negative_zero) e = absurd (cc e)
to_int-overflowed lib (float nan) e = absurd (cc e)
to_int-overflowed lib (num n) e = absurd (cc e)
to_int-overflowed lib (bool b) e = absurd (cc e)
to_int-overflowed lib null e = absurd (cc e)
to_int-overflowed lib (arr vs) e = absurd (cc e)
to_int-overflowed lib (obj fs) e = absurd (cc e)
to_int-overflowed lib (text t) e = elim (Option-cases (lib.parse_int t)) [
  | inl f ↦ absurd (ground (arith, e, f))
  | inr (n, f) ↦ absurd (ground (arith, e, f))
]

read_ref-overflowed :
    (lib : Library) (v : Json)
    → read_ref lib v ≡ overflowed
    → (sign : Bool) × (item v "id" ≡ some (float (infinite sign)))
unfolding read_ref
read_ref-overflowed lib v e = elim (Option-cases (item v "id")) [
  | inl f ↦ absurd (ground (arith, e, f))
  | inr (i, f) ↦ elim (Attempt-cases (to_int lib i)) [
    | inl (n, g) ↦ elim (Option-cases (item v "quote")) [
      | inl h ↦ absurd (ground (arith, e, f, g, h))
      | inr (q, h) ↦ absurd (ground (arith, e, f, g, h))
    ]
    | inr (inl g) ↦ absurd (ground (arith, e, f, g))
    | inr (inr g) ↦ let (sign, same) = to_int-overflowed lib i g in (sign, f ∙ ap some same)
  ]
]

read_refs-overflowed :
    (lib : Library) (vs : List Json)
    → read_refs lib vs ≡ overflowed
    → (v : Json) × (sign : Bool) × In v vs × (item v "id" ≡ some (float (infinite sign)))
unfolding read_refs
read_refs-overflowed lib [] e = absurd (cc e)
read_refs-overflowed lib (v ∷ vs) e = elim (Attempt-cases (read_ref lib v)) [
  | inl (ref, f) ↦ elim (Attempt-cases (read_refs lib vs)) [
    | inl (refs, g) ↦ absurd (ground (arith, e, f, g))
    | inr (inl g) ↦ absurd (ground (arith, e, f, g))
    | inr (inr g) ↦
        let (w, sign, at, found) = read_refs-overflowed lib vs g in (w, sign, inr at, found)
  ]
  | inr (inl f) ↦ absurd (ground (arith, e, f))
  | inr (inr f) ↦ let (sign, found) = read_ref-overflowed lib v f in (v, sign, inl refl, found)
]

or_malformed-bind :
    {A B : Type 0} (o : Option A) (f : A → Attempt B)
    → (or_malformed o >>= f) ≡ overflowed
    → (a : A) × (o ≡ some a) × (f a ≡ overflowed)
or_malformed-bind none f e = absurd (cc e)
or_malformed-bind (some a) f e = (a, refl, e)

pub read_payload-overflowed :
    (lib : Library) (t : Text) → read_payload lib t ≡ overflowed → HasInfiniteId lib t
unfolding read_payload
read_payload-overflowed lib t e =
    let (payload, loaded, e1) = or_malformed-bind (lib.loads t) _ e in
    let (scope, f2, e2) = or_malformed-bind (item payload "out_of_scope") _ e1 in
    let (sufficient, f3, e3) = or_malformed-bind (item payload "sufficient") _ e2 in
    let (answer, f4, e4) = or_malformed-bind (item payload "answer") _ e3 in
    let (citations, f5, e5) = or_malformed-bind (item payload "citations") _ e4 in
    let (values, f6, e6) = or_malformed-bind (iterate citations) _ e5 in
    elim (Attempt-cases (read_refs lib values)) [
      | inl (refs, g) ↦ absurd (ground (arith, e6, g))
      | inr (inl g) ↦ absurd (ground (arith, e6, g))
      | inr (inr g) ↦
          let (value, sign, at, found) = read_refs-overflowed lib values g in
          (payload, citations, values, value, sign, loaded, f5, f6, at, found)
    ]
