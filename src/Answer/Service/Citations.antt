-- ===== src/Answer/Service/Citations.antt =====
-- Where the citations of an answer come from.
use cite_delta_rag.Prelude.{
  ◌≡◌, refl, sym, subst, ◌∙◌, ◌⊎◌, inl, inr, true, false, some, List, [], ◌∷◌, ◌++◌, arith, elem,
  In, In→elem, ℕ, Option-cases, ==_iff,
}
use cite_delta_rag.Prelude.Int.{ℤ, int_eq}
use cite_delta_rag.Prelude.Dict.{Dict, get-put}
use cite_delta_rag.Prelude.Dict
use cite_delta_rag.Text.{Text}
use cite_delta_rag.Answer.Models.{Citation, Answer, answered}
use cite_delta_rag.Answer.Validator.{CitedRef, ok, validate_citations}
use cite_delta_rag.Answer.Validator.Sound.{ids, FirstUse, IsSupported, validate_citations-ok_iff}
use cite_delta_rag.Answer.Validator.Cited.{cited_ids, first_use}
use cite_delta_rag.Answer.Payload.{Payload}
use cite_delta_rag.Answer.Service.{
  Call, returned, index_by_id, quotes_by_id, attach, or_empty, evidence, verify, refuse,
}

get-index_by_id :
    (cs : List Citation) (d : Dict ℤ Citation) (i : ℤ) (s : Citation)
    → Dict.get (index_by_id cs d) i ≡ some s
    → (Dict.get d i ≡ some s) ⊎ (In s cs × (s.chunk_id ≡ i))
unfolding index_by_id
get-index_by_id [] d i s h = inl h
get-index_by_id (c ∷ cs) d i s h = ground (
  arith,
  get-index_by_id cs (Dict.put d c.chunk_id c) i s h,
  get-put d c.chunk_id i c,
  ==_iff c.chunk_id i,
)

-- An id that is indexed was shown, under that id.
pub index-shown :
    (cs : List Citation) (i : ℤ) (s : Citation)
    → Dict.get (index_by_id cs []) i ≡ some s
    → In s cs × (s.chunk_id ≡ i)
index-shown cs i s h = elim (get-index_by_id cs [] i s h) [
  | inl e ↦ absurd (unfold Dict.get in cc)
  | inr e ↦ e
]

get-quotes_by_id_other :
    (rs : List CitedRef) (d : Dict ℤ Text) (i : ℤ)
    → elem i (ids rs) ≡ false
    → Dict.get (quotes_by_id rs d) i ≡ Dict.get d i
unfolding quotes_by_id
get-quotes_by_id_other [] d i h = refl
get-quotes_by_id_other (r ∷ rs) d i h = ground (
  arith,
  get-quotes_by_id_other rs (Dict.put d r.chunk_id r.quote) i,
  get-put d r.chunk_id i r.quote,
)

-- The last reference to an id gives its quote.
pub get-quotes_by_id_last :
    (front : List CitedRef) (r : CitedRef) (back : List CitedRef) (d : Dict ℤ Text)
    → elem r.chunk_id (ids back) ≡ false
    → Dict.get (quotes_by_id (front ++ (r ∷ back)) d) r.chunk_id ≡ some r.quote
unfolding quotes_by_id
get-quotes_by_id_last [] r back d h = ground (
  arith,
  get-quotes_by_id_other back (Dict.put d r.chunk_id r.quote) r.chunk_id,
  get-put d r.chunk_id r.chunk_id r.quote,
  ==_iff r.chunk_id r.chunk_id,
)
get-quotes_by_id_last (x ∷ front) r back d h =
    get-quotes_by_id_last front r back (Dict.put d x.chunk_id x.quote) h

-- What `attach` made of an id.
abbrev pub Attached : Dict ℤ Citation → Dict ℤ Text → ℤ → Citation → Type 0
Attached by_id quotes i x =
    (s : Citation) × (Dict.get by_id i ≡ some s)
    × (x ≡ record s { quote = or_empty (Dict.get quotes i) })

pub attach-In :
    (by_id : Dict ℤ Citation) (quotes : Dict ℤ Text) (is : List ℤ) (cs : List Citation)
    (x : Citation)
    → attach by_id quotes is ≡ some cs
    → In x cs
    → (i : ℤ) × In i is × Attached by_id quotes i x
unfolding attach
attach-In by_id quotes [] cs x h m = absurd (ground arith)
attach-In by_id quotes (i ∷ is) cs x h m = elim (Option-cases (Dict.get by_id i)) [
  | inl e ↦ absurd (ground (arith, e))
  | inr (s, e) ↦ elim (Option-cases (attach by_id quotes is)) [
    | inl f ↦ absurd (ground (arith, e, f))
    | inr (rest, f) ↦
        let whole : cs ≡ record s { quote = or_empty (Dict.get quotes i) } ∷ rest =
          ground (arith, e, f) in
        elim (subst (In x) whole m) [
          | inl same ↦ (i, inl refl, (s, e, same))
          | inr later ↦
              let (j, place, made) = attach-In by_id quotes is rest x f later in
              (j, inr place, made)
        ]
  ]
]

pub attach-total :
    (by_id : Dict ℤ Citation) (quotes : Dict ℤ Text) (is : List ℤ)
    → ((i : ℤ) → In i is → (s : Citation) × (Dict.get by_id i ≡ some s))
    → (cs : List Citation) × (attach by_id quotes is ≡ some cs)
unfolding attach
attach-total by_id quotes [] h = ([], refl)
attach-total by_id quotes (i ∷ is) h =
    let (s, e) = h i (inl refl) in
    let (cs, f) = attach-total by_id quotes is (λ j m. h j (inr m)) in
    (record s { quote = or_empty (Dict.get quotes i) } ∷ cs, rw (e, f, attach))

module _ (c : Call) (shown : List Citation) (cost : ℕ) (p : Payload) where
  abbrev pub cited : List ℤ
  cited = (validate_citations p.refs (evidence c shown)).cited

  -- Each cited id of a passed validation has its first, supported reference.
  pub cited-IsSupported :
      (i : ℤ)
      → ok (validate_citations p.refs (evidence c shown)) ≡ true
      → In i cited
      → (ref : CitedRef) × FirstUse p.refs ref
        × (ref.chunk_id ≡ i)
        × IsSupported (evidence c shown) ref
  cited-IsSupported i h m =
      let listed = (cited_ids p.refs (evidence c shown)).1 i in
      let (ref, place, same) = first_use p.refs i (sym listed ∙ In→elem i cited m) in
      (ref, place, same, (validate_citations-ok_iff p.refs (evidence c shown)).0 h ref place)

  -- An answer out of `verify` passed the validation, and its citations are the attached ones.
  pub verify-answered :
      (a : Answer)
      → verify c shown cost p ≡ returned (answered a)
      → (ok (validate_citations p.refs (evidence c shown)) ≡ true)
        × (attach (index_by_id shown []) (quotes_by_id p.refs []) cited ≡ some a.citations)
  unfolding verify refuse
  verify-answered a h = ground arith
