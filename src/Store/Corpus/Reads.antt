-- ===== src/Store/Corpus/Reads.antt =====
-- The reads of the corpus: the versions of a section on a day.
use cite_delta_rag.Prelude.{
  ℕ, ◌≡◌, refl, sym, subst, ap, ◌∙◌, String, Bool, true, false, ◌&&◌, Option, none, List, [], ◌∷◌,
  inl, inr, arith, map, ==_iff, ◌==◌, nat_eq, string_eq, select, any, In, In-append, In-select,
}
use cite_delta_rag.Text.{Text}
use cite_delta_rag.Store.Corpus.{
  SectionVersion, Chunk, CorpusStore, precedes, is_current, is_known, as_of_predicate, joined,
  in_force, has_prefix,
}
use cite_delta_rag.Store.Corpus.Inserts.{overlaps}
use cite_delta_rag.Store.Corpus.Apart.{IsStore, Apart}

pub In-mapped :
    {A B : Type 0} (f : A → B) (xs : List A) (b : B)
    → In b (map f xs)
    → (a : A) × (In a xs × (b ≡ f a))
In-mapped f [] b m = absurd m
In-mapped f (x ∷ xs) b (inl e) = (x, (inl refl, e))
In-mapped f (x ∷ xs) b (inr m) = let (a, (at, e)) = In-mapped f xs b m in (a, (inr at, e))

pub mapped-In : {A B : Type 0} (f : A → B) (xs : List A) (a : A) → In a xs → In (f a) (map f xs)
mapped-In f [] a m = absurd m
mapped-In f (x ∷ xs) a (inl e) = inl (ap f e)
mapped-In f (x ∷ xs) a (inr m) = inr (mapped-In f xs a m)

In-joined :
    (versions : List SectionVersion) (chunks : List Chunk) (p : Chunk × SectionVersion)
    → In p (joined versions chunks)
    → In p.1 versions × ((p.1.id == p.0.section_version_id) ≡ true)
unfolding joined
In-joined versions [] p m = absurd m
In-joined versions (c ∷ cs) p m =
    elim (In-append (map (λ sv. (c, sv)) (select (λ sv. sv.id == c.section_version_id) versions))
      (joined versions cs) p m) [
        | inr later ↦ In-joined versions cs p later
        | inl here ↦
            let (sv, (at, e)) =
              In-mapped (λ sv. (c, sv)) (select (λ sv. sv.id == c.section_version_id) versions) p
                here in
            subst (λ q. In q.1 versions × ((q.1.id == q.0.section_version_id) ≡ true)) (sym e)
              (In-select (λ sv. sv.id == c.section_version_id) versions sv at)
      ]

no_clash :
    (r b : SectionVersion) (rows : List SectionVersion)
    → any (overlaps r) rows ≡ false
    → In b rows
    → overlaps r b ≡ true
    → ⊥
no_clash r b [] h m e = m
no_clash r b (x ∷ xs) h (inl s) e = ground (arith, h, subst (λ y. overlaps r y ≡ true) s e)
no_clash r b (x ∷ xs) h (inr m) e = no_clash r b xs (ground (arith, h)) m e

-- Two rows of a table of which none overlaps another, in force on one day.
one_in_force :
    (rows : List SectionVersion) (a b : SectionVersion)
    → Apart overlaps rows
    → In a rows
    → In b rows
    → overlaps a b ≡ true
    → overlaps b a ≡ true
    → a ≡ b
one_in_force [] a b h ma mb e f = absurd ma
one_in_force (r ∷ rows) a b h (inl ea) (inl eb) e f = ea ∙ sym eb
one_in_force (r ∷ rows) a b h (inl ea) (inr mb) e f =
    absurd (no_clash r b rows h.0 mb (subst (λ x. overlaps x b ≡ true) ea e))
one_in_force (r ∷ rows) a b h (inr ma) (inl eb) e f =
    absurd (no_clash r a rows h.0 ma (subst (λ x. overlaps x a ≡ true) eb f))
one_in_force (r ∷ rows) a b h (inr ma) (inr mb) e f = one_in_force rows a b h.1 ma mb e f

both_overlap :
    (document_id valid_on : ℕ) (a b : SectionVersion)
    → as_of_predicate document_id (record { valid_on = valid_on; known_at = none }) a ≡ true
    → as_of_predicate document_id (record { valid_on = valid_on; known_at = none }) b ≡ true
    → a.section ≡ b.section
    → overlaps a b ≡ true
unfolding as_of_predicate overlaps is_known is_current precedes
both_overlap document_id valid_on a b ha hb same = ground (
  arith,
  ha,
  hb,
  ==_iff a.document_id document_id,
  ==_iff b.document_id document_id,
  ==_iff a.document_id b.document_id,
  ==_iff a.section b.section,
)

module _ (like : Text → Text → Bool) (section_before : String → String → Bool) where
  -- In a valid store, the passages of a section that are in force on a day by the current record all
  -- come from one version of it.
  pub in_force-OneVersion :
      (st : CorpusStore) (document_id valid_on : ℕ) (prefix : Option Text)
      (p q : Chunk × SectionVersion)
      → IsStore st
      → In p (
          in_force like section_before st document_id
            (record { valid_on = valid_on; known_at = none })
            prefix)
      → In q (
          in_force like section_before st document_id
            (record { valid_on = valid_on; known_at = none })
            prefix)
      → p.1.section ≡ q.1.section
      → p.1 ≡ q.1
  unfolding in_force
  in_force-OneVersion st document_id valid_on prefix p q ok mp mq same =
      let test = λ (r : Chunk × SectionVersion).
        as_of_predicate document_id (record { valid_on = valid_on; known_at = none }) r.1
        && has_prefix like section_before prefix r.0.citation_path in
      let (jp, hp) = In-select test (joined st.versions st.chunks) p mp in
      let (jq, hq) = In-select test (joined st.versions st.chunks) q mq in
      one_in_force st.versions p.1 q.1 ok.apart (In-joined st.versions st.chunks p jp).0
        (In-joined st.versions st.chunks q jq).0
        (both_overlap document_id valid_on p.1 q.1 (ground (arith, hp)) (ground (arith, hq)) same)
        (both_overlap document_id valid_on q.1 p.1 (ground (arith, hq)) (ground (arith, hp))
          (sym same))
