-- ===== src/Store/Corpus/Invariant.antt =====
-- What the constraints of the corpus' tables keep.
use cite_delta_rag.Prelude.{
  ℕ, ◌≡◌, refl, subst, ap, Bool, true, false, not, ◌&&◌, none, some, List, [], ◌∷◌, ◌++◌, inl, inr,
  arith, ==_iff, ◌==◌, nat_eq, string_eq, if◌then◌else◌, length, select, any, In, In-select,
  Bool-cases,
}
use cite_delta_rag.Text.{Text}
use cite_delta_rag.Ecfr.Models.{SectionInterval, ParsedChunk}
use cite_delta_rag.Store.Corpus.{Document, SectionVersion, Chunk, CorpusStore, precedes}
use cite_delta_rag.Store.Corpus.Inserts.{
  with_versions, has_key, overlaps, is_sane, new_version, existing_version, insert_section_version,
  insert_chunk, insert_each, insert_chunks, new_chunk,
}
use cite_delta_rag.Store.Corpus.Apart.{
  Apart-append, same_place, same_place_comm, IsStore, add-IsStore, again-IsStore,
}

-- The ways an insertion of a version ends.
pub data Inserted (st : CorpusStore) (new : SectionVersion) (same : SectionVersion → Bool)
    : CorpusStore × (ℕ × Bool) → Type 0 where
  created :
      any same st.versions ≡ false
      → any (overlaps new) st.versions ≡ false
      → Inserted st new same (with_versions st (st.versions ++ (new ∷ [])), (new.id, true))
  existed :
      (sv : SectionVersion)
      → In sv st.versions
      → same sv ≡ true
      → Inserted st new same (with_versions st st.versions, (sv.id, false))

some_inj : (a b : CorpusStore × (ℕ × Bool)) → some a ≡ some b → a ≡ b
some_inj a b h = ap (λ o. elim o [ none ↦ a | some c ↦ c ]) h

existing-Inserted :
    (st : CorpusStore) (new : SectionVersion) (same : SectionVersion → Bool)
    (rows : List SectionVersion) (out : CorpusStore × (ℕ × Bool))
    → ((sv : SectionVersion) → In sv rows → In sv st.versions × (same sv ≡ true))
    → existing_version st rows ≡ some out
    → Inserted st new same out
unfolding existing_version
existing-Inserted st new same [] out h e = absurd (ground (arith, e))
existing-Inserted st new same (sv ∷ rows) out h e =
    let (m, k) = h sv (inl refl) in
    subst (λ o. Inserted st new same o)
      (some_inj (with_versions st st.versions, (sv.id, false)) out e) (existed sv m k)

-- The branches of the insertion.
branches-Inserted :
    (st : CorpusStore) (new : SectionVersion) (same : SectionVersion → Bool)
    (sane found taken : Bool) (out : CorpusStore × (ℕ × Bool))
    → any same st.versions ≡ found
    → any (overlaps new) st.versions ≡ taken
    → (if not sane
        then none
        else (if found
            then existing_version st (select same st.versions)
            else (if taken
                then none
                else some (with_versions st (st.versions ++ (new ∷ [])), (new.id, true)))))
      ≡ some out
    → (sane ≡ true) × Inserted st new same out
branches-Inserted st new same false found taken out e f h = absurd (ground (arith, h))
branches-Inserted st new same true true taken out e f h = (
  refl,
  existing-Inserted st new same (select same st.versions) out
      (λ sv m. In-select same st.versions sv m) h,
)
branches-Inserted st new same true false true out e f h = absurd (ground (arith, h))
branches-Inserted st new same true false false out e f h = (
  refl,
  subst (λ o. Inserted st new same o)
      (some_inj (with_versions st (st.versions ++ (new ∷ [])), (new.id, true)) out h) (created e f),
)

pub insert-Inserted :
    (now document_id : ℕ) (st : CorpusStore) (interval : SectionInterval) (heading : Text)
    (sha : List ℕ) (out : CorpusStore × (ℕ × Bool))
    → insert_section_version now st document_id interval heading sha ≡ some out
    → (is_sane st.documents (new_version now st.next_version document_id interval heading sha)
        ≡ true)
      × Inserted st
          (new_version now st.next_version document_id interval heading sha)
          (has_key document_id interval.section interval.effective_from)
          out
unfolding insert_section_version
insert-Inserted now document_id st interval heading sha out h =
    let new = new_version now st.next_version document_id interval heading sha in
    let same = has_key document_id interval.section interval.effective_from in
    branches-Inserted st new same (is_sane st.documents new) (any same st.versions)
      (any (overlaps new) st.versions) out refl refl h

new_id :
    (now document_id : ℕ) (st : CorpusStore) (interval : SectionInterval) (heading : Text)
    (sha : List ℕ)
    → (new_version now st.next_version document_id interval heading sha).id ≡ st.next_version
unfolding new_version
new_id now document_id st interval heading sha = refl

sane_forward :
    (documents : List Document) (sv : SectionVersion)
    → is_sane documents sv ≡ true
    → precedes sv.effective_from sv.effective_to ≡ true
unfolding is_sane
sane_forward documents sv h = ground (arith, h)

-- An insertion of a version keeps the invariant.
pub insert_section_version-IsStore :
    (now document_id : ℕ) (st : CorpusStore) (interval : SectionInterval) (heading : Text)
    (sha : List ℕ) (out : CorpusStore × (ℕ × Bool))
    → IsStore st
    → insert_section_version now st document_id interval heading sha ≡ some out
    → IsStore out.0
insert_section_version-IsStore now document_id st interval heading sha out ok h =
    let (sane, how) = insert-Inserted now document_id st interval heading sha out h in
    cases out sane how
  where
    cases :
        (out : CorpusStore × (ℕ × Bool))
        → is_sane st.documents (new_version now st.next_version document_id interval heading sha)
          ≡ true
        → Inserted st
            (new_version now st.next_version document_id interval heading sha)
            (has_key document_id interval.section interval.effective_from)
            out
        → IsStore out.0
    cases _ sane (created e f) =
        add-IsStore st (new_version now st.next_version document_id interval heading sha) ok
          (new_id now document_id st interval heading sha) (sane_forward st.documents _ sane) f
    cases _ sane (existed sv m k) = again-IsStore st ok

free_place :
    (sha256 : Text → List ℕ) (n sv_id : ℕ) (c : ParsedChunk) (rows : List Chunk)
    → any (λ r. r.section_version_id == sv_id && r.ordinal == c.ordinal) rows ≡ false
    → any (same_place (new_chunk sha256 n sv_id c)) rows ≡ false
unfolding new_chunk
free_place sha256 n sv_id c [] h = refl
free_place sha256 n sv_id c (r ∷ rows) h = ground (
  arith,
  h,
  free_place sha256 n sv_id c rows,
  ==_iff r.section_version_id sv_id,
  ==_iff sv_id r.section_version_id,
  ==_iff r.ordinal c.ordinal,
  ==_iff c.ordinal r.ordinal,
)

insert_chunk-IsStore :
    (sha256 : Text → List ℕ) (sv_id : ℕ) (st : CorpusStore) (c : ParsedChunk)
    → IsStore st
    → IsStore (insert_chunk sha256 sv_id st c)
unfolding insert_chunk new_chunk
insert_chunk-IsStore sha256 sv_id st c ok =
    let taken = any (λ r. r.section_version_id == sv_id && r.ordinal == c.ordinal) st.chunks in
    elim (Bool-cases taken) [
      | inl e ↦
          rw (e, insert_chunk)
            (record {
              numbered = ok.numbered;
              identified = ok.identified;
              apart = ok.apart;
              forward = ok.forward;
              placed = ok.placed;
            })
      | inr e ↦
          rw (e, insert_chunk)
            (record {
              numbered = ok.numbered;
              identified = ok.identified;
              apart = ok.apart;
              forward = ok.forward;
              placed =
                  Apart-append same_place st.chunks (new_chunk sha256 st.next_chunk sv_id c)
                    same_place_comm ok.placed (free_place sha256 st.next_chunk sv_id c st.chunks e);
            })
    ]

insert_each-IsStore :
    (sha256 : Text → List ℕ) (sv_id : ℕ) (cs : List ParsedChunk) (st : CorpusStore)
    → IsStore st
    → IsStore (insert_each sha256 sv_id st cs)
unfolding insert_each
insert_each-IsStore sha256 sv_id [] st ok = ok
insert_each-IsStore sha256 sv_id (c ∷ cs) st ok =
    insert_each-IsStore sha256 sv_id cs (insert_chunk sha256 sv_id st c)
      (insert_chunk-IsStore sha256 sv_id st c ok)

-- An insertion of chunks keeps the invariant.
pub insert_chunks-IsStore :
    (sha256 : Text → List ℕ) (sv_id : ℕ) (cs : List ParsedChunk) (st : CorpusStore)
    (out : CorpusStore × ℕ)
    → IsStore st
    → insert_chunks sha256 st sv_id cs ≡ some out
    → IsStore out.0
unfolding insert_chunks
insert_chunks-IsStore sha256 sv_id [] st out ok h =
    subst IsStore (ap (λ o. elim o [ none ↦ st | some c ↦ c.0 ]) h) ok
insert_chunks-IsStore sha256 sv_id (c ∷ cs) st out ok h =
    guarded (any (λ sv. sv.id == sv_id) st.versions) h
  where
    guarded :
        (b : Bool)
        → (if b then some (insert_each sha256 sv_id st (c ∷ cs), length (c ∷ cs)) else none)
          ≡ some out
        → IsStore out.0
    guarded true h =
        subst IsStore (ap (λ o. elim o [ none ↦ st | some c ↦ c.0 ]) h)
          (insert_each-IsStore sha256 sv_id (c ∷ cs) st ok)
    guarded false h = absurd (ground (arith, h))
