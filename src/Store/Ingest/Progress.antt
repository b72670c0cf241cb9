-- ===== src/Store/Ingest/Progress.antt =====
-- What one round of the ingestion of a snapshot does.
use cite_delta_rag.Prelude.{
  ℕ, ◌≡◌, refl, sym, subst, ap, ◌∙◌, String, Bool, true, false, ◌&&◌, Option, none, some, List, [],
  ◌∷◌, ◌++◌, inl, inr, arith, ==_refl, ◌==◌, nat_eq, string_eq, if◌then◌else◌, length, any, In,
  Bool-cases,
}
use cite_delta_rag.Prelude.Dict
use cite_delta_rag.Prelude.Dict.{Dict}
use cite_delta_rag.Text.{Text}
use cite_delta_rag.Ecfr.Models.{SectionInterval, ParsedChunk, ParsedSection}
use cite_delta_rag.Store.Corpus.{Document, SectionVersion, CorpusStore, is_current}
use cite_delta_rag.Store.Corpus.Inserts.{
  has_key, is_sane, new_version, insert_section_version, insert_chunks, insert_each, insert_chunk,
}
use cite_delta_rag.Store.Corpus.Apart.{IsStore}
use cite_delta_rag.Store.Corpus.Invariant.{
  Inserted, created, existed, insert-Inserted, insert_section_version-IsStore,
  insert_chunks-IsStore,
}
use cite_delta_rag.Store.Ingest.{
  IngestStats, Outcome, count_skipped, count_created, body_of, write_chunks, write_version,
  ingest_section,
}

-- The same rows and documents.
pub record IsSame (a b : CorpusStore) : Type 0 where
  pub versions : a.versions ≡ b.versions
  pub chunks : a.chunks ≡ b.chunks
  pub documents : a.documents ≡ b.documents

insert_each_keeps :
    (sha256 : Text → List ℕ) (sv_id : ℕ) (cs : List ParsedChunk) (st : CorpusStore)
    → ((insert_each sha256 sv_id st cs).versions ≡ st.versions)
      × ((insert_each sha256 sv_id st cs).documents ≡ st.documents)
unfolding insert_each insert_chunk
insert_each_keeps sha256 sv_id [] st = (refl, refl)
insert_each_keeps sha256 sv_id (c ∷ cs) st =
    let rest = insert_each_keeps sha256 sv_id cs (insert_chunk sha256 sv_id st c) in
    ground (
      arith,
      rest,
      Bool-cases (any (λ r. r.section_version_id == sv_id && r.ordinal == c.ordinal) st.chunks),
    )

insert_chunks_keeps :
    (sha256 : Text → List ℕ) (sv_id : ℕ) (cs : List ParsedChunk) (st : CorpusStore)
    (out : CorpusStore × ℕ)
    → insert_chunks sha256 st sv_id cs ≡ some out
    → (out.0.versions ≡ st.versions) × (out.0.documents ≡ st.documents)
unfolding insert_chunks
insert_chunks_keeps sha256 sv_id [] st out h =
    subst (λ (o : CorpusStore × ℕ). (o.0.versions ≡ st.versions) × (o.0.documents ≡ st.documents))
      (ap (λ o. elim o [ none ↦ (st, 0) | some c ↦ c ]) h) (refl, refl)
insert_chunks_keeps sha256 sv_id (c ∷ cs) st out h =
    guarded (any (λ sv. sv.id == sv_id) st.versions) h
  where
    guarded :
        (b : Bool)
        → (if b then some (insert_each sha256 sv_id st (c ∷ cs), length (c ∷ cs)) else none)
          ≡ some out
        → (out.0.versions ≡ st.versions) × (out.0.documents ≡ st.documents)
    guarded true h =
        subst
          (λ (o : CorpusStore × ℕ). (o.0.versions ≡ st.versions) × (o.0.documents ≡ st.documents))
          (ap (λ o. elim o [ none ↦ (st, 0) | some d ↦ d ]) h)
          (insert_each_keeps sha256 sv_id (c ∷ cs) st)
    guarded false h = absurd (ground (arith, h))

any-kept : {A : Type 0} (p : A → Bool) (xs ys : List A) → any p xs ≡ true → any p (xs ++ ys) ≡ true
any-kept p [] ys h = absurd (ground (arith, h))
any-kept p (x ∷ xs) ys h = ground (arith, h, any-kept p xs ys)

any-last :
    {A : Type 0} (p : A → Bool) (xs : List A) (a : A) → p a ≡ true → any p (xs ++ (a ∷ [])) ≡ true
any-last p [] a h = ground (arith, h)
any-last p (x ∷ xs) a h = ground (arith, h, any-last p xs a)

In-any : {A : Type 0} (p : A → Bool) (xs : List A) (a : A) → In a xs → p a ≡ true → any p xs ≡ true
In-any p [] a m h = absurd m
In-any p (x ∷ xs) a (inl e) h = ground (arith, subst (λ z. p z ≡ true) e h)
In-any p (x ∷ xs) a (inr m) h = ground (arith, In-any p xs a m h)

module _ (sha256 : Text → List ℕ) (document_id : ℕ) (by_section : Dict String SectionInterval) where
  -- The version of a parsed section is there, or the section has no interval.
  abbrev pub Settled : CorpusStore → ParsedSection → Type 0
  Settled st parsed =
      (interval : SectionInterval)
      → Dict.get by_section parsed.section ≡ some interval
      → (any (has_key document_id interval.section interval.effective_from) st.versions ≡ true)
        × (is_sane st.documents
              (new_version 0 0 document_id interval parsed.heading (sha256 (body_of parsed)))
            ≡ true)

  pub same_sane :
      (now n : ℕ) (documents : List Document) (interval : SectionInterval) (heading : Text)
      (sha : List ℕ)
      → is_sane documents (new_version now n document_id interval heading sha)
        ≡ is_sane documents (new_version 0 0 document_id interval heading sha)
  unfolding is_sane new_version
  same_sane now n documents interval heading sha = refl

  own_key :
      (now n : ℕ) (interval : SectionInterval) (heading : Text) (sha : List ℕ)
      → has_key document_id interval.section interval.effective_from
          (new_version now n document_id interval heading sha)
        ≡ true
  unfolding has_key new_version is_current
  own_key now n interval heading sha =
      ground (arith, ==_refl document_id, ==_refl interval.section, ==_refl interval.effective_from)

  -- What an insertion of a version leaves: its key, and every key that was there.
  Inserted-keys :
      (now : ℕ) (st : CorpusStore) (interval : SectionInterval) (heading : Text) (sha : List ℕ)
      (out : CorpusStore × (ℕ × Bool))
      → Inserted st
          (new_version now st.next_version document_id interval heading sha)
          (has_key document_id interval.section interval.effective_from)
          out
      → (any (has_key document_id interval.section interval.effective_from) out.0.versions ≡ true)
        × (((p : SectionVersion → Bool) → any p st.versions ≡ true → any p out.0.versions ≡ true)
            × (out.0.documents ≡ st.documents))
  Inserted-keys now st interval heading sha _ (created e f) = (
    any-last (has_key document_id interval.section interval.effective_from) st.versions
        (new_version now st.next_version document_id interval heading sha)
        (own_key now st.next_version interval heading sha),
    (
      λ p h.
          any-kept p st.versions
            (new_version now st.next_version document_id interval heading sha ∷ []) h,
      refl,
    ),
  )
  Inserted-keys now st interval heading sha _ (existed sv m k) = (
    In-any (has_key document_id interval.section interval.effective_from) st.versions sv m k,
    (λ p h. h, refl),
  )

  -- What a round that does not fail gives.
  pub record IsProgress (st next : CorpusStore) (parsed : ParsedSection) : Type 0 where
    pub settled : Settled next parsed
    pub keeps : (p : SectionVersion → Bool) → any p st.versions ≡ true → any p next.versions ≡ true
    pub documents : next.documents ≡ st.documents
    pub valid : IsStore st → IsStore next

  settle :
      (st next : CorpusStore) (parsed : ParsedSection) (interval : SectionInterval)
      → Dict.get by_section parsed.section ≡ some interval
      → any (has_key document_id interval.section interval.effective_from) next.versions ≡ true
      → next.documents ≡ st.documents
      → is_sane st.documents
          (new_version 0 0 document_id interval parsed.heading (sha256 (body_of parsed)))
        ≡ true
      → Settled next parsed
  settle st next parsed interval found there same sane other e =
      let eq = some_value (sym found ∙ e) in
      (
        subst (λ iv. any (has_key document_id iv.section iv.effective_from) next.versions ≡ true) eq
            there,
        subst
            (λ iv.
              is_sane next.documents
                (new_version 0 0 document_id iv parsed.heading (sha256 (body_of parsed)))
              ≡ true)
            eq
            (subst
              (λ d.
                is_sane d
                  (new_version 0 0 document_id interval parsed.heading (sha256 (body_of parsed)))
                ≡ true)
              (sym same) sane),
      )
    where
      some_value : {a b : SectionInterval} → some a ≡ some b → a ≡ b
      some_value {a} h = ap (λ o. elim o [ none ↦ a | some c ↦ c ]) h

  -- The chunks that follow a version change no version.
  chunks_progress :
      (stats : IngestStats) (parsed : ParsedSection) (st next : CorpusStore) (sv_id : ℕ)
      (created_now : Bool)
      → (write_chunks sha256 0 document_id stats parsed (st, (sv_id, created_now))).1 ≡ some next
      → (next.versions ≡ st.versions)
        × (next.documents ≡ st.documents)
        × (IsStore st → IsStore next)
  unfolding write_chunks
  chunks_progress stats parsed st next sv_id false h =
      subst
        (λ (o : CorpusStore).
          (o.versions ≡ st.versions) × (o.documents ≡ st.documents) × (IsStore st → IsStore o))
        (ap (λ o. elim o [ none ↦ st | some c ↦ c ]) h) (refl, refl, λ ok. ok)
  chunks_progress stats parsed st next sv_id true h =
      written (insert_chunks sha256 st sv_id parsed.chunks) refl h
    where
      written :
          (o : Option (CorpusStore × ℕ))
          → insert_chunks sha256 st sv_id parsed.chunks ≡ o
          → (elim o as (λ _. Outcome) [
            | none ↦ (count_created 0 stats, none)
            | some (written, n) ↦ (count_created n stats, some written)
          ]).1
            ≡ some next
          → (next.versions ≡ st.versions)
            × (next.documents ≡ st.documents)
            × (IsStore st → IsStore next)
      written none e h = absurd (ground (arith, h))
      written (some (out, n)) e h =
          let kept = insert_chunks_keeps sha256 sv_id parsed.chunks st (out, n) e in
          subst
            (λ (o : CorpusStore).
              (o.versions ≡ st.versions) × (o.documents ≡ st.documents) × (IsStore st → IsStore o))
            (ap (λ o. elim o [ none ↦ st | some c ↦ c ]) h)
            (
              kept.0,
              kept.1,
              λ ok. insert_chunks-IsStore sha256 sv_id parsed.chunks st (out, n) ok e,
            )

  version-IsProgress :
      (now : ℕ) (stats : IngestStats) (st next : CorpusStore) (parsed : ParsedSection)
      (interval : SectionInterval)
      → Dict.get by_section parsed.section ≡ some interval
      → (write_version sha256 now document_id stats st parsed interval).1 ≡ some next
      → IsProgress st next parsed
  unfolding write_version
  version-IsProgress now stats st next parsed interval found h =
      inserted
        (insert_section_version now st document_id interval parsed.heading
          (sha256 (body_of parsed)))
        refl h
    where
      inserted :
          (o : Option (CorpusStore × (ℕ × Bool)))
          → insert_section_version now st document_id interval parsed.heading
              (sha256 (body_of parsed))
            ≡ o
          → (elim o as (λ _. Outcome) [
            | none ↦ (stats, none)
            | some written ↦ write_chunks sha256 now document_id stats parsed written
          ]).1
            ≡ some next
          → IsProgress st next parsed
      inserted none e h = absurd (ground (arith, h))
      inserted (some (mid, (sv_id, flag))) e h =
          let sha = sha256 (body_of parsed) in
          let (sane, how) =
            insert-Inserted now document_id st interval parsed.heading sha (mid, (sv_id, flag)) e in
          let (there, (kept, docs)) =
            Inserted-keys now st interval parsed.heading sha (mid, (sv_id, flag)) how in
          let (versions, documents, valid) = chunks_progress stats parsed mid next sv_id flag h in
          record {
            settled =
                settle st next parsed interval found
                  (subst
                    (λ rows.
                      any (has_key document_id interval.section interval.effective_from) rows
                      ≡ true)
                    (sym versions) there)
                  (documents ∙ docs)
                  (sym (same_sane now st.next_version st.documents interval parsed.heading sha)
                    ∙ sane);
            keeps = λ p there. subst (λ rows. any p rows ≡ true) (sym versions) (kept p there);
            documents = documents ∙ docs;
            valid = λ ok. valid (
                insert_section_version-IsStore now document_id st interval parsed.heading sha
                  (mid, (sv_id, flag)) ok e);
          }

  pub section-IsProgress :
      (now : ℕ) (stats : IngestStats) (st next : CorpusStore) (parsed : ParsedSection)
      → (ingest_section sha256 now document_id by_section stats st parsed).1 ≡ some next
      → IsProgress st next parsed
  unfolding ingest_section
  section-IsProgress now stats st next parsed h = looked (Dict.get by_section parsed.section) refl h
    where
      looked :
          (o : Option SectionInterval)
          → Dict.get by_section parsed.section ≡ o
          → (elim o as (λ _. Outcome) [
            | none ↦ (count_skipped stats, some st)
            | some interval ↦ write_version sha256 now document_id stats st parsed interval
          ]).1
            ≡ some next
          → IsProgress st next parsed
      looked none e h =
          subst (λ s. IsProgress st s parsed) (ap (λ o. elim o [ none ↦ st | some c ↦ c ]) h)
            (record {
              settled = λ interval f. absurd (ground (arith, e, f));
              keeps = λ p there. there;
              documents = refl;
              valid = λ ok. ok;
            })
      looked (some interval) e h = version-IsProgress now stats st next parsed interval e h
