-- ===== src/Store/Ingest/Again.antt =====
-- Ingestion keeps the store's invariant, and doing it again changes no row.
use cite_delta_rag.Prelude.{
  ℕ, ◌≡◌, refl, sym, subst, ap, ◌∙◌, String, Bool, true, false, none, some, Option-cases, List, [],
  ◌∷◌, inl, inr, arith, nat_eq, string_eq, select, any, Bool-cases, All,
}
use cite_delta_rag.Prelude.Dict
use cite_delta_rag.Prelude.Dict.{Dict}
use cite_delta_rag.Text.{Text}
use cite_delta_rag.Ecfr.Models.{SectionInterval, ParsedSection}
use cite_delta_rag.Store.Corpus.{SectionVersion, CorpusStore}
use cite_delta_rag.Store.Corpus.Inserts.{
  with_versions, has_key, is_sane, new_version, existing_version, insert_section_version,
}
use cite_delta_rag.Store.Corpus.Apart.{IsStore}
use cite_delta_rag.Store.Ingest.{
  IngestStats, Outcome, body_of, write_chunks, write_version, ingest_section, and_then,
  ingest_sections, by_section_from, handle, count_snapshot,
}
use cite_delta_rag.Store.Ingest.Progress.{IsSame, Settled, section-IsProgress, same_sane}

module _ (sha256 : Text → List ℕ) (document_id : ℕ) where
  -- A run that does not fail went through each of its rounds.
  went_on :
      (now : ℕ) (next : IngestStats → CorpusStore → Outcome) (o : Outcome) (last : CorpusStore)
      → (and_then sha256 now document_id next o).1 ≡ some last
      → (stats : IngestStats) × (mid : CorpusStore) × ((o.1 ≡ some mid)
          × ((next stats mid).1 ≡ some last))
  unfolding and_then
  went_on now next (stats, none) last h = absurd (ground (arith, h))
  went_on now next (stats, some mid) last h = (stats, mid, (refl, h))

  Settled-later :
      (by_section : Dict String SectionInterval) (st next : CorpusStore) (parsed : ParsedSection)
      → ((p : SectionVersion → Bool) → any p st.versions ≡ true → any p next.versions ≡ true)
      → next.documents ≡ st.documents
      → Settled sha256 document_id by_section st parsed
      → Settled sha256 document_id by_section next parsed
  Settled-later by_section st next parsed keeps same s interval e =
      let (there, sane) = s interval e in
      (
        keeps (has_key document_id interval.section interval.effective_from) there,
        subst
            (λ d.
              is_sane d
                (new_version 0 0 document_id interval parsed.heading (sha256 (body_of parsed)))
              ≡ true)
            (sym same) sane,
      )

  pub record IsRun (by_section : Dict String SectionInterval) (st next : CorpusStore)
      (sections : List ParsedSection) : Type 0 where
    pub settled : All (Settled sha256 document_id by_section next) sections
    pub keeps : (p : SectionVersion → Bool) → any p st.versions ≡ true → any p next.versions ≡ true
    pub documents : next.documents ≡ st.documents
    pub valid : IsStore st → IsStore next

  IsRun-progress :
      (now : ℕ) (by_section : Dict String SectionInterval) (sections : List ParsedSection)
      (stats : IngestStats) (st last : CorpusStore)
      → (ingest_sections sha256 now document_id by_section stats st sections).1 ≡ some last
      → IsRun by_section st last sections
  unfolding ingest_sections
  IsRun-progress now by_section [] stats st last h =
      subst (λ s. IsRun by_section st s []) (ap (λ o. elim o [ none ↦ st | some c ↦ c ]) h)
        (record { settled = tt; keeps = λ p there. there; documents = refl; valid = λ ok. ok })
  IsRun-progress now by_section (parsed ∷ rest) stats st last h =
      let (then_stats, mid, (first, later)) =
        went_on now (λ s m. ingest_sections sha256 now document_id by_section s m rest)
          (ingest_section sha256 now document_id by_section stats st parsed) last h in
      let a = section-IsProgress sha256 document_id by_section now stats st mid parsed first in
      let b = IsRun-progress now by_section rest then_stats mid last later in
      record {
        settled =
            (Settled-later by_section mid last parsed b.keeps b.documents a.settled, b.settled);
        keeps = λ p there. b.keeps p (a.keeps p there);
        documents = b.documents ∙ a.documents;
        valid = λ ok. b.valid (a.valid ok);
      }

  -- The handler keeps the store's invariant.
  pub handle-IsStore :
      (now : ℕ) (stats : IngestStats) (st last : CorpusStore) (intervals : List SectionInterval)
      (sections : List ParsedSection)
      → IsStore st
      → (handle sha256 now document_id stats st intervals sections).1 ≡ some last
      → IsStore last
  unfolding handle
  handle-IsStore now stats st last intervals sections ok h =
      let by_section = by_section_from [] intervals in
      let (then_stats, mid, (run, end)) =
        went_on now (λ s m. (count_snapshot s, some m))
          (ingest_sections sha256 now document_id by_section stats st sections) last h in
      subst IsStore (ap (λ o. elim o [ none ↦ mid | some c ↦ c ]) end)
        ((IsRun-progress now by_section sections stats st mid run).valid ok)

  first_of_select :
      (p : SectionVersion → Bool) (xs : List SectionVersion)
      → any p xs ≡ true
      → (x : SectionVersion) × (rest : List SectionVersion) × (select p xs ≡ x ∷ rest)
  first_of_select p [] h = absurd (ground (arith, h))
  first_of_select p (x ∷ xs) h = elim (Bool-cases (p x)) [
    | inl e ↦ rw (e) (x, select p xs, refl)
    | inr e ↦ rw (e) (first_of_select p xs (ground (arith, h, e)))
  ]

  -- Nothing is written for a version that is there.
  settled_insert :
      (now : ℕ) (st : CorpusStore) (interval : SectionInterval) (heading : Text) (sha : List ℕ)
      → any (has_key document_id interval.section interval.effective_from) st.versions ≡ true
      → is_sane st.documents (new_version 0 0 document_id interval heading sha) ≡ true
      → (id : ℕ) × (insert_section_version now st document_id interval heading sha
          ≡ some (with_versions st st.versions, (id, false)))
  unfolding insert_section_version existing_version
  settled_insert now st interval heading sha there sane =
      let same = has_key document_id interval.section interval.effective_from in
      let (sv, rest, e) = first_of_select same st.versions there in
      (
        sv.id,
        rw
            (
              same_sane sha256 document_id [] now st.next_version st.documents interval heading sha
                  ∙ sane,
              there,
              insert_section_version,
            )
            (ap (λ rows. existing_version st rows) e),
      )

  -- What a round leaves that has nothing to write.
  pub record IsIdle (before : IngestStats) (st : CorpusStore) (o : Outcome) : Type 0 where
    pub after : CorpusStore
    pub returns : o.1 ≡ some after
    pub same : IsSame after st
    pub none_created : o.0.versions_created ≡ before.versions_created
    pub none_written : o.0.chunks_written ≡ before.chunks_written

  Settled-section :
      (now : ℕ) (by_section : Dict String SectionInterval) (stats : IngestStats) (st : CorpusStore)
      (parsed : ParsedSection)
      → Settled sha256 document_id by_section st parsed
      → IsIdle stats st (ingest_section sha256 now document_id by_section stats st parsed)
  unfolding ingest_section write_version write_chunks
  Settled-section now by_section stats st parsed s =
      elim (Option-cases (Dict.get by_section parsed.section)) [
        | inl e ↦
            rw (e, ingest_section)
              (record {
                after = st;
                returns = refl;
                same = record { versions = refl; chunks = refl; documents = refl };
                none_created = refl;
                none_written = refl;
              })
        | inr (interval, e) ↦
            let (there, sane) = s interval e in
            let (id, written) =
              settled_insert now st interval parsed.heading (sha256 (body_of parsed)) there sane in
            rw (e, written, ingest_section, write_version)
              (record {
                after = with_versions st st.versions;
                returns = refl;
                same = record { versions = refl; chunks = refl; documents = refl };
                none_created = refl;
                none_written = refl;
              })
      ]

  -- The rows stay as they were over a list of rounds.
  same_later :
      (by_section : Dict String SectionInterval) (st after : CorpusStore)
      (sections : List ParsedSection)
      → IsSame after st
      → All (Settled sha256 document_id by_section st) sections
      → All (Settled sha256 document_id by_section after) sections
  same_later by_section st after [] e h = tt
  same_later by_section st after (parsed ∷ rest) e h = (
    Settled-later by_section st after parsed
        (λ p there. subst (λ rows. any p rows ≡ true) (sym e.versions) there) e.documents h.0,
    same_later by_section st after rest e h.1,
  )

  Settled-run :
      (now : ℕ) (by_section : Dict String SectionInterval) (sections : List ParsedSection)
      (stats : IngestStats) (st : CorpusStore)
      → All (Settled sha256 document_id by_section st) sections
      → IsIdle stats st (ingest_sections sha256 now document_id by_section stats st sections)
  unfolding ingest_sections and_then
  Settled-run now by_section [] stats st h = record {
    after = st;
    returns = refl;
    same = record { versions = refl; chunks = refl; documents = refl };
    none_created = refl;
    none_written = refl;
  }
  Settled-run now by_section (parsed ∷ rest) stats st h =
      continued (ingest_section sha256 now document_id by_section stats st parsed)
        (Settled-section now by_section stats st parsed h.0)
        (λ s m same. Settled-run now by_section rest s m (same_later by_section st m rest same h.1))
    where
      continued :
          (o : Outcome)
          → IsIdle stats st o
          → ((s : IngestStats) (m : CorpusStore)
              → IsSame m st
              → IsIdle s m (ingest_sections sha256 now document_id by_section s m rest))
          → IsIdle stats st (
              and_then sha256 now document_id
                (λ s m. ingest_sections sha256 now document_id by_section s m rest)
                o)
      continued (s, none) i again = absurd (ground (arith, i.returns))
      continued (s, some mid) i again =
          let eq = ap (λ o. elim o [ none ↦ mid | some c ↦ c ]) i.returns in
          let same_mid = subst (λ m. IsSame m st) (sym eq) i.same in
          let r = again s mid same_mid in
          record {
            after = r.after;
            returns = r.returns;
            same = record {
              versions = r.same.versions ∙ same_mid.versions;
              chunks = r.same.chunks ∙ same_mid.chunks;
              documents = r.same.documents ∙ same_mid.documents;
            };
            none_created = r.none_created ∙ i.none_created;
            none_written = r.none_written ∙ i.none_written;
          }

  -- If a snapshot was ingested, to ingest it again, at any later state of the statistics and at any
  -- time, succeeds and changes no version, no chunk and no document, and counts none as written.
  pub handle_again :
      (now later : ℕ) (stats then_stats : IngestStats) (st last : CorpusStore)
      (intervals : List SectionInterval) (sections : List ParsedSection)
      → (handle sha256 now document_id stats st intervals sections).1 ≡ some last
      → IsIdle then_stats last (handle sha256 later document_id then_stats last intervals sections)
  unfolding handle and_then
  handle_again now later stats then_stats st last intervals sections h =
      let by_section = by_section_from [] intervals in
      let (run_stats, mid, (run, end)) =
        went_on now (λ s m. (count_snapshot s, some m))
          (ingest_sections sha256 now document_id by_section stats st sections) last h in
      let settled =
        subst (λ s. All (Settled sha256 document_id (by_section_from [] intervals) s) sections)
          (ap (λ o. elim o [ none ↦ mid | some c ↦ c ]) end)
          (IsRun-progress now by_section sections stats st mid run).settled in
      counted (ingest_sections sha256 later document_id by_section then_stats last sections)
        (Settled-run later by_section sections then_stats last settled)
    where
      counted :
          (o : Outcome)
          → IsIdle then_stats last o
          → IsIdle then_stats last
              (and_then sha256 later document_id (λ s m. (count_snapshot s, some m)) o)
      counted (s, none) i = absurd (ground (arith, i.returns))
      counted (s, some end) i = record {
        after = i.after;
        returns = i.returns;
        same = i.same;
        none_created = i.none_created;
        none_written = i.none_written;
      }
