-- ===== src/Store/Corpus/Inserts.antt =====
-- The writes of store/corpus.py. A write that a constraint refuses is `none`; `now` is the time of the
-- transaction.
use cite_delta_rag.Prelude.{
  ℕ, suc, String, Bool, true, false, not, ◌&&◌, Option, none, some, List, [], ◌∷◌, ◌++◌, ◌==◌,
  nat_eq, string_eq, if◌then◌else◌, length, select, any,
}
use cite_delta_rag.Text.{Text, split}
use cite_delta_rag.Ecfr.Models.{SectionInterval, ParsedChunk}
use cite_delta_rag.Store.Corpus.{
  Source, Document, SectionVersion, Chunk, CorpusStore, precedes, is_current,
}

-- The store with other rows of one table.
abbrev pub with_versions : CorpusStore → List SectionVersion → CorpusStore
with_versions st rows = record {
  sources = st.sources;
  next_source = st.next_source;
  documents = st.documents;
  next_document = st.next_document;
  versions = rows;
  next_version = suc st.next_version;
  chunks = st.chunks;
  next_chunk = st.next_chunk;
}

abbrev pub with_chunks : CorpusStore → List Chunk → CorpusStore
with_chunks st rows = record {
  sources = st.sources;
  next_source = st.next_source;
  documents = st.documents;
  next_document = st.next_document;
  versions = st.versions;
  next_version = st.next_version;
  chunks = rows;
  next_chunk = suc st.next_chunk;
}

-- `INSERT INTO sources … ON CONFLICT (slug) DO UPDATE SET name = EXCLUDED.name RETURNING id`, on the
-- rows from the first.
unfoldable pub put_source : ℕ → String → String → String → List Source → List Source × ℕ
put_source id slug name base_url [] =
    (record { id = id; slug = slug; name = name; base_url = base_url } ∷ [], id)
put_source id slug name base_url (r ∷ rows) =
    if r.slug == slug
    then (record { id = r.id; slug = r.slug; name = name; base_url = r.base_url } ∷ rows, r.id)
    else (let (rest, found) = put_source id slug name base_url rows in (r ∷ rest, found))

unfoldable pub upsert_source : CorpusStore → String → String → String → CorpusStore × ℕ
unfolding put_source
upsert_source st slug name base_url =
    let (rows, id) = put_source st.next_source slug name base_url st.sources in
    (
      record {
        sources = rows;
        next_source = suc st.next_source;
        documents = st.documents;
        next_document = st.next_document;
        versions = st.versions;
        next_version = st.next_version;
        chunks = st.chunks;
        next_chunk = st.next_chunk;
      },
      id,
    )

-- `INSERT INTO documents … ON CONFLICT (source_id, external_id) DO UPDATE SET title = EXCLUDED.title`
unfoldable pub put_document : ℕ → ℕ → String → String → String → List Document → List Document × ℕ
put_document id source_id external_id title citation [] = (
  record {
    id = id;
    source_id = source_id;
    external_id = external_id;
    title = title;
    citation = citation;
  }
      ∷ [],
  id,
)
put_document id source_id external_id title citation (r ∷ rows) =
    if r.source_id == source_id && r.external_id == external_id
    then (
      record {
        id = r.id;
        source_id = r.source_id;
        external_id = r.external_id;
        title = title;
        citation = r.citation;
      }
          ∷ rows,
      r.id,
    )
    else (let (rest, found) = put_document id source_id external_id title citation rows in
        (r ∷ rest, found))

-- A document of no source is refused.
unfoldable pub upsert_document :
    CorpusStore → ℕ → String → String → String → Option (CorpusStore × ℕ)
unfolding put_document
upsert_document st source_id external_id title citation =
    let (rows, id) =
      put_document st.next_document source_id external_id title citation st.documents in
    if any (λ s. s.id == source_id) st.sources
    then some (
      record {
        sources = st.sources;
        next_source = st.next_source;
        documents = rows;
        next_document = suc st.next_document;
        versions = st.versions;
        next_version = st.next_version;
        chunks = st.chunks;
        next_chunk = st.next_chunk;
      },
      id,
    )
    else none

-- `sv_current_belief_uniq`: a row of current belief with the same key.
unfoldable pub has_key : ℕ → String → ℕ → SectionVersion → Bool
has_key document_id section effective_from sv =
    is_current sv
    && sv.document_id == document_id
    && sv.section == section
    && sv.effective_from == effective_from

-- `sv_no_overlap`: two rows of current belief of one section whose ranges overlap.
unfoldable pub overlaps : SectionVersion → SectionVersion → Bool
overlaps a b =
    is_current a
    && is_current b
    && a.document_id == b.document_id
    && a.section == b.section
    && precedes a.effective_from b.effective_to
    && precedes b.effective_from a.effective_to

-- The CHECK constraints, and the reference to the document.
unfoldable pub is_sane : List Document → SectionVersion → Bool
is_sane documents sv =
    precedes sv.effective_from sv.effective_to
    && length sv.content_sha256 == 32
    && any (λ d. d.id == sv.document_id) documents

unfoldable pub new_version : ℕ → ℕ → ℕ → SectionInterval → Text → List ℕ → SectionVersion
new_version now id document_id interval heading sha = record {
  id = id;
  document_id = document_id;
  section = interval.section;
  heading = heading;
  effective_from = interval.effective_from;
  effective_to = interval.effective_to;
  issue_date = interval.issue_date;
  recorded_at = now;
  superseded_at = none;
  removed = interval.removed;
  content_sha256 = sha;
}

-- The id of the first row that the second statement selects, and False; there is one, or the code
-- would raise.
unfoldable pub existing_version :
    CorpusStore → List SectionVersion → Option (CorpusStore × (ℕ × Bool))
existing_version st [] = none
existing_version st (sv ∷ rows) = some (with_versions st st.versions, (sv.id, false))

unfoldable pub insert_section_version :
    ℕ → CorpusStore → ℕ → SectionInterval → Text → List ℕ → Option (CorpusStore × (ℕ × Bool))
unfolding is_sane has_key overlaps new_version existing_version
insert_section_version now st document_id interval heading sha =
    let sv = new_version now st.next_version document_id interval heading sha in
    let same = has_key document_id interval.section interval.effective_from in
    if not (is_sane st.documents sv)
    then none
    else (if any same st.versions
        then existing_version st (select same st.versions)
        else (if any (overlaps sv) st.versions
            then none
            else some (with_versions st (st.versions ++ (sv ∷ [])), (sv.id, true))))

module _ (sha256 : Text → List ℕ) where
  unfoldable pub new_chunk : ℕ → ℕ → ParsedChunk → Chunk
  new_chunk id section_version_id c = record {
    id = id;
    section_version_id = section_version_id;
    ordinal = c.ordinal;
    citation_path = c.citation_path;
    text = c.text;
    char_count = length c.text;
    token_count = length (split c.text);
    content_sha256 = sha256 c.text;
  }

  -- `ON CONFLICT (section_version_id, ordinal) DO NOTHING`
  unfoldable pub insert_chunk : ℕ → CorpusStore → ParsedChunk → CorpusStore
  unfolding new_chunk
  insert_chunk sv_id st c =
      if any (λ r. r.section_version_id == sv_id && r.ordinal == c.ordinal) st.chunks
      then with_chunks st st.chunks
      else with_chunks st (st.chunks ++ (new_chunk st.next_chunk sv_id c ∷ []))

  unfoldable pub insert_each : ℕ → CorpusStore → List ParsedChunk → CorpusStore
  unfolding insert_chunk
  insert_each sv_id st [] = st
  insert_each sv_id st (c ∷ cs) = insert_each sv_id (insert_chunk sv_id st c) cs

  -- Chunks of no version are refused.
  unfoldable pub insert_chunks : CorpusStore → ℕ → List ParsedChunk → Option (CorpusStore × ℕ)
  unfolding insert_each
  insert_chunks st sv_id [] = some (st, 0)
  insert_chunks st sv_id (c ∷ cs) =
      if any (λ sv. sv.id == sv_id) st.versions
      then some (insert_each sv_id st (c ∷ cs), length (c ∷ cs))
      else none
