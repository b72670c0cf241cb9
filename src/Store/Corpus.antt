-- ===== src/Store/Corpus.antt =====
-- store/corpus.py, over the tables of alembic/versions/6e4bc42d9a10_corpus_bitemporal_sections_and_chunks.py.
-- A date is its ordinal, an instant a number of ticks. `LIKE` and the collation are the database's.
pub mod Inserts
pub mod Apart
pub mod Invariant
pub mod Reads
pub mod InForce
use cite_delta_rag.Prelude.{
  ℕ, zero, suc, ◌+◌, String, Bool, true, false, not, ◌&&◌, ◌||◌, Option, none, some, List, [], ◌∷◌,
  ◌++◌, map, ltb, leb, ◌==◌, nat_eq, string_eq, if◌then◌else◌, length, take, select, any, ◌>>=◌,
}
use cite_delta_rag.Prelude.Sorting.{sort_by}
use cite_delta_rag.Text.{Text, split}
use cite_delta_rag.Temporal.{AsOf}
use cite_delta_rag.Ecfr.Models.{SectionInterval, ParsedChunk}

-- A row of `sources`.
pub record Source : Type 0 where
  pub id : ℕ
  pub slug : String
  pub name : String
  pub base_url : String

-- A row of `documents`.
pub record Document : Type 0 where
  pub id : ℕ
  pub source_id : ℕ
  pub external_id : String
  pub title : String
  pub citation : String

-- A row of `section_versions`.
pub record SectionVersion : Type 0 where
  pub id : ℕ
  pub document_id : ℕ
  pub section : String
  pub heading : Text
  pub effective_from : ℕ
  pub effective_to : Option ℕ
  pub issue_date : ℕ
  pub recorded_at : ℕ
  pub superseded_at : Option ℕ
  pub removed : Bool
  pub content_sha256 : List ℕ

-- A row of `chunks`.
pub record Chunk : Type 0 where
  pub id : ℕ
  pub section_version_id : ℕ
  pub ordinal : ℕ
  pub citation_path : Text
  pub text : Text
  pub char_count : ℕ
  pub token_count : ℕ
  pub content_sha256 : List ℕ

-- The tables, each with the next value of its identity column.
pub record CorpusStore : Type 0 where
  pub sources : List Source
  pub next_source : ℕ
  pub documents : List Document
  pub next_document : ℕ
  pub versions : List SectionVersion
  pub next_version : ℕ
  pub chunks : List Chunk
  pub next_chunk : ℕ

pub record ChunkRow : Type 0 where
  pub id : ℕ
  pub section : String
  pub citation_path : Text
  pub text : Text
  pub effective_from : ℕ
  pub effective_to : Option ℕ

-- A date before the end of a range that may be open.
unfoldable pub precedes : ℕ → Option ℕ → Bool
precedes day none = true
precedes day (some end) = ltb day end

-- `superseded_at IS NULL`
unfoldable pub is_current : SectionVersion → Bool
is_current sv = elim sv.superseded_at [ none ↦ true | some t ↦ false ]

-- The condition on transaction time.
unfoldable pub is_known : Option ℕ → SectionVersion → Bool
unfolding is_current precedes
is_known none sv = is_current sv
is_known (some t) sv = leb sv.recorded_at t && precedes t sv.superseded_at

-- `_ASOF_PREDICATE`
unfoldable pub as_of_predicate : ℕ → AsOf → SectionVersion → Bool
unfolding is_known precedes
as_of_predicate document_id as_of sv =
    sv.document_id == document_id
    && (leb sv.effective_from as_of.valid_on && precedes as_of.valid_on sv.effective_to)
    && is_known as_of.known_at sv
    && not sv.removed

-- `chunks c JOIN section_versions sv ON sv.id = c.section_version_id`
unfoldable pub joined : List SectionVersion → List Chunk → List (Chunk × SectionVersion)
joined versions [] = []
joined versions (c ∷ cs) =
    map (λ sv. (c, sv)) (select (λ sv. sv.id == c.section_version_id) versions)
    ++ joined versions cs

abbrev pub row_of : Chunk × SectionVersion → ChunkRow
row_of (c, sv) = record {
  id = c.id;
  section = sv.section;
  citation_path = c.citation_path;
  text = c.text;
  effective_from = sv.effective_from;
  effective_to = sv.effective_to;
}

-- `LIMIT`, where a limit of zero is none.
unfoldable pub limited {ℓ} : {A : Type ℓ} → Option ℕ → List A → List A
limited none rows = rows
limited (some zero) rows = rows
limited (some (suc n)) rows = take (suc n) rows

module _ (like : Text → Text → Bool) (section_before : String → String → Bool) where
  -- `$4::text IS NULL OR c.citation_path LIKE $4 || '%'`
  unfoldable pub has_prefix : Option Text → Text → Bool
  has_prefix none path = true
  has_prefix (some prefix) path = like path prefix

  -- The FROM and WHERE of chunks_as_of.
  unfoldable pub in_force : CorpusStore → ℕ → AsOf → Option Text → List (Chunk × SectionVersion)
  unfolding joined as_of_predicate has_prefix
  in_force st document_id as_of prefix =
      select (λ p. as_of_predicate document_id as_of p.1 && has_prefix prefix p.0.citation_path)
        (joined st.versions st.chunks)

  -- `ORDER BY sv.section, c.ordinal`
  unfoldable pub reads_first : Chunk × SectionVersion → Chunk × SectionVersion → Bool
  reads_first (c, sv) (d, sw) =
      section_before sv.section sw.section
      && (not (section_before sw.section sv.section) || leb c.ordinal d.ordinal)

  unfoldable pub chunks_as_of : CorpusStore → ℕ → AsOf → Option Text → Option ℕ → List ChunkRow
  unfolding in_force reads_first limited
  chunks_as_of st document_id as_of prefix limit =
      map row_of (limited limit (sort_by reads_first (in_force st document_id as_of prefix)))

  -- The FROM and WHERE of admissible_chunk_ids.
  unfoldable pub admissible_rows :
      CorpusStore → ℕ → AsOf → Option Text → List (Chunk × SectionVersion)
  unfolding joined as_of_predicate has_prefix
  admissible_rows st document_id as_of prefix =
      select (λ p. as_of_predicate document_id as_of p.1 && has_prefix prefix p.0.citation_path)
        (joined st.versions st.chunks)

  -- The set of ids, as the list of them.
  unfoldable pub admissible_chunk_ids : CorpusStore → ℕ → AsOf → Option Text → List ℕ
  unfolding admissible_rows
  admissible_chunk_ids st document_id as_of prefix =
      map (λ p. p.0.id) (admissible_rows st document_id as_of prefix)

  unfoldable pub count_as_of : CorpusStore → ℕ → AsOf → ℕ
  unfolding joined as_of_predicate
  count_as_of st document_id as_of =
      length (select (λ p. as_of_predicate document_id as_of p.1) (joined st.versions st.chunks))
