-- ===== src/Store/Examples.antt =====
-- One section with two versions, ingested from a snapshot.
use cite_delta_rag.Prelude.{
  ℕ, zero, suc, ◌≡◌, ◌↔◌, refl, String, Bool, true, false, Option, none, some, List, [], ◌∷◌, inl,
  inr, In, nat_eq, string_eq, subst, sym,
}
use cite_delta_rag.Prelude.Dict
use cite_delta_rag.Text.{Text, codes, starts_with, split}
use cite_delta_rag.Temporal.{AsOf}
use cite_delta_rag.Ecfr.Models.{SectionInterval, ParsedSection}
use cite_delta_rag.Store.Corpus.{
  CorpusStore, Chunk, ChunkRow, SectionVersion, in_force, chunks_as_of, admissible_chunk_ids,
  precedes,
}
use cite_delta_rag.Store.Corpus.Inserts.{insert_section_version, insert_chunks}
use cite_delta_rag.Store.Corpus.Apart.{IsStore}
use cite_delta_rag.Store.Corpus.Reads.{in_force-OneVersion}
use cite_delta_rag.Store.Corpus.InForce.{IsInForce, IsReadAs, reads-IsInForce}
use cite_delta_rag.Store.Ingest.{IngestStats, handle}
use cite_delta_rag.Store.Ingest.Again.{IsIdle, handle_again, handle-IsStore}

-- A digest of 32 bytes.
abbrev sha256 : Text → List ℕ
sha256 t = bytes 32
  where
    bytes : ℕ → List ℕ
    bytes zero = []
    bytes (suc n) = 7 ∷ bytes n

abbrev empty : CorpusStore
empty = record {
  sources = record { id = 1; slug = "ecfr"; name = "eCFR"; base_url = "https://www.ecfr.gov" } ∷ [];
  next_source = 2;
  documents =
      record {
        id = 1;
        source_id = 1;
        external_id = "title-8/part-214";
        title = "Nonimmigrant";
        citation = "8 CFR Part 214";
      }
      ∷ [];
  next_document = 2;
  versions = [];
  next_version = 1;
  chunks = [];
  next_chunk = 1;
}

abbrev section_interval : SectionInterval
section_interval = record {
  section = "214.2";
  effective_from = 100;
  effective_to = some 200;
  issue_date = 90;
  removed = false;
}

abbrev parsed : ParsedSection
parsed = record {
  section = "214.2";
  heading = codes "Special requirements";
  chunks =
      record { ordinal = 0; citation_path = codes "8 CFR 214.2(a)"; text = codes "one" }
      ∷ record { ordinal = 1; citation_path = codes "8 CFR 214.2(b)"; text = codes "two" }
      ∷ [];
}

abbrev no_stats : IngestStats
no_stats = record {
  snapshots = 0;
  versions_created = 0;
  versions_existing = 0;
  chunks_written = 0;
  sections_skipped = 0;
}

abbrev got : Option CorpusStore → CorpusStore
got none = empty
got (some st) = st

abbrev stored : CorpusStore
stored = got (handle sha256 50 1 no_stats empty (section_interval ∷ []) (parsed ∷ [])).1

ingested : (handle sha256 50 1 no_stats empty (section_interval ∷ []) (parsed ∷ [])).1 ≡ some stored
unfolding handle Dict.get Dict.put insert_section_version precedes insert_chunks
ingested = refl

handle_again_example :
    IsIdle sha256 1 no_stats stored
      (handle sha256 60 1 no_stats stored (section_interval ∷ []) (parsed ∷ []))
handle_again_example =
    handle_again sha256 1 50 60 no_stats no_stats empty stored (section_interval ∷ []) (parsed ∷ [])
      ingested

empty-IsStore : IsStore empty
empty-IsStore = record {
  numbered = λ sv m. absurd m;
  identified = tt;
  apart = tt;
  forward = λ sv m. absurd m;
  placed = tt;
}

stored-IsStore : IsStore stored
stored-IsStore =
    handle-IsStore sha256 1 50 no_stats empty stored (section_interval ∷ []) (parsed ∷ [])
      empty-IsStore ingested

handle-IsStore_example : IsStore stored
handle-IsStore_example =
    handle-IsStore sha256 1 50 no_stats empty stored (section_interval ∷ []) (parsed ∷ [])
      empty-IsStore ingested

abbrev like : Text → Text → Bool
like path prefix = starts_with prefix path

abbrev before : String → String → Bool
before a b = true

abbrev as_of : AsOf
as_of = record { valid_on = 150; known_at = none }

reads-IsInForce_example :
    ((row : ChunkRow)
      → In row (chunks_as_of like before stored 1 as_of none none) ↔ (
          (c : Chunk) × (sv : SectionVersion) × IsInForce like stored 1 as_of none c sv
          × IsReadAs c sv row))
    × ((id : ℕ)
        → In id (admissible_chunk_ids like before stored 1 as_of none) ↔ (
            (c : Chunk) × (sv : SectionVersion) × IsInForce like stored 1 as_of none c sv
            × (c.id ≡ id)))
reads-IsInForce_example = reads-IsInForce like before stored 1 as_of none

abbrev version : SectionVersion
version = record {
  id = 1;
  document_id = 1;
  section = "214.2";
  heading = codes "Special requirements";
  effective_from = 100;
  effective_to = some 200;
  issue_date = 90;
  recorded_at = 50;
  superseded_at = none;
  removed = false;
  content_sha256 = sha256 [];
}

abbrev first_chunk : Chunk
first_chunk = record {
  id = 1;
  section_version_id = 1;
  ordinal = 0;
  citation_path = codes "8 CFR 214.2(a)";
  text = codes "one";
  char_count = 3;
  token_count = 1;
  content_sha256 = sha256 [];
}

abbrev second_chunk : Chunk
second_chunk = record {
  id = 2;
  section_version_id = 1;
  ordinal = 1;
  citation_path = codes "8 CFR 214.2(b)";
  text = codes "two";
  char_count = 3;
  token_count = 1;
  content_sha256 = sha256 [];
}

in_force_rows :
    in_force like before stored 1 as_of none ≡ (first_chunk, version) ∷ (second_chunk, version) ∷ []
unfolding handle Dict.get Dict.put insert_section_version precedes insert_chunks in_force split
in_force_rows = refl

in_force-OneVersion_example : version ≡ version
in_force-OneVersion_example =
    in_force-OneVersion like before stored 1 150 none (first_chunk, version) (second_chunk, version)
      stored-IsStore (subst (In (first_chunk, version)) (sym in_force_rows) (inl refl))
      (subst (In (second_chunk, version)) (sym in_force_rows) (inr (inl refl))) refl
