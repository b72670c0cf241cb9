-- ===== src/Store/Ingest.antt =====
-- ingest.py: what the handler of a snapshot does. The snapshot comes parsed, `now` is the time of its
-- transaction; a failure is `none`, which rolls the store back but leaves the statistics counted.
pub mod Progress
pub mod Again
use cite_delta_rag.Prelude.{
  ℕ, zero, suc, ◌+◌, String, Bool, true, false, Option, none, some, List, [], ◌∷◌, ◌++◌, map,
  string_eq, length, if◌then◌else◌,
}
use cite_delta_rag.Prelude.Dict
use cite_delta_rag.Prelude.Dict.{Dict}
use cite_delta_rag.Text.{Text, codes, join}
use cite_delta_rag.Ecfr.Models.{SectionInterval, ParsedChunk, ParsedSection}
use cite_delta_rag.Ecfr.Timeline.{interval_covering}
use cite_delta_rag.Store.Corpus.{CorpusStore}
use cite_delta_rag.Store.Corpus.Inserts.{insert_section_version, insert_chunks}

pub record IngestStats : Type 0 where
  pub snapshots : ℕ
  pub versions_created : ℕ
  pub versions_existing : ℕ
  pub chunks_written : ℕ
  pub sections_skipped : ℕ

abbrev pub count_skipped : IngestStats → IngestStats
count_skipped s = record {
  snapshots = s.snapshots;
  versions_created = s.versions_created;
  versions_existing = s.versions_existing;
  chunks_written = s.chunks_written;
  sections_skipped = suc s.sections_skipped;
}

abbrev pub count_existing : IngestStats → IngestStats
count_existing s = record {
  snapshots = s.snapshots;
  versions_created = s.versions_created;
  versions_existing = suc s.versions_existing;
  chunks_written = s.chunks_written;
  sections_skipped = s.sections_skipped;
}

abbrev pub count_created : ℕ → IngestStats → IngestStats
count_created n s = record {
  snapshots = s.snapshots;
  versions_created = suc s.versions_created;
  versions_existing = s.versions_existing;
  chunks_written = s.chunks_written + n;
  sections_skipped = s.sections_skipped;
}

abbrev pub count_snapshot : IngestStats → IngestStats
count_snapshot s = record {
  snapshots = suc s.snapshots;
  versions_created = s.versions_created;
  versions_existing = s.versions_existing;
  chunks_written = s.chunks_written;
  sections_skipped = s.sections_skipped;
}

-- The intervals of a date, one for each section that has one.
unfoldable pub intervals_on :
    Dict String (List SectionInterval) → List String → ℕ → List SectionInterval
intervals_on timelines [] on = []
intervals_on timelines (section ∷ sections) on =
    let rest = intervals_on timelines sections on in
    elim (interval_covering timelines section on) [ none ↦ rest | some iv ↦ iv ∷ rest ]

-- `{iv.section: iv for iv in intervals}`
unfoldable pub by_section_from :
    Dict String SectionInterval → List SectionInterval → Dict String SectionInterval
by_section_from d [] = d
by_section_from d (iv ∷ ivs) = by_section_from (Dict.put d iv.section iv) ivs

-- `"\n".join(c.text for c in parsed.chunks)`
unfoldable pub body_of : ParsedSection → Text
body_of parsed = join (codes "\n") (map (λ c. c.text) parsed.chunks)

abbrev pub Outcome : Type 0
Outcome = IngestStats × Option CorpusStore

module _ (sha256 : Text → List ℕ) (now document_id : ℕ) where
  -- The chunks of a version that was just created.
  unfoldable pub write_chunks : IngestStats → ParsedSection → CorpusStore × (ℕ × Bool) → Outcome
  write_chunks stats parsed (st, (sv_id, false)) = (count_existing stats, some st)
  write_chunks stats parsed (st, (sv_id, true)) =
      elim (insert_chunks sha256 st sv_id parsed.chunks) [
        | none ↦ (count_created 0 stats, none)
        | some (written, n) ↦ (count_created n stats, some written)
      ]

  unfoldable pub write_version :
      IngestStats → CorpusStore → ParsedSection → SectionInterval → Outcome
  unfolding write_chunks body_of
  write_version stats st parsed interval =
      elim (insert_section_version now st document_id interval parsed.heading
        (sha256 (body_of parsed))) [
          | none ↦ (stats, none)
          | some written ↦ write_chunks stats parsed written
        ]

  -- One round of the loop over the parsed sections.
  unfoldable pub ingest_section :
      Dict String SectionInterval → IngestStats → CorpusStore → ParsedSection → Outcome
  unfolding write_version
  ingest_section by_section stats st parsed = elim (Dict.get by_section parsed.section) [
    | none ↦ (count_skipped stats, some st)
    | some interval ↦ write_version stats st parsed interval
  ]

  -- What follows a round, unless it failed.
  unfoldable pub and_then : (IngestStats → CorpusStore → Outcome) → Outcome → Outcome
  and_then next (stats, none) = (stats, none)
  and_then next (stats, some st) = next stats st

  unfoldable pub ingest_sections :
      Dict String SectionInterval → IngestStats → CorpusStore → List ParsedSection → Outcome
  unfolding ingest_section and_then
  ingest_sections by_section stats st [] = (stats, some st)
  ingest_sections by_section stats st (parsed ∷ rest) =
      and_then (λ stats st. ingest_sections by_section stats st rest)
        (ingest_section by_section stats st parsed)

  -- `handle`, from the intervals of the job and the parsed snapshot.
  unfoldable pub handle :
      IngestStats → CorpusStore → List SectionInterval → List ParsedSection → Outcome
  unfolding ingest_sections by_section_from
  handle stats st intervals sections =
      and_then (λ stats st. (count_snapshot stats, some st))
        (ingest_sections (by_section_from [] intervals) stats st sections)
