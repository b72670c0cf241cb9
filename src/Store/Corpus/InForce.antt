-- ===== src/Store/Corpus/InForce.antt =====
-- Which chunks are in force at a point in time, and what the reads of the corpus give of them.
use cite_delta_rag.Prelude.{
  ℕ, ◌≡◌, ◌<◌, ◌≤◌, ◌↔◌, refl, sym, subst, ap, ◌∙◌, String, Bool, true, false, ◌&&◌, Option, none,
  List, [], ◌∷◌, inl, inr, arith, map, ==_iff, ◌==◌, nat_eq, string_eq, select, In, In-append,
  append-In, In-select, select-In, some, Option-cases,
}
use cite_delta_rag.Prelude.Sorting.{sort_by, In-sort_by, sort_by-In}
use cite_delta_rag.Text.{Text}
use cite_delta_rag.Temporal.{AsOf}
use cite_delta_rag.Store.Corpus.{
  SectionVersion, Chunk, CorpusStore, ChunkRow, precedes, is_current, is_known, as_of_predicate,
  joined, row_of, limited, in_force, reads_first, chunks_as_of, admissible_chunk_ids,
  admissible_rows, has_prefix,
}
use cite_delta_rag.Store.Corpus.Reads.{In-mapped, mapped-In}

-- A day before the end of a range that may be open.
abbrev pub IsBeforeEnd : ℕ → Option ℕ → Type 0
IsBeforeEnd day none = Unit {0}
IsBeforeEnd day (some end) = day < end

-- A version that is on record at a time, or now.
abbrev pub IsRecorded : Option ℕ → SectionVersion → Type 0
IsRecorded none sv = sv.superseded_at ≡ none
IsRecorded (some t) sv = (sv.recorded_at ≤ t) × IsBeforeEnd t sv.superseded_at

abbrev pub Matches : (Text → Text → Bool) → Option Text → Text → Type 0
Matches like none path = Unit {0}
Matches like (some prefix) path = like path prefix ≡ true

-- A chunk of a version that is in force.
pub record IsInForce (like : Text → Text → Bool) (st : CorpusStore) (document_id : ℕ) (as_of : AsOf)
    (prefix : Option Text) (c : Chunk) (sv : SectionVersion) : Type 0 where
  pub chunk_in : In c st.chunks
  pub version_in : In sv st.versions
  pub of_version : sv.id ≡ c.section_version_id
  pub of_document : sv.document_id ≡ document_id
  pub has_begun : sv.effective_from ≤ as_of.valid_on
  pub not_ended : IsBeforeEnd as_of.valid_on sv.effective_to
  pub recorded : IsRecorded as_of.known_at sv
  pub present : sv.removed ≡ false
  pub matches : Matches like prefix c.citation_path

-- The row that is read for a chunk of a version.
abbrev pub IsReadAs : Chunk → SectionVersion → ChunkRow → Type 0
IsReadAs c sv row =
    record {
      id = c.id;
      section = sv.section;
      citation_path = c.citation_path;
      text = c.text;
      effective_from = sv.effective_from;
      effective_to = sv.effective_to;
    }
    ≡ row

precedes-IsBeforeEnd : (day : ℕ) (end : Option ℕ) → precedes day end ≡ true → IsBeforeEnd day end
unfolding precedes
precedes-IsBeforeEnd day none e = tt
precedes-IsBeforeEnd day (some end) e = ground (arith, e)

IsBeforeEnd-precedes : (day : ℕ) (end : Option ℕ) → IsBeforeEnd day end → precedes day end ≡ true
unfolding precedes
IsBeforeEnd-precedes day none h = refl
IsBeforeEnd-precedes day (some end) h = ground (arith, h)

current-open : (sv : SectionVersion) → is_current sv ≡ true → sv.superseded_at ≡ none
unfolding is_current
current-open sv e = elim (Option-cases sv.superseded_at) [
  | inl h ↦ h
  | inr (t, h) ↦ absurd (ground (arith, e, h))
]

known-IsRecorded :
    (known_at : Option ℕ) (sv : SectionVersion)
    → is_known known_at sv ≡ true
    → IsRecorded known_at sv
unfolding is_known
known-IsRecorded none sv e = current-open sv e
known-IsRecorded (some t) sv e =
    (ground (arith, e), precedes-IsBeforeEnd t sv.superseded_at (ground (arith, e)))

IsRecorded-known :
    (known_at : Option ℕ) (sv : SectionVersion)
    → IsRecorded known_at sv
    → is_known known_at sv ≡ true
unfolding is_known is_current
IsRecorded-known none sv h = rw h refl
IsRecorded-known (some t) sv h = ground (arith, h.0, IsBeforeEnd-precedes t sv.superseded_at h.1)

-- The rows of the join.
joined-rows :
    (versions : List SectionVersion) (chunks : List Chunk) (c : Chunk) (sv : SectionVersion)
    → In (c, sv) (joined versions chunks)
    → In c chunks × (In sv versions × (sv.id ≡ c.section_version_id))
unfolding joined
joined-rows versions [] c sv m = absurd m
joined-rows versions (d ∷ ds) c sv m =
    elim (In-append (map (λ sw. (d, sw)) (select (λ sw. sw.id == d.section_version_id) versions))
      (joined versions ds) (c, sv) m) [
        | inr later ↦ let (chunk, rest) = joined-rows versions ds c sv later in (inr chunk, rest)
        | inl here ↦
            let (sw, (at, e)) =
              In-mapped (λ sw. (d, sw)) (select (λ sw. sw.id == d.section_version_id) versions)
                (c, sv) here in
            let (place, key) = In-select (λ sw. sw.id == d.section_version_id) versions sw at in
            let same : sv ≡ sw = ap (λ q. q.1) e in
            let chunk : c ≡ d = ap (λ q. q.0) e in
            (
              inl chunk,
              (
                subst (λ x. In x versions) (sym same) place,
                ap (λ x. x.id) same
                    ∙ (==_iff sw.id d.section_version_id).0 key
                    ∙ sym (ap (λ x. x.section_version_id) chunk),
              ),
            )
      ]

rows-joined :
    (versions : List SectionVersion) (chunks : List Chunk) (c : Chunk) (sv : SectionVersion)
    → In c chunks
    → In sv versions
    → sv.id ≡ c.section_version_id
    → In (c, sv) (joined versions chunks)
unfolding joined
rows-joined versions [] c sv m v key = absurd m
rows-joined versions (d ∷ ds) c sv m v key =
    append-In (map (λ sw. (d, sw)) (select (λ sw. sw.id == d.section_version_id) versions))
      (joined versions ds) (c, sv)
      (elim m [
        | inr later ↦ inr (rows-joined versions ds c sv later v key)
        | inl e ↦ inl (
            subst
              (λ x.
                In {A = Chunk × SectionVersion} (c, sv)
                  (map (λ sw. (x, sw)) (select (λ sw. sw.id == x.section_version_id) versions)))
              e
              (mapped-In (λ sw. (c, sw)) (select (λ sw. sw.id == c.section_version_id) versions) sv
                (select-In (λ sw. sw.id == c.section_version_id) versions sv v
                  ((==_iff sv.id c.section_version_id).1 key))))
      ])

module _ (like : Text → Text → Bool) (section_before : String → String → Bool) where
  prefix-Matches :
      (prefix : Option Text) (path : Text)
      → has_prefix like section_before prefix path ≡ true
      → Matches like prefix path
  unfolding has_prefix
  prefix-Matches none path e = tt
  prefix-Matches (some prefix) path e = e

  Matches-prefix :
      (prefix : Option Text) (path : Text)
      → Matches like prefix path
      → has_prefix like section_before prefix path ≡ true
  unfolding has_prefix
  Matches-prefix none path h = refl
  Matches-prefix (some prefix) path h = h

  -- The condition of the reads, as a test.
  passes :
      (st : CorpusStore) (document_id : ℕ) (as_of : AsOf) (prefix : Option Text) (c : Chunk)
      (sv : SectionVersion)
      → In (c, sv) (joined st.versions st.chunks)
      → (as_of_predicate document_id as_of sv
          && has_prefix like section_before prefix c.citation_path)
        ≡ true
      → IsInForce like st document_id as_of prefix c sv
  unfolding as_of_predicate
  passes st document_id as_of prefix c sv m e =
      let (chunk, (version, key)) = joined-rows st.versions st.chunks c sv m in
      record {
        chunk_in = chunk;
        version_in = version;
        of_version = key;
        of_document = ground (arith, e, ==_iff sv.document_id document_id);
        has_begun = ground (arith, e);
        not_ended = precedes-IsBeforeEnd as_of.valid_on sv.effective_to (ground (arith, e));
        recorded = known-IsRecorded as_of.known_at sv (ground (arith, e));
        present = ground (arith, e);
        matches = prefix-Matches prefix c.citation_path (ground (arith, e));
      }

  passing :
      (st : CorpusStore) (document_id : ℕ) (as_of : AsOf) (prefix : Option Text) (c : Chunk)
      (sv : SectionVersion)
      → IsInForce like st document_id as_of prefix c sv
      → In (c, sv) (joined st.versions st.chunks)
        × ((as_of_predicate document_id as_of sv
              && has_prefix like section_before prefix c.citation_path)
            ≡ true)
  unfolding as_of_predicate
  passing st document_id as_of prefix c sv ok = (
    rows-joined st.versions st.chunks c sv ok.chunk_in ok.version_in ok.of_version,
    ground (
      arith,
      ==_iff sv.document_id document_id,
      ok.of_document,
      ok.has_begun,
      IsBeforeEnd-precedes as_of.valid_on sv.effective_to ok.not_ended,
      IsRecorded-known as_of.known_at sv ok.recorded,
      ok.present,
      Matches-prefix prefix c.citation_path ok.matches,
    ),
  )

  -- Without a limit, chunks_as_of reads a row exactly for each chunk in force, with the chunk's text and
  -- its version's dates, and an id is admissible exactly if a chunk in force has it. In force are the
  -- chunks of the document's versions that have begun and not ended on the day, are recorded and not
  -- superseded then (now, if no time is given), are not removed, and have the prefix asked for.
  pub reads-IsInForce :
      (st : CorpusStore) (document_id : ℕ) (as_of : AsOf) (prefix : Option Text)
      → ((row : ChunkRow)
          → In row (chunks_as_of like section_before st document_id as_of prefix none) ↔ (
              (c : Chunk) × (sv : SectionVersion) × IsInForce like st document_id as_of prefix c sv
              × IsReadAs c sv row))
        × ((id : ℕ)
            → In id (admissible_chunk_ids like section_before st document_id as_of prefix) ↔ (
                (c : Chunk) × (sv : SectionVersion) × IsInForce like st document_id as_of prefix c
                  sv
                × (c.id ≡ id)))
  unfolding chunks_as_of limited admissible_chunk_ids in_force admissible_rows has_prefix
  reads-IsInForce st document_id as_of prefix =
      let test = λ (r : Chunk × SectionVersion).
        as_of_predicate document_id as_of r.1
        && has_prefix like section_before prefix r.0.citation_path in
      let all = joined st.versions st.chunks in
      let first = reads_first like section_before in
      (
        λ row. (
          λ m.
              let (p, (at, same)) = In-mapped row_of (sort_by first (select test all)) row m in
              let (place, e) = In-select test all p (In-sort_by first p (select test all) at) in
              (p.0, p.1, passes st document_id as_of prefix p.0 p.1 place e, sym same),
          λ h.
              let (c, sv, ok, same) = h in
              let (place, e) = passing st document_id as_of prefix c sv ok in
              subst (λ r. In r (map row_of (sort_by first (select test all)))) same
                (mapped-In row_of (sort_by first (select test all)) (c, sv)
                  (sort_by-In first (c, sv) (select test all)
                    (select-In test all (c, sv) place e))),
        ),
        λ id. (
          λ m.
              let (p, (at, same)) = In-mapped (λ q. q.0.id) (select test all) id m in
              let (place, e) = In-select test all p at in
              (p.0, p.1, passes st document_id as_of prefix p.0 p.1 place e, sym same),
          λ h.
              let (c, sv, ok, same) = h in
              let (place, e) = passing st document_id as_of prefix c sv ok in
              subst (λ i. In i (map (λ q. q.0.id) (select test all))) same
                (mapped-In (λ q. q.0.id) (select test all) (c, sv)
                  (select-In test all (c, sv) place e)),
        ),
      )
