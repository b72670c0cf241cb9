-- ===== src/Ecfr/Timeline/InForce.antt =====
-- The interval that covers a day, described by the records alone.
use cite_delta_rag.Prelude.{
  ℕ, ◌≤◌, ◌<◌, ◌≡◌, refl, ap, subst, inl, inr, true, String, Option, none, some, List, [], ◌∷◌,
  arith, ◌==◌, ==_iff, string_eq, In, In-All, Bool-cases,
}
use cite_delta_rag.Prelude.Dict
use cite_delta_rag.Prelude.Dict.{Dict}
use cite_delta_rag.Ecfr.Models.{VersionRecord, SectionInterval, contains}
use cite_delta_rag.Ecfr.Timeline.{
  Versions, versions_of, group, sort_versions, close, timelines_of, build_timelines,
  interval_covering,
}
use cite_delta_rag.Ecfr.Timeline.Search.{
  sort-Ascending, In-sort, sort-In, MadeFrom, Covers, find-Covers, find_unique,
}
use cite_delta_rag.Ecfr.Timeline.Kept.{kept_first, kept_all}

-- The version of a section that is in force on a day: of the section's records that have taken
-- effect, one that took effect last, and of those one that was issued first.
pub record IsInForce (records : List VersionRecord) (section : String) (day : ℕ) (r : VersionRecord)
    : Type 0 where
  pub recorded : In r records
  pub same_section : r.section ≡ section
  pub has_begun : r.effective_from ≤ day
  pub latest :
      (y : VersionRecord)
      → In y records
      → y.section ≡ section
      → y.effective_from ≤ day
      → y.effective_from ≤ r.effective_from
  pub first_issued :
      (y : VersionRecord)
      → In y records
      → y.section ≡ section
      → y.effective_from ≡ r.effective_from
      → r.issue_date ≤ y.issue_date

abbrev pub Answers : List VersionRecord → String → ℕ → Option SectionInterval → Type 0
Answers records section day none =
    (y : VersionRecord) → In y records → y.section ≡ section → day < y.effective_from
Answers records section day (some iv) =
    (iv.section ≡ section)
    × (contains iv day ≡ true)
    × ((r : VersionRecord) × IsInForce records section day r × MadeFrom r iv)

get-timelines_of :
    (d : Dict String Versions) (section : String)
    → Dict.get_or (timelines_of d) section []
      ≡ close section (sort_versions (Dict.values (versions_of d section)))
unfolding timelines_of Dict.get
get-timelines_of [] section = unfold close sort_versions in refl
get-timelines_of ((j, vs) ∷ d) section = elim (Bool-cases (j == section)) [
  | inl e ↦
      rw (e, Dict.get, Dict.get_or)
        (ap (λ s. close s (sort_versions (Dict.values vs))) ((==_iff j section).0 e))
  | inr e ↦ rw (e, Dict.get, Dict.get_or) (get-timelines_of d section)
]

kept_sorted :
    (records : List VersionRecord) (section : String) (y : VersionRecord)
    → In y records
    → y.section ≡ section
    → (x : VersionRecord) × In x
        (sort_versions (Dict.values (versions_of (group [] records) section)))
      × (x.effective_from ≡ y.effective_from)
kept_sorted records section y m s =
    let (x, place, day) = kept_all records y m in
    (
      x,
      sort-In x (Dict.values (versions_of (group [] records) section))
          (subst (λ k. In x (Dict.values (versions_of (group [] records) k))) s place),
      day,
    )

Covers-Answers :
    (records : List VersionRecord) (section : String) (day : ℕ) (o : Option SectionInterval)
    → Covers day section (sort_versions (Dict.values (versions_of (group [] records) section))) o
    → Answers records section day o
Covers-Answers records section day none h = λ y m s.
    let (x, place, same) = kept_sorted records section y m s in
    omega (arith, same, In-All (λ v. day < v.effective_from) _ x h place)
Covers-Answers records section day (some iv) (same, inside, (r, (place, begun, top), made)) =
    let (mem, sec, first) = kept_first records section r (In-sort r _ place) in
    (
      same,
      inside,
      (
        r,
        record {
          recorded = mem;
          same_section = sec;
          has_begun = begun;
          latest = λ y m s b.
              let (x, at, eq) = kept_sorted records section y m s in
              omega (arith, eq, top x at (omega (arith, eq)));
          first_issued = first;
        },
        made,
      ),
    )

-- What `interval_covering` finds in the timelines of any records: the interval of the version in
-- force, which contains the day; and nothing only if no record of the section has taken effect.
pub interval_covering-Answers :
    (records : List VersionRecord) (section : String) (day : ℕ)
    → Answers records section day (interval_covering (build_timelines records) section day)
unfolding interval_covering build_timelines
interval_covering-Answers records section day = rw get-timelines_of (
    Covers-Answers records section day _ (
      find-Covers day section _
        (sort-Ascending (Dict.values (versions_of (group [] records) section)))))

-- The intervals of a section do not overlap: any of them that contains a day is the one that
-- `interval_covering` finds.
pub interval_covering_unique :
    (records : List VersionRecord) (section : String) (day : ℕ) (iv : SectionInterval)
    → In iv (Dict.get_or (build_timelines records) section [])
    → contains iv day ≡ true
    → interval_covering (build_timelines records) section day ≡ some iv
unfolding interval_covering build_timelines
interval_covering_unique records section day iv m h = rw get-timelines_of (
    find_unique day section _ iv
      (sort-Ascending (Dict.values (versions_of (group [] records) section)))
      (rw get-timelines_of at m) h)
