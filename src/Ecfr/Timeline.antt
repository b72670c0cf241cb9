-- ===== src/Ecfr/Timeline.antt =====
-- ecfr/timeline.py: version records to validity intervals. The inner dictionary's key, the ISO form
-- of a date, is the date.
pub mod Kept
pub mod Search
pub mod InForce
mod Examples
use cite_delta_rag.Prelude.{
  ℕ, String, Bool, Option, none, some, List, [], ◌∷◌, ltb, leb, if◌then◌else◌, nat_eq, string_eq,
}
use cite_delta_rag.Prelude.Dict
use cite_delta_rag.Prelude.Dict.{Dict}
use cite_delta_rag.Ecfr.Models.{VersionRecord, SectionInterval, contains}

abbrev pub Versions : Type 0
Versions = Dict ℕ VersionRecord

-- The test of the first loop, on `existing`.
unfoldable pub is_better : Option VersionRecord → VersionRecord → Bool
is_better none rec = Bool.true
is_better (some existing) rec = ltb rec.issue_date existing.issue_date

unfoldable pub keep_version : Versions → VersionRecord → Versions
unfolding is_better
keep_version versions rec =
    if is_better (Dict.get versions rec.effective_from) rec
    then Dict.put versions rec.effective_from rec
    else versions

abbrev pub versions_of : Dict String Versions → String → Versions
versions_of by_section section = Dict.get_or by_section section []

-- The first loop; reading a missing section of the `defaultdict` makes it empty.
unfoldable pub group : Dict String Versions → List VersionRecord → Dict String Versions
unfolding keep_version
group by_section [] = by_section
group by_section (rec ∷ records) =
    group (Dict.put by_section rec.section (keep_version (versions_of by_section rec.section) rec))
      records

-- `sorted(..., key=effective_from)`, which is stable.
unfoldable pub insert_version : VersionRecord → List VersionRecord → List VersionRecord
insert_version rec [] = rec ∷ []
insert_version rec (r ∷ rs) =
    if leb rec.effective_from r.effective_from then rec ∷ r ∷ rs else r ∷ insert_version rec rs

unfoldable pub sort_versions : List VersionRecord → List VersionRecord
unfolding insert_version
sort_versions [] = []
sort_versions (r ∷ rs) = insert_version r (sort_versions rs)

abbrev pub interval : String → VersionRecord → Option ℕ → SectionInterval
interval section rec nxt = record {
  section = section;
  effective_from = rec.effective_from;
  effective_to = nxt;
  issue_date = rec.issue_date;
  removed = rec.removed;
}

-- Each interval is closed at the next version.
unfoldable pub close : String → List VersionRecord → List SectionInterval
close section [] = []
close section (r ∷ []) = interval section r none ∷ []
close section (r ∷ n ∷ rs) = interval section r (some n.effective_from) ∷ close section (n ∷ rs)

unfoldable pub timelines_of : Dict String Versions → Dict String (List SectionInterval)
unfolding close sort_versions
timelines_of [] = []
timelines_of ((section, versions) ∷ rest) =
    (section, close section (sort_versions (Dict.values versions))) ∷ timelines_of rest

unfoldable pub build_timelines : List VersionRecord → Dict String (List SectionInterval)
unfolding group timelines_of
build_timelines records = timelines_of (group [] records)

-- The loop of `interval_covering`.
unfoldable pub find_covering : ℕ → List SectionInterval → Option SectionInterval
unfolding contains
find_covering day [] = none
find_covering day (iv ∷ ivs) = if contains iv day then some iv else find_covering day ivs

unfoldable pub interval_covering :
    Dict String (List SectionInterval) → String → ℕ → Option SectionInterval
unfolding find_covering
interval_covering timelines section day = find_covering day (Dict.get_or timelines section [])
