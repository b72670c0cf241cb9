-- ===== src/Ecfr/Timeline/Examples.antt =====
-- One section with a correction and a later version, with the theorems applied to it.
use cite_delta_rag.Prelude.{◌≡◌, refl, inl, true, false, some, List, [], ◌∷◌, In, string_eq}
use cite_delta_rag.Prelude.Dict
use cite_delta_rag.Ecfr.Models.{VersionRecord, SectionInterval, contains}
use cite_delta_rag.Ecfr.Timeline.{build_timelines, interval_covering, keep_version}
use cite_delta_rag.Ecfr.Timeline.InForce.{
  Answers, interval_covering-Answers, interval_covering_unique,
}

abbrev first_version : VersionRecord
first_version = record {
  section = "214.2";
  effective_from = 100;
  issue_date = 105;
  name = "Special requirements";
  removed = false;
  substantive = true;
}

abbrev reissued : VersionRecord
reissued = record first_version { issue_date = 120 }

abbrev second_version : VersionRecord
second_version = record first_version { effective_from = 200; issue_date = 201 }

abbrev records : List VersionRecord
records = second_version ∷ reissued ∷ first_version ∷ []

abbrev first_interval : SectionInterval
first_interval = record {
  section = "214.2";
  effective_from = 100;
  effective_to = some 200;
  issue_date = 105;
  removed = false;
}

found : interval_covering (build_timelines records) "214.2" 199 ≡ some first_interval
unfolding interval_covering build_timelines keep_version Dict.get Dict.put
found = refl

interval_covering-Answers_example :
    Answers records "214.2" 199 (interval_covering (build_timelines records) "214.2" 199)
interval_covering-Answers_example = interval_covering-Answers records "214.2" 199

first_place : In first_interval (Dict.get_or (build_timelines records) "214.2" [])
unfolding build_timelines keep_version Dict.get Dict.put
first_place = inl refl

inside : contains first_interval 150 ≡ true
unfolding contains
inside = refl

interval_covering_unique_example :
    interval_covering (build_timelines records) "214.2" 150 ≡ some first_interval
interval_covering_unique_example =
    interval_covering_unique records "214.2" 150 first_interval first_place inside
