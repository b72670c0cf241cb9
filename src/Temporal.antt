-- ===== src/Temporal.antt =====
-- packages/citedelta/src/citedelta/temporal.py: the questions that carry a date. A date is its
-- ordinal, an instant a number of ticks.
use cite_delta_rag.Prelude.{ℕ, ◌++◌, List, Option, none, some, length}
use cite_delta_rag.Prelude.Int.{ℤ}
use cite_delta_rag.Text.{Text, codes}

pub record AsOf : Type 0 where
  pub valid_on : ℕ
  pub known_at : Option ℕ

-- `str(as_of)`; the printing of a date and of an instant are Python's.
abbrev pub as_of_label : (ℕ → Text) → (ℕ → Text) → AsOf → Text
as_of_label date_iso instant_iso a = elim a.known_at [
  | none ↦ codes "valid_on=" ++ date_iso a.valid_on
  | some t ↦ codes "valid_on=" ++ (date_iso a.valid_on ++ (codes " known_at=" ++ instant_iso t))
]

-- `label` is what `str(as_of)` gave.
pub record AdmissibleSet : Type 0 where
  pub ids : List ℤ
  pub label : Text
  pub corpus_size : ℕ

-- `size`
abbrev pub size : AdmissibleSet → ℕ
size s = length s.ids

-- `from_as_of`
abbrev pub from_as_of : (ℕ → Text) → (ℕ → Text) → List ℤ → AsOf → ℕ → AdmissibleSet
from_as_of date_iso instant_iso ids as_of corpus_size = record {
  ids = ids;
  label = as_of_label date_iso instant_iso as_of;
  corpus_size = corpus_size;
}
