-- ===== src/Answer/Validator.antt =====
-- answer/validator.py: every citation is proved before the user sees it.
pub mod Sound
pub mod Cited
use cite_delta_rag.Prelude.{
  ℕ, Bool, true, false, not, ◌&&◌, Option, none, some, List, [], ◌∷◌, ◌++◌, if◌then◌else◌, elem,
}
use cite_delta_rag.Prelude.Int.{ℤ, int_eq}
use cite_delta_rag.Prelude.Dict.{Dict}
use cite_delta_rag.Prelude.Dict
use cite_delta_rag.Text.{Text, codes, split, join, strip, contains, truthy}
use cite_delta_rag.Temporal.{AdmissibleSet}
use cite_delta_rag.Answer.Models.{Citation}

pub record CitedRef : Type 0 where
  pub chunk_id : ℤ
  pub quote : Text

unfoldable pub normalize : Text → Text
normalize text = join (codes " ") (split text)

-- The four values of a failure's `check`; the last stands for its two `detail` messages.
pub data Check : Type 0 where
  exists : Check
  retrieved : Check
  admissible : Check
  no_quote : Check
  quote_absent : Check

pub record ValidationFailure : Type 0 where
  pub chunk_id : ℤ
  pub check : Check

pub record ValidationResult : Type 0 where
  pub cited : List ℤ
  pub failures : List ValidationFailure

is_empty {ℓ} : {A : Type ℓ} → List A → Bool
is_empty [] = true
is_empty (x ∷ xs) = false

unfoldable pub ok : ValidationResult → Bool
unfolding is_empty
ok r = is_empty r.failures

-- The keyword arguments of `validate_citations`.
pub record Evidence : Type 0 where
  pub shown : Dict ℤ Citation
  pub in_force : AdmissibleSet
  pub corpus_ids : Option (List ℤ)

-- `corpus_ids is not None and ref.chunk_id not in corpus_ids`
unfoldable pub unknown_id : Option (List ℤ) → ℤ → Bool
unknown_id none i = false
unknown_id (some ids) i = not (elem i ids)

-- The checks after `retrieved.get`.
unfoldable pub check_source : Evidence → CitedRef → Option Citation → Option Check
unfolding normalize
check_source ev ref none = some retrieved
check_source ev ref (some source) =
    if not (elem ref.chunk_id ev.in_force.ids)
    then some admissible
    else if not (truthy (strip ref.quote))
    then some no_quote
    else if not (contains (normalize source.text) (normalize ref.quote))
    then some quote_absent
    else none

-- The body of the loop for an id that was not seen before.
unfoldable pub check_ref : Evidence → CitedRef → Option Check
unfolding unknown_id check_source
check_ref ev ref =
    if unknown_id ev.corpus_ids ref.chunk_id
    then some exists
    else check_source ev ref (Dict.get ev.shown ref.chunk_id)

unfoldable pub failed : CitedRef → Option Check → List ValidationFailure
failed ref none = []
failed ref (some c) = record { chunk_id = ref.chunk_id; check = c } ∷ []

-- The loop over `refs`, with `seen` and `failures`.
unfoldable pub validate_loop :
    Evidence → List CitedRef → List ℤ → List ValidationFailure → ValidationResult
unfolding failed
validate_loop ev [] seen failures = record { cited = seen; failures = failures }
validate_loop ev (ref ∷ refs) seen failures =
    let again = elem ref.chunk_id seen in
    validate_loop ev refs (if again then seen else seen ++ (ref.chunk_id ∷ []))
      (if again then failures else failures ++ failed ref (check_ref ev ref))

unfoldable pub validate_citations : List CitedRef → Evidence → ValidationResult
unfolding validate_loop
validate_citations refs ev = validate_loop ev refs [] []
