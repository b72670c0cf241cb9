-- ===== src/Answer/Resolve/Examples.antt =====
-- A model that proposes a date before the corpus begins, with the theorem applied to it.
use cite_delta_rag.Prelude.{◌≡◌, ◌≢◌, ◌⊎◌, refl, true, none, some, List, [], ◌∷◌, arith}
use cite_delta_rag.Text.{codes, strip}
use cite_delta_rag.Answer.Payload.{text, bool, obj, field, end, Library}
use cite_delta_rag.Answer.Service.{CompletionRequest, Outcome, responded, end_turn}
use cite_delta_rag.Answer.Resolve.{
  Calendar, Setting, PriorTurn, resolve_followup, resolve_request, read_resolution, safe_as_of,
}
use cite_delta_rag.Answer.Resolve.Window.{OnSome, IsUsable, resolve_followup-IsUsable}

abbrev library : Library
library = record {
  loads = λ t. some (
      obj (
        field "standalone_question" (text (codes "What was the grace period?"))
          (field "as_of" (text (codes "1999-01-01")) (field "is_followup" (bool true) end))));
  repr = λ v. [];
  parse_int = λ t. none;
}

abbrev calendar : Calendar
calendar = record { from_iso = λ t. some 50; to_iso = λ d. codes "a day" }

abbrev setting : Setting
setting = record {
  current_as_of = 300;
  corpus_since = 100;
  today = 400;
  run_id = codes "run";
  model = codes "small";
}

abbrev turns : List PriorTurn
turns =
    record {
      query = codes "How long may I stay?";
      resolved_query = codes "How long may I stay?";
      as_of = 300;
      answered = true;
    }
    ∷ []

abbrev model : CompletionRequest → Outcome
model r = responded (record { text = codes "{}"; stop_reason = end_turn; cost_usd = 3 })

-- The date is clamped to the first of the corpus.
clamped :
    (resolve_followup model library calendar setting (codes "And back then?") turns).1
    ≡ some (record {
      standalone_question = codes "What was the grace period?";
      as_of = some 100;
      is_followup = true;
    })
unfolding resolve_followup read_resolution safe_as_of strip
clamped = refl

resolve_followup-IsUsable_example :
    OnSome
      (IsUsable setting)
      (resolve_followup model library calendar setting (codes "And back then?") turns).1
    × (((turns ≡ [])
          × ((resolve_followup model library calendar setting (codes "And back then?") turns).0
              ≡ []))
        ⊎ ((turns ≢ [])
            × ((resolve_followup model library calendar setting (codes "And back then?") turns).0
                ≡ resolve_request calendar setting (codes "And back then?") turns ∷ [])))
resolve_followup-IsUsable_example =
    resolve_followup-IsUsable model library calendar setting (codes "And back then?") turns
      (omega arith) refl
