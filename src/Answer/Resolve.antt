-- ===== src/Answer/Resolve.antt =====
-- answer/resolve.py: a follow-up to a standalone question and a date. A date is its ordinal.
pub mod Window
mod Examples
use cite_delta_rag.Prelude.{
  ◌>>=◌, ℕ, Bool, true, false, Option, none, some, List, [], ◌∷◌, ◌++◌, map, min, max, ◌==◌, nat_eq,
  if◌then◌else◌, not,
}
use cite_delta_rag.Text.{Text, codes, join, strip, truthy, same_text}
use cite_delta_rag.Answer.Payload.{Library, item, to_bool, to_text}
use cite_delta_rag.Answer.Service.{
  CompletionRequest, CompletionResponse, Outcome, unavailable, responded, was_refused,
}

-- What the resolver takes from Python's `datetime`: `date.fromisoformat`, where it raises no
-- `ValueError`, and `isoformat`.
pub record Calendar : Type 0 where
  pub from_iso : Text → Option ℕ
  pub to_iso : ℕ → Text

pub record PriorTurn : Type 0 where
  pub query : Text
  pub resolved_query : Text
  pub as_of : ℕ
  pub answered : Bool

pub record Resolution : Type 0 where
  pub standalone_question : Text
  pub as_of : Option ℕ
  pub is_followup : Bool

-- The keyword arguments of `resolve_followup` after `question` and `history`.
pub record Setting : Type 0 where
  pub current_as_of : ℕ
  pub corpus_since : ℕ
  pub today : ℕ
  pub run_id : Text
  pub model : Text

unfoldable pub clamp : Setting → Option ℕ → Option ℕ
clamp s none = none
clamp s (some parsed) = some (min (max parsed s.corpus_since) s.today)

unfoldable pub safe_as_of : Calendar → Setting → Text → Option ℕ
unfolding clamp
safe_as_of cal s raw =
    let day = clamp s (cal.from_iso (strip raw)) in if truthy (strip raw) then day else none

unfoldable pub turn_lines : Calendar → PriorTurn → List Text
turn_lines cal t =
    (codes "[" ++ (cal.to_iso t.as_of ++ (codes "] user: " ++ t.query)))
      ∷ (if same_text t.resolved_query t.query
          then []
          else (codes "           (searched: " ++ (t.resolved_query ++ codes ")")) ∷ [])
    ++ ((if t.answered
          then codes "           assistant: answered"
          else codes "           assistant: declined")
        ∷ [])

history_lines : Calendar → List PriorTurn → List Text
unfolding turn_lines
history_lines cal [] = []
history_lines cal (t ∷ ts) = turn_lines cal t ++ history_lines cal ts

unfoldable pub history_block : Calendar → List PriorTurn → Text
unfolding history_lines join
history_block cal history = join (codes "\n") (history_lines cal history)

abbrev pub resolve_request : Calendar → Setting → Text → List PriorTurn → CompletionRequest
resolve_request cal s question history = record {
  model = s.model;
  user =
      codes "Today is "
      ++ (cal.to_iso s.today
          ++ (codes ". The conversation is currently set to "
              ++ (cal.to_iso s.current_as_of
                  ++ (codes ".\nRegulation history is available from "
                      ++ (cal.to_iso s.corpus_since
                          ++ (codes " onward.\n\nConversation so far:\n"
                              ++ (history_block cal history
                                  ++ (codes "\n\nNewest message: " ++ question))))))));
  max_tokens = 400;
  run_id = s.run_id;
}

abbrev pub unresolved : Text → Resolution
unresolved question = record { standalone_question = question; as_of = none; is_followup = false }

-- `str(…).strip() or question`
or_question : Text → Text → Text
or_question question [] = question
or_question question (c ∷ cs) = c ∷ cs

-- The body of the `try`; `none` is its `except`.
unfoldable pub read_resolution : Library → Calendar → Setting → Text → Text → Option Resolution
unfolding item to_bool to_text or_question safe_as_of
read_resolution lib cal s question t = do
  payload ← lib.loads t
  standalone_value ← item payload "standalone_question"
  as_of_value ← item payload "as_of"
  followup_value ← item payload "is_followup"
  some (record {
    standalone_question = or_question question (strip (to_text lib standalone_value));
    as_of = safe_as_of cal s (to_text lib as_of_value);
    is_followup = to_bool followup_value;
  })

or_unresolved : Text → Option Resolution → Resolution
or_unresolved question none = unresolved question
or_unresolved question (some r) = r

-- From the response on; `none` is a `CompletionError` that is let through.
unfoldable pub resolve_outcome : Library → Calendar → Setting → Text → Outcome → Option Resolution
unfolding was_refused read_resolution or_unresolved
resolve_outcome lib cal s question unavailable = none
resolve_outcome lib cal s question (responded r) =
    if was_refused r
    then some (unresolved question)
    else some (or_unresolved question (read_resolution lib cal s question r.text))

-- The requests that were made, and the resolution.
unfoldable pub resolve_followup :
    (CompletionRequest → Outcome)
    → Library
    → Calendar
    → Setting
    → Text
    → List PriorTurn
    → List CompletionRequest × Option Resolution
unfolding resolve_outcome
resolve_followup complete lib cal s question [] = ([], some (unresolved question))
resolve_followup complete lib cal s question (t ∷ ts) =
    let request = resolve_request cal s question (t ∷ ts) in
    (request ∷ [], resolve_outcome lib cal s question (complete request))
