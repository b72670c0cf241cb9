-- ===== src/Answer/Resolve/Window.antt =====
-- What a resolution may hold, whatever the model says.
use cite_delta_rag.Prelude.{
  ◌>>=◌, ℕ, ◌≤◌, ◌≡◌, ◌≢◌, refl, inl, inr, true, Option, none, some, List, [], ◌∷◌, arith, ◌⊎◌,
}
use cite_delta_rag.Text.{Text, strip, truthy}
use cite_delta_rag.Answer.Payload.{Library, item}
use cite_delta_rag.Answer.Service.{CompletionRequest, Outcome, unavailable, responded}
use cite_delta_rag.Answer.Resolve.{
  Calendar, Setting, PriorTurn, Resolution, safe_as_of, clamp, read_resolution, or_question,
  or_unresolved, resolve_outcome, resolve_followup, resolve_request,
}

-- The date, if there is one, is in the corpus's window.
abbrev pub InWindow : Setting → Option ℕ → Type 0
InWindow s none = Unit {0}
InWindow s (some day) = (s.corpus_since ≤ day) × (day ≤ s.today)

-- A resolution that can be searched: its question is not empty, and its date is in the window.
abbrev pub IsUsable : Setting → Resolution → Type 0
IsUsable s r = (truthy r.standalone_question ≡ true) × InWindow s r.as_of

clamp-InWindow :
    (s : Setting) (day : Option ℕ) → s.corpus_since ≤ s.today → InWindow s (clamp s day)
unfolding clamp
clamp-InWindow s none h = tt
clamp-InWindow s (some d) h = (omega (arith, h), omega arith)

safe_as_of-InWindow :
    (cal : Calendar) (s : Setting) (raw : Text)
    → s.corpus_since ≤ s.today
    → InWindow s (safe_as_of cal s raw)
unfolding safe_as_of
safe_as_of-InWindow cal s raw h = ground (arith, clamp-InWindow s (cal.from_iso (strip raw)) h)

or_question-full :
    (question t : Text) → truthy question ≡ true → truthy (or_question question t) ≡ true
unfolding or_question
or_question-full question [] h = h
or_question-full question (c ∷ cs) h = refl

-- A predicate on the result, if there is one.
abbrev pub OnSome {ℓ} : {A : Type ℓ} → (A → Type 0) → Option A → Type 0
OnSome P none = Unit {0}
OnSome P (some a) = P a

OnSome-bind {ℓ κ} :
    {A : Type ℓ} {B : Type κ} (P : B → Type 0) (o : Option A) (f : A → Option B)
    → ((a : A) → OnSome P (f a))
    → OnSome P (o >>= f)
OnSome-bind P none f h = tt
OnSome-bind P (some a) f h = h a

read_resolution-IsUsable :
    (lib : Library) (cal : Calendar) (s : Setting) (question t : Text)
    → s.corpus_since ≤ s.today
    → truthy question ≡ true
    → OnSome (IsUsable s) (read_resolution lib cal s question t)
unfolding read_resolution
read_resolution-IsUsable lib cal s question t h full =
    OnSome-bind (IsUsable s) (lib.loads t) _ λ payload.
      OnSome-bind (IsUsable s) (item payload "standalone_question") _ λ v.
        OnSome-bind (IsUsable s) (item payload "as_of") _ λ w.
          OnSome-bind (IsUsable s) (item payload "is_followup") _
            λ u. (or_question-full question _ full, safe_as_of-InWindow cal s _ h)

or_unresolved-IsUsable :
    (s : Setting) (question : Text) (r : Option Resolution)
    → truthy question ≡ true
    → OnSome (IsUsable s) r
    → IsUsable s (or_unresolved question r)
unfolding or_unresolved
or_unresolved-IsUsable s question none full h = (full, tt)
or_unresolved-IsUsable s question (some r) full h = h

outcome-IsUsable :
    (lib : Library) (cal : Calendar) (s : Setting) (question : Text) (o : Outcome)
    → s.corpus_since ≤ s.today
    → truthy question ≡ true
    → OnSome (IsUsable s) (resolve_outcome lib cal s question o)
unfolding resolve_outcome
outcome-IsUsable lib cal s question unavailable h full = tt
outcome-IsUsable lib cal s question (responded r) h full = ground (
  arith,
  or_unresolved-IsUsable s question (read_resolution lib cal s question r.text) full
      (read_resolution-IsUsable lib cal s question r.text h full),
)

-- What the resolver makes of a question that is not empty, whatever the model says: the question to
-- search is not empty, and the date, if there is one, is neither before the corpus begins nor after
-- today. Without history no request is made, and otherwise exactly one.
pub resolve_followup-IsUsable :
    (complete : CompletionRequest → Outcome) (lib : Library) (cal : Calendar) (s : Setting)
    (question : Text) (history : List PriorTurn)
    → s.corpus_since ≤ s.today
    → truthy question ≡ true
    → OnSome (IsUsable s) (resolve_followup complete lib cal s question history).1
      × (((history ≡ []) × ((resolve_followup complete lib cal s question history).0 ≡ []))
          ⊎ ((history ≢ [])
              × ((resolve_followup complete lib cal s question history).0
                  ≡ resolve_request cal s question history ∷ [])))
unfolding resolve_followup
resolve_followup-IsUsable complete lib cal s question [] h full = ((full, tt), inl (refl, refl))
resolve_followup-IsUsable complete lib cal s question (t ∷ ts) h full = (
  outcome-IsUsable lib cal s question (complete (resolve_request cal s question (t ∷ ts))) h full,
  inr (λ e. cc, refl),
)
