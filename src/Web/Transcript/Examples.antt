-- ===== src/Web/Transcript/Examples.antt =====
-- Three turns, the last of them at an earlier date.
use cite_delta_rag.Prelude.{◌≡◌, refl, false, none, List, [], ◌∷◌, ℕ}
use cite_delta_rag.Prelude.Int.{pos}
use cite_delta_rag.Text.{codes}
use cite_delta_rag.Answer.Models.{greeting, refused}
use cite_delta_rag.Web.Transcript.{TurnView, build_transcript, amendments_between}
use cite_delta_rag.Web.Transcript.Ruptures.{turns_of, IsMarked, transcript-IsMarked}

abbrev asked : ℕ → TurnView
asked day = record {
  question = codes "What was the rule?";
  as_of = day;
  result = refused (record {
    query = [];
    as_of = [];
    reason = greeting;
    detail = [];
    trace = none;
    cost_usd = 0;
    latency_ms = 0;
  });
  resolved_query = none;
  continuation = false;
}

abbrev thread : List TurnView
thread = asked 50 ∷ asked 50 ∷ asked 20 ∷ []

abbrev amendment_dates : List ℕ
amendment_dates = 10 ∷ 20 ∷ 30 ∷ 40 ∷ 50 ∷ []

transcript-IsMarked_example :
    (turns_of (build_transcript thread amendment_dates) ≡ thread)
    × IsMarked amendment_dates none (build_transcript thread amendment_dates)
transcript-IsMarked_example = transcript-IsMarked thread amendment_dates

two_between : amendments_between 50 20 amendment_dates ≡ pos 2
unfolding amendments_between
two_between = refl
