-- ===== src/Answer/Models.antt =====
-- answer/models.py: what the answer path can produce. Money is a number of millionths of a dollar
-- and a fused score a number of units of 1e-12, the places to which the code rounds them.
use cite_delta_rag.Prelude.{ℕ, ◌++◌, String, List, Option, none, some, [], ◌∷◌}
use cite_delta_rag.Prelude.Int.{ℤ}
use cite_delta_rag.Prelude.Dict.{Dict}
use cite_delta_rag.Text.{Text, codes}

pub data RefusalReason : Type 0 where
  greeting : RefusalReason
  out_of_scope : RefusalReason
  no_admissible_source : RefusalReason
  low_confidence : RefusalReason
  insufficient_evidence : RefusalReason
  fabricated_citation : RefusalReason
  provider_refused : RefusalReason
  malformed_response : RefusalReason

pub record Citation : Type 0 where
  pub chunk_id : ℤ
  pub citation_path : Text
  pub effective_from : Text
  pub effective_to : Option Text
  pub text : Text
  pub rrf_score : ℕ
  pub ranks : Dict String ℕ
  pub quote : Text

-- An empty string counts as no end.
or_present : Option Text → Text
or_present none = codes "present"
or_present (some []) = codes "present"
or_present (some (c ∷ cs)) = c ∷ cs

unfoldable pub in_force_label : Citation → Text
unfolding or_present
in_force_label c = c.effective_from ++ (codes " → " ++ or_present c.effective_to)

-- retrieve.py, `RetrievalTrace`, with fusion.py, `FusedHit`.
pub record FusedHit : Type 0 where
  pub chunk_id : ℤ
  pub score : ℕ
  pub ranks : Dict String ℕ

pub record RetrievalTrace : Type 0 where
  pub query : Text
  pub as_of : Text
  pub candidates_lexical : ℕ
  pub candidates_vector : ℕ
  pub fused : ℕ
  pub hits : List FusedHit

pub record Answer : Type 0 where
  pub query : Text
  pub as_of : Text
  pub text : Text
  pub citations : List Citation
  pub trace : RetrievalTrace
  pub cost_usd : ℕ
  pub latency_ms : ℕ

pub record Refusal : Type 0 where
  pub query : Text
  pub as_of : Text
  pub reason : RefusalReason
  pub detail : Text
  pub trace : Option RetrievalTrace
  pub cost_usd : ℕ
  pub latency_ms : ℕ

pub data AnswerResult : Type 0 where
  answered : Answer → AnswerResult
  refused : Refusal → AnswerResult
