-- ===== src/Answer/Rerank.antt =====
-- answer/rerank.py: the default reranker, which keeps the order of fusion.
use cite_delta_rag.Prelude.{ℕ, List, take}
use cite_delta_rag.Text.{Text}
use cite_delta_rag.Answer.Models.{Citation}

-- `PassthroughReranker.rerank`: `candidates[:k]`.
abbrev pub passthrough : Text → List Citation → ℕ → List Citation
passthrough query candidates k = take k candidates
