-- ===== src/Answer/Gate.antt =====
-- answer/gate.py: the checks before any token is spent. Scores count units of 1e-12.
use cite_delta_rag.Prelude.{ℕ, ◌++◌, List, [], ◌∷◌, ltb, if◌then◌else◌}
use cite_delta_rag.Text.{Text, codes}
use cite_delta_rag.Answer.Models.{
  RefusalReason, no_admissible_source, low_confidence, FusedHit, RetrievalTrace,
}

-- 0.02
abbrev pub min_rrf_score : ℕ
min_rrf_score = 20_000_000_000

-- A verdict that has not passed carries a reason and its wording.
pub data GateVerdict : Type 0 where
  passed : GateVerdict
  stopped : RefusalReason → Text → GateVerdict

no_source_detail : Text → Text
no_source_detail as_of =
    codes "No provision in force on " ++ (as_of ++ codes " matched this question.")

weak_detail : Text
weak_detail = codes "The closest matching provisions were only weakly related to the question."

unfoldable pub gate_hits : Text → List FusedHit → GateVerdict
unfolding no_source_detail weak_detail
gate_hits as_of [] = stopped no_admissible_source (no_source_detail as_of)
gate_hits as_of (top ∷ hits) =
    if ltb top.score min_rrf_score then stopped low_confidence weak_detail else passed

unfoldable pub pre_flight : RetrievalTrace → GateVerdict
unfolding gate_hits
pre_flight trace = gate_hits trace.as_of trace.hits
