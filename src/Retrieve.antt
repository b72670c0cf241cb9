-- ===== src/Retrieve.antt =====
-- fusion.py and retrieve.py: two ranked lists fused by reciprocal rank. The arithmetic of the scores is
-- floating point, and a parameter; a score is kept in units of 1e-12, as `_floor12` leaves it.
pub mod Votes
pub mod Fused
mod Examples
use cite_delta_rag.Prelude.{
  ℕ, zero, suc, ◌+◌, String, Bool, true, false, not, ◌&&◌, ◌||◌, Option, none, some, List, [], ◌∷◌,
  ◌++◌, map, ltb, leb, ◌==◌, nat_eq, string_eq, if◌then◌else◌, length, take, elem, ◌≡◌, ◌≤◌,
}
use cite_delta_rag.Prelude.Sorting.{sort_by}
use cite_delta_rag.Prelude.Int.{ℤ, ltb_ℤ, int_eq}
use cite_delta_rag.Prelude.Dict
use cite_delta_rag.Prelude.Dict.{Dict, keys}
use cite_delta_rag.Text.{Text}
use cite_delta_rag.Temporal.{AdmissibleSet}
use cite_delta_rag.Answer.Models.{FusedHit, RetrievalTrace}

pub record RankedList : Type 0 where
  pub name : String
  pub ids : List ℤ

-- The arithmetic: the sum of shares, `1.0 / (k + rank)`, and `_floor12`.
pub record Scoring (S : Type 0) : Type 0 where
  pub nothing : S
  pub plus : S → S → S
  pub minus : S → S → S
  pub share : ℕ → S
  pub floor12 : S → ℕ

-- The dictionaries `scores` and `ranks`.
pub record Tally (S : Type 0) : Type 0 where
  pub scores : Dict ℤ S
  pub ranks : Dict ℤ (Dict String ℕ)

-- `(-hit.score, hit.chunk_id)`
unfoldable pub hit_first : FusedHit → FusedHit → Bool
hit_first a b = ltb b.score a.score || (a.score == b.score && not (ltb_ℤ b.chunk_id a.chunk_id))

-- `fused[:limit] if limit is not None else fused`
unfoldable pub cut : Option ℕ → List FusedHit → List FusedHit
cut none hits = hits
cut (some n) hits = take n hits

module _ {S : Type 0} (scoring : Scoring S) (k : ℕ) where
  -- `ranks.setdefault(chunk_id, {})`
  unfoldable pub ranks_of : Tally S → ℤ → Dict String ℕ
  ranks_of t chunk_id = Dict.get_or t.ranks chunk_id []

  unfoldable pub with_share : Tally S → Dict ℤ S → String → ℕ → ℤ → Tally S
  unfolding ranks_of
  with_share t scores name position chunk_id = record {
    scores =
        Dict.put scores chunk_id (
          scoring.plus (Dict.get_or scores chunk_id scoring.nothing)
            (scoring.share (k + position)));
    ranks = Dict.put t.ranks chunk_id (Dict.put (ranks_of t chunk_id) name position);
  }

  -- One round of the inner loop.
  unfoldable pub vote : Tally S → String → ℕ → ℤ → Tally S
  unfolding with_share
  vote t name position chunk_id = elim (Dict.get (ranks_of t chunk_id) name) [
    | none ↦ with_share t t.scores name position chunk_id
    | some previous ↦
        if leb previous position
        then t
        else with_share t
            (Dict.put t.scores chunk_id (
              scoring.minus (Dict.get_or t.scores chunk_id scoring.nothing)
                (scoring.share (k + previous))))
            name position chunk_id
  ]

  unfoldable pub vote_list : Tally S → String → ℕ → List ℤ → Tally S
  unfolding vote
  vote_list t name position [] = t
  vote_list t name position (chunk_id ∷ ids) =
      vote_list (vote t name position chunk_id) name (suc position) ids

  unfoldable pub vote_lists : Tally S → List RankedList → Tally S
  unfolding vote_list
  vote_lists t [] = t
  vote_lists t (ranked ∷ lists) = vote_lists (vote_list t ranked.name 1 ranked.ids) lists

  -- The hits, in the order of the dictionary.
  unfoldable pub hits_of : Dict ℤ (Dict String ℕ) → Dict ℤ S → List FusedHit
  hits_of ranks [] = []
  hits_of ranks ((chunk_id, score) ∷ rest) =
      record {
        chunk_id = chunk_id;
        score = scoring.floor12 score;
        ranks = Dict.get_or ranks chunk_id [];
      }
      ∷ hits_of ranks rest

  unfoldable pub reciprocal_rank_fusion : List RankedList → Option ℕ → List FusedHit
  unfolding vote_lists hits_of hit_first cut
  reciprocal_rank_fusion lists limit =
      let t = vote_lists (record { scores = []; ranks = [] }) lists in
      cut limit (sort_by hit_first (hits_of t.ranks t.scores))

-- What hybrid_search asks of an index: a filter compiled from ids, and the ids it finds under one.
pub record Index (Q : Type 0) : Type 1 where
  pub Mask : Type 0
  pub compile_filter : List ℤ → Mask
  pub search : Q → ℕ → Mask → List ℤ

module _ {S V : Type 0} (scoring : Scoring S) (lexical : Index Text) (vector : Index V) where
  -- RRF_K is 60; the effort is the vector index's own.
  unfoldable pub hybrid_search : Text → V → AdmissibleSet → ℕ → ℕ → RetrievalTrace
  unfolding reciprocal_rank_fusion
  hybrid_search query query_vector admissible k candidates_per_retriever =
      let lexical_hits =
        lexical.search query candidates_per_retriever (lexical.compile_filter admissible.ids) in
      let vector_hits =
        vector.search query_vector candidates_per_retriever
          (vector.compile_filter admissible.ids) in
      let fused =
        reciprocal_rank_fusion scoring 60
          (record { name = "lexical"; ids = lexical_hits }
            ∷ record { name = "vector"; ids = vector_hits }
            ∷ [])
          (some k) in
      record {
        query = query;
        as_of = admissible.label;
        candidates_lexical = length lexical_hits;
        candidates_vector = length vector_hits;
        fused = length fused;
        hits = fused;
      }
