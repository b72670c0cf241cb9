-- ===== src/Retrieve/Examples.antt =====
-- Two short lists, and two indexes that filter a list.
use cite_delta_rag.Prelude.{
  ℕ, zero, suc, ◌+◌, ◌/◌, ◌-◌, ◌≤◌, ◌<◌, ◌||◌, refl, ◌≡◌, ap, true, none, List, [], ◌∷◌, arith,
  length, elem, take, select, All, Distinct, length-take-le, Bool-cases, ==_iff, ◌==◌,
}
use cite_delta_rag.Prelude.Int.{ℤ, pos, int_eq}
use cite_delta_rag.Prelude.Sorting.{sort_by}
use cite_delta_rag.Text.{Text, codes}
use cite_delta_rag.Temporal.{AdmissibleSet}
use cite_delta_rag.Prelude.Dict
use cite_delta_rag.Retrieve.{RankedList, Scoring, Index, reciprocal_rank_fusion, hybrid_search}
use cite_delta_rag.Retrieve.Votes.{chunk_ids, listed}
use cite_delta_rag.Retrieve.Fused.{IsRanked, reciprocal_rank_fusion-IsUnion, hybrid_search_finds}

-- Shares in units of 1e-12.
abbrev scoring : Scoring ℕ
scoring = record {
  nothing = 0;
  plus = λ a b. a + b;
  minus = λ a b. a - b;
  share = λ n. 1_000_000_000_000 / n;
  floor12 = λ a. a;
}

abbrev lists : List RankedList
lists =
    record { name = "lexical"; ids = pos 7 ∷ pos 3 ∷ pos 7 ∷ [] }
    ∷ record { name = "vector"; ids = pos 3 ∷ pos 9 ∷ [] }
    ∷ []

reciprocal_rank_fusion-IsUnion_example :
    ((id : ℤ)
      → elem id (chunk_ids (reciprocal_rank_fusion scoring 60 lists none)) ≡ listed id lists)
    × Distinct (chunk_ids (reciprocal_rank_fusion scoring 60 lists none))
    × IsRanked (reciprocal_rank_fusion scoring 60 lists none)
reciprocal_rank_fusion-IsUnion_example = reciprocal_rank_fusion-IsUnion scoring 60 lists

abbrev filtered : {Q : Type 0} → List ℤ → Index Q
filtered ids = record {
  Mask = List ℤ;
  compile_filter = λ admissible. admissible;
  search = λ query n admissible. take n (select (λ i. elem i admissible) ids);
}

abbrev admissible : AdmissibleSet
admissible = record {
  ids = pos 3 ∷ pos 9 ∷ [];
  label = codes "valid_on=2020-01-01";
  corpus_size = 4;
}

abbrev by_words : Index Text
by_words = filtered (pos 7 ∷ pos 3 ∷ [])

abbrev by_vectors : Index ℕ
by_vectors = filtered (pos 9 ∷ pos 3 ∷ [])

hybrid_search_finds_example :
    let t = hybrid_search scoring by_words by_vectors (codes "visa") 5 admissible 1 50 in
    let found_lexical = by_words.search (codes "visa") 50 admissible.ids in
    let found_vector = by_vectors.search 5 50 admissible.ids in
    ((id : ℤ)
      → elem id (chunk_ids t.hits) ≡ true
      → (elem id found_lexical || elem id found_vector) ≡ true)
    × ((id : ℤ)
        → length t.hits < 1
        → (elem id found_lexical || elem id found_vector) ≡ true
        → elem id (chunk_ids t.hits) ≡ true)
    × (length t.hits ≤ 1)
    × Distinct (chunk_ids t.hits)
    × IsRanked t.hits
    × (t.fused ≡ length t.hits)
    × (t.candidates_lexical ≡ length found_lexical)
    × (t.candidates_vector ≡ length found_vector)
hybrid_search_finds_example =
    hybrid_search_finds scoring by_words by_vectors (codes "visa") 5 admissible 1 50

-- Chunk 3 is first in the one list and second in the other.
first_hit :
    chunk_ids (hybrid_search scoring by_words by_vectors (codes "visa") 5 admissible 1 50).hits
    ≡ pos 3 ∷ []
unfolding hybrid_search sort_by cite_delta_rag.Prelude.Int.beq_ℤ Dict.get Dict.put
first_hit = refl
