-- ===== src/Retrieve/Fused.antt =====
-- Which chunks the fusion gives, and which the retrieval.
use cite_delta_rag.Prelude.{
  ℕ, zero, suc, ◌<◌, ◌⊎◌, ◌≤◌, ◌≡◌, refl, sym, subst, ap, String, true, false, ◌||◌, none, some,
  List, [], ◌∷◌, arith, ==_iff, ◌==◌, nat_eq, string_eq, length, take, elem, Distinct,
  length-take-le, All,
}
use cite_delta_rag.Prelude.Int.{ℤ, ltb_ℤ, int_eq}
use cite_delta_rag.Prelude.Sorting.{insert_by, sort_by, Ordered, sort_by-Ordered}
use cite_delta_rag.Prelude.Dict
use cite_delta_rag.Prelude.Dict.{Dict, keys, Distinct-keys-put}
use cite_delta_rag.Text.{Text}
use cite_delta_rag.Temporal.{AdmissibleSet}
use cite_delta_rag.Answer.Models.{FusedHit}
use cite_delta_rag.Retrieve.{
  RankedList, Scoring, Tally, hit_first, cut, ranks_of, vote_lists, hits_of, reciprocal_rank_fusion,
  Index, hybrid_search,
}
use cite_delta_rag.Retrieve.Votes.{
  chunk_ids, listed, vote_lists_scores, lists-Distinct, ids-hits_of,
}

empty-Scored :
    (S : Type 0) (scoring : Scoring S) (k : ℕ) (id : ℤ) (name : String) (p : ℕ)
    → Dict.get (ranks_of scoring k (record { scores = []; ranks = [] }) id) name ≡ some p
    → elem id (keys {V = S} []) ≡ true
unfolding ranks_of Dict.get
empty-Scored S scoring k id name p e = absurd (ground (arith, e))

-- Sorting keeps the ids, and each once.
elem-insert_hit :
    (h : FusedHit) (hs : List FusedHit) (id : ℤ)
    → elem id (chunk_ids (insert_by hit_first h hs))
      ≡ ((h.chunk_id == id) || elem id (chunk_ids hs))
unfolding insert_by
elem-insert_hit h [] id = ground arith
elem-insert_hit h (g ∷ hs) id = ground (arith, elem-insert_hit h hs id)

insert_hit-Distinct :
    (h : FusedHit) (hs : List FusedHit)
    → elem h.chunk_id (chunk_ids hs) ≡ false
    → Distinct (chunk_ids hs)
    → Distinct (chunk_ids (insert_by hit_first h hs))
unfolding insert_by
insert_hit-Distinct h [] e d = ground arith
insert_hit-Distinct h (g ∷ hs) e d = ground (
  arith,
  insert_hit-Distinct h hs,
  elem-insert_hit h hs g.chunk_id,
  ==_iff g.chunk_id h.chunk_id,
  ==_iff h.chunk_id g.chunk_id,
  d,
)

elem-sort_hits :
    (hs : List FusedHit) (id : ℤ)
    → elem id (chunk_ids (sort_by hit_first hs)) ≡ elem id (chunk_ids hs)
unfolding sort_by
elem-sort_hits [] id = refl
elem-sort_hits (h ∷ hs) id =
    ground (arith, elem-insert_hit h (sort_by hit_first hs) id, elem-sort_hits hs id)

sort_hits-Distinct :
    (hs : List FusedHit) → Distinct (chunk_ids hs) → Distinct (chunk_ids (sort_by hit_first hs))
unfolding sort_by
sort_hits-Distinct [] d = tt
sort_hits-Distinct (h ∷ hs) d =
    insert_hit-Distinct h (sort_by hit_first hs) (ground (arith, elem-sort_hits hs h.chunk_id, d.0))
      (sort_hits-Distinct hs d.1)

hit_total : (a b : FusedHit) → hit_first a b ≡ false → hit_first b a ≡ true
unfolding hit_first
hit_total a b h = ground (arith, ==_iff a.score b.score, ==_iff b.score a.score)

hit_trans : (a b c : FusedHit) → hit_first a b ≡ true → hit_first b c ≡ true → hit_first a c ≡ true
unfolding hit_first
hit_trans a b c h l =
    ground (arith, ==_iff a.score b.score, ==_iff b.score c.score, ==_iff a.score c.score)

-- Best score first, and smaller ids first among equal scores.
abbrev pub IsBetter : FusedHit → FusedHit → Type 0
IsBetter a b = (b.score < a.score) ⊎ ((a.score ≡ b.score) × (ltb_ℤ b.chunk_id a.chunk_id ≡ false))

abbrev pub IsRanked : List FusedHit → Type 0
IsRanked [] = Unit {0}
IsRanked (h ∷ hs) = All (IsBetter h) hs × IsRanked hs

first-IsBetter : (a b : FusedHit) → hit_first a b ≡ true → IsBetter a b
unfolding hit_first
first-IsBetter a b e = ground (arith, e, ==_iff a.score b.score)

All-IsBetter :
    (h : FusedHit) (hs : List FusedHit) → All (λ g. hit_first h g ≡ true) hs → All (IsBetter h) hs
All-IsBetter h [] a = tt
All-IsBetter h (g ∷ hs) a = (first-IsBetter h g a.0, All-IsBetter h hs a.1)

Ordered-IsRanked : (hs : List FusedHit) → Ordered hit_first hs → IsRanked hs
Ordered-IsRanked [] o = tt
Ordered-IsRanked (h ∷ hs) o = (All-IsBetter h hs o.0, Ordered-IsRanked hs o.1)

-- Without a limit the fusion gives each chunk that some list has once, and no other, best score first
-- and smaller ids first among equal scores.
pub reciprocal_rank_fusion-IsUnion :
    {S : Type 0} (scoring : Scoring S) (k : ℕ) (lists : List RankedList)
    → ((id : ℤ)
        → elem id (chunk_ids (reciprocal_rank_fusion scoring k lists none)) ≡ listed id lists)
      × Distinct (chunk_ids (reciprocal_rank_fusion scoring k lists none))
      × IsRanked (reciprocal_rank_fusion scoring k lists none)
unfolding reciprocal_rank_fusion cut
reciprocal_rank_fusion-IsUnion {S} scoring k lists =
    let empty : Tally S = record { scores = []; ranks = [] } in
    let t = vote_lists scoring k empty lists in
    let hits = hits_of scoring k t.ranks t.scores in
    let ids = ids-hits_of scoring k t.ranks t.scores in
    (
      λ id. ground (
        arith,
        elem-sort_hits hits id,
        ap (λ l. elem id l) ids,
        vote_lists_scores scoring k lists empty (empty-Scored S scoring k) id,
      ),
      sort_hits-Distinct hits
          (subst (λ l. Distinct l) (sym ids) (lists-Distinct scoring k lists empty tt)),
      Ordered-IsRanked (sort_by hit_first hits)
          (sort_by-Ordered hit_first hit_total hit_trans hits),
    )

In-ids_take :
    (n : ℕ) (hs : List FusedHit) (id : ℤ)
    → elem id (chunk_ids (take n hs)) ≡ true
    → elem id (chunk_ids hs) ≡ true
In-ids_take zero hs id h = absurd (ground (arith, h))
In-ids_take (suc n) [] id h = h
In-ids_take (suc n) (g ∷ hs) id h = ground (arith, h, In-ids_take n hs id)

Distinct-ids_take :
    (n : ℕ) (hs : List FusedHit) → Distinct (chunk_ids hs) → Distinct (chunk_ids (take n hs))
Distinct-ids_take zero hs d = tt
Distinct-ids_take (suc n) [] d = tt
Distinct-ids_take (suc n) (g ∷ hs) d =
    (ground (arith, d.0, In-ids_take n hs g.chunk_id), Distinct-ids_take n hs d.1)

All-take : (P : FusedHit → Type 0) (n : ℕ) (hs : List FusedHit) → All P hs → All P (take n hs)
All-take P zero hs a = tt
All-take P (suc n) [] a = tt
All-take P (suc n) (g ∷ hs) a = (a.0, All-take P n hs a.1)

IsRanked-take : (n : ℕ) (hs : List FusedHit) → IsRanked hs → IsRanked (take n hs)
IsRanked-take zero hs r = tt
IsRanked-take (suc n) [] r = tt
IsRanked-take (suc n) (g ∷ hs) r = (All-take (IsBetter g) n hs r.0, IsRanked-take n hs r.1)

-- What the limit cuts off, when it does.
ids_take :
    (n : ℕ) (hs : List FusedHit) (id : ℤ)
    → length (take n hs) < n
    → elem id (chunk_ids hs) ≡ true
    → elem id (chunk_ids (take n hs)) ≡ true
ids_take zero hs id l h = absurd (omega (arith, l))
ids_take (suc n) [] id l h = h
ids_take (suc n) (g ∷ hs) id l h = ground (arith, h, l, ids_take n hs id)

-- The hybrid search under the two filters that are compiled from the admissible ids: a chunk of the
-- trace was found by one of the two retrievers, and none is there twice; there are at most k, and each
-- chunk that was found is there if there are fewer; they stand best score first and smaller ids first
-- among equal scores; and the trace counts what each retriever found and what it gives.
pub hybrid_search_finds :
    {S V : Type 0} (scoring : Scoring S) (lexical : Index Text) (vector : Index V) (query : Text)
    (query_vector : V) (admissible : AdmissibleSet) (k depth : ℕ)
    → let t = hybrid_search scoring lexical vector query query_vector admissible k depth in
      let found_lexical = lexical.search query depth (lexical.compile_filter admissible.ids) in
      let found_vector = vector.search query_vector depth (vector.compile_filter admissible.ids) in
      ((id : ℤ)
        → elem id (chunk_ids t.hits) ≡ true
        → (elem id found_lexical || elem id found_vector) ≡ true)
      × ((id : ℤ)
          → length t.hits < k
          → (elem id found_lexical || elem id found_vector) ≡ true
          → elem id (chunk_ids t.hits) ≡ true)
      × (length t.hits ≤ k)
      × Distinct (chunk_ids t.hits)
      × IsRanked t.hits
      × (t.fused ≡ length t.hits)
      × (t.candidates_lexical ≡ length found_lexical)
      × (t.candidates_vector ≡ length found_vector)
unfolding hybrid_search reciprocal_rank_fusion cut
hybrid_search_finds scoring lexical vector query query_vector admissible k depth =
    let lists : List RankedList =
      record {
        name = "lexical";
        ids = lexical.search query depth (lexical.compile_filter admissible.ids);
      }
      ∷ record {
        name = "vector";
        ids = vector.search query_vector depth (vector.compile_filter admissible.ids);
      }
      ∷ [] in
    let (union, distinct, ranked) = reciprocal_rank_fusion-IsUnion scoring 60 lists in
    let all = reciprocal_rank_fusion scoring 60 lists none in
    (
      λ id h. ground (arith, h, union id, In-ids_take k all id),
      λ id l h. ids_take k all id l (ground (arith, h, union id)),
      length-take-le k all,
      Distinct-ids_take k all distinct,
      IsRanked-take k all ranked,
      refl,
      refl,
      refl,
    )
