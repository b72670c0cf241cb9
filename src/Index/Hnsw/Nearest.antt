-- ===== src/Index/Hnsw/Nearest.antt =====
-- What `search` of the graph promises on a well-formed index.
use cite_delta_rag.Prelude.{
  ℕ, ◌≤◌, ◌<◌, ◌≡◌, refl, sym, subst, Bool, true, ◌||◌, Option, none, some, List, [], ◌∷◌, inl, inr,
  arith, nat_eq, ◌==◌, length, In, Distinct, Bool-cases, map, max,
}
use cite_delta_rag.Prelude.Counting.{count_if_le}
use cite_delta_rag.Index.Vector.{range, Neighbor, IsNearest, IsRanked, neighbor, admits}
use cite_delta_rag.Index.Hnsw.{
  HnswIndex, size, top_hits, layer_at, search_from, search, from_entry, effort_or,
}
use cite_delta_rag.Index.Hnsw.Ranking.{length-count, nodes-In, length-nodes_eq}
use cite_delta_rag.Index.Hnsw.Layer.{is_spent}
use cite_delta_rag.Index.Hnsw.Layer.Fuel.{length-range}
use cite_delta_rag.Index.Hnsw.Layer.Kept.{nodes}
use cite_delta_rag.Index.Hnsw.Layer.Invariant.{Reach}
use cite_delta_rag.Index.Hnsw.Layer.Found.{search_layer_found}
use cite_delta_rag.Index.Hnsw.Layer.Exact.{search_layer_exact}
use cite_delta_rag.Index.Hnsw.Hits.{
  IsIndex, one_inside, descend_returns, rows_of, rows-found, results-inside, hits-found,
  hits-IsRanked, rows-Distinct, length-rows, rows_nearest,
}

-- What every search gives: up to k admissible rows, each once, ranked, with their distances.
pub record IsAnswer (index : HnswIndex) (dist : ℕ → ℕ) (allowed : ℕ → Bool) (k : ℕ)
    (hits : List Neighbor) : Type 0 where
  pub rows : List ℕ
  pub hits_are : hits ≡ map (neighbor index.ids dist) rows
  pub at_most : length rows ≤ k
  pub distinct : Distinct rows
  pub admissible : (i : ℕ) → In i rows → (i < size index) × (allowed i ≡ true)
  pub ranked : IsRanked hits

no-IsAnswer :
    (index : HnswIndex) (dist : ℕ → ℕ) (allowed : ℕ → Bool) (k : ℕ)
    → IsAnswer index dist allowed k []
no-IsAnswer index dist allowed k = record {
  rows = [];
  hits_are = refl;
  at_most = omega arith;
  distinct = tt;
  admissible = λ i m. absurd m;
  ranked = tt;
}

search_from_answers :
    (dist : ℕ → ℕ) (index : HnswIndex) (k : ℕ) (effort : Option ℕ) (mask : Option (List Bool))
    (e : ℕ)
    → IsIndex index
    → e < size index
    → (hits : List Neighbor) × ((search_from dist index k effort mask e ≡ some hits)
        × IsAnswer index dist (admits mask) k hits)
unfolding search_from
search_from_answers dist index k effort mask e ok inside =
    let (s, (down, below)) = descend_returns dist index ok index.max_level e inside in
    let ef = max (effort_or effort index.ef_search) k in
    let (out, (found, kept)) =
      search_layer_found dist (admits mask) ef (size index) (layer_at index.graph 0)
        (some index.max_visits) (s ∷ []) (ok.layers 0) (refl, tt) in
    let bound = max ef (length (s ∷ [])) in
    (
      top_hits index k out.results,
      (
        rw (down, found, search_from) refl,
        record {
          rows = rows_of dist index ok k out.results;
          hits_are = hits-found dist index ok (admits mask) ef bound k s out kept;
          at_most = omega (arith, length-rows dist index ok k out.results);
          distinct = rows-Distinct dist index ok k out.results kept.distinct;
          admissible = λ i m.
              let (below_size, a, at) =
                rows-found dist index ok (admits mask) ef bound k s out kept below i m in
              (below_size, a);
          ranked = hits-IsRanked dist index ok k out.results;
        },
      ),
    )

from_entry_answers :
    (dist : ℕ → ℕ) (index : HnswIndex) (k : ℕ) (effort : Option ℕ) (mask : Option (List Bool))
    → IsIndex index
    → (o : Option ℕ) → index.entry ≡ o
    → (hits : List Neighbor) × ((from_entry (λ entry. search_from dist index k effort mask entry) o
          ≡ some hits)
        × IsAnswer index dist (admits mask) k hits)
unfolding from_entry
from_entry_answers dist index k effort mask ok none e =
    ([], (refl, no-IsAnswer index dist (admits mask) k))
from_entry_answers dist index k effort mask ok (some at) e =
    search_from_answers dist index k effort mask at ok (ok.enters at e)

-- On a well-formed index a search returns, whatever the filter and the effort, and gives up to k
-- admissible rows, each once, with their ids and distances, by distance and then id.
pub search_answers :
    (dist : ℕ → ℕ) (index : HnswIndex) (k : ℕ) (effort : Option ℕ) (mask : Option (List Bool))
    → IsIndex index
    → (hits : List Neighbor) × ((search dist index k effort mask ≡ some hits)
        × IsAnswer index dist (admits mask) k hits)
unfolding search
search_answers dist index k effort mask ok = elim (Bool-cases ((size index == 0) || (k == 0))) [
  | inl e ↦ rw (e, search) ([], (refl, no-IsAnswer index dist (admits mask) k))
  | inr e ↦ rw (e, search) (from_entry_answers dist index k effort mask ok index.entry refl)
]

-- Any two rows are joined by a walk along the lowest layer.
abbrev pub IsConnected : HnswIndex → Type 0
IsConnected index =
    (a b : ℕ) → a < size index → b < size index → Reach (layer_at index.graph 0) (a ∷ []) b

search_from-IsNearest :
    (dist : ℕ → ℕ) (index : HnswIndex) (k : ℕ) (effort : Option ℕ) (mask : Option (List Bool))
    (e : ℕ)
    → IsIndex index
    → IsConnected index
    → size index < effort_or effort index.ef_search
    → size index < index.max_visits
    → e < size index
    → (hits : List Neighbor) × ((search_from dist index k effort mask e ≡ some hits)
        × IsNearest (size index) index.ids dist (admits mask) k hits)
unfolding search_from is_spent
search_from-IsNearest dist index k effort mask e ok joined roomy funded inside =
    let (s, (down, below)) = descend_returns dist index ok index.max_level e inside in
    let ef = max (effort_or effort index.ef_search) k in
    let (out, (found, (kept, exact))) =
      search_layer_exact dist (admits mask) ef (size index) (layer_at index.graph 0)
        (some index.max_visits) (s ∷ []) (ok.layers 0) (refl, tt) (one_inside (size index) s below)
        (omega (arith, roomy)) (ground (arith, funded)) in
    let bound = max ef (length (s ∷ [])) in
    let answers = rows-found dist index ok (admits mask) ef bound k s out kept below in
    let all_of = length-count (size index) (admits mask) (nodes out.results) kept.distinct (λ i. (
      λ h. nodes-In (dist i) i out.results ((exact i).0 (joined s i below h.0, h.1)),
      λ m. results-inside dist index ok (admits mask) ef bound s out kept below i m,
    )) in
    (
      top_hits index k out.results,
      (
        rw (down, found, search_from) refl,
        record {
          rows = rows_of dist index ok k out.results;
          hits_are = hits-found dist index ok (admits mask) ef bound k s out kept;
          as_many = omega (
            arith,
            length-rows dist index ok k out.results,
            all_of,
            length-nodes_eq out.results,
            count_if_le (admits mask) (range (size index)),
            length-range (size index),
          );
          distinct = rows-Distinct dist index ok k out.results kept.distinct;
          admissible = λ i m. let (below_size, a, at) = answers i m in (below_size, a);
          ranked = hits-IsRanked dist index ok k out.results;
          nearest = λ i j mi hj aj.
              let (below_size, a, at) = answers i mi in
              rows_nearest dist index ok k out.results i j at
                ((exact j).0 (joined s j below hj, aj));
        },
      ),
    )

entry-IsNearest :
    (dist : ℕ → ℕ) (index : HnswIndex) (k : ℕ) (effort : Option ℕ) (mask : Option (List Bool))
    (e : ℕ)
    → IsIndex index
    → IsConnected index
    → size index < effort_or effort index.ef_search
    → size index < index.max_visits
    → index.entry ≡ some e
    → (hits : List Neighbor) × ((from_entry
            (λ entry. search_from dist index k effort mask entry)
            (some e)
          ≡ some hits)
        × IsNearest (size index) index.ids dist (admits mask) k hits)
unfolding from_entry
entry-IsNearest dist index k effort mask e ok joined roomy funded at =
    search_from-IsNearest dist index k effort mask e ok joined roomy funded (ok.enters e at)

empty-IsNearest :
    (n : ℕ) (ids : List ℕ) (dist : ℕ → ℕ) (allowed : ℕ → Bool) (k : ℕ)
    → ((n == 0) || (k == 0)) ≡ true
    → IsNearest n ids dist allowed k []
unfolding range
empty-IsNearest n ids dist allowed k h = record {
  rows = [];
  hits_are = refl;
  as_many = ground (arith, h, count_if_le allowed (range n), length-range n);
  distinct = tt;
  admissible = λ i m. absurd m;
  ranked = tt;
  nearest = λ i j m b a. absurd m;
}

-- On a well-formed index whose lowest layer joins all its rows, a search whose effort and budget of
-- visits exceed the number of rows is exact, under every filter.
pub search-IsNearest :
    (dist : ℕ → ℕ) (index : HnswIndex) (k : ℕ) (effort : Option ℕ) (mask : Option (List Bool))
    (e : ℕ)
    → IsIndex index
    → IsConnected index
    → size index < effort_or effort index.ef_search
    → size index < index.max_visits
    → index.entry ≡ some e
    → (hits : List Neighbor) × ((search dist index k effort mask ≡ some hits)
        × IsNearest (size index) index.ids dist (admits mask) k hits)
unfolding search
search-IsNearest dist index k effort mask e ok joined roomy funded at =
    elim (Bool-cases ((size index == 0) || (k == 0))) [
      | inl h ↦
          rw (h, search) ([], (refl, empty-IsNearest (size index) index.ids dist (admits mask) k h))
      | inr h ↦
          rw (h, search)
            (subst
              (λ o.
                (hits : List Neighbor) × ((from_entry
                      (λ entry. search_from dist index k effort mask entry) o
                    ≡ some hits)
                  × IsNearest (size index) index.ids dist (admits mask) k hits))
              (sym at) (entry-IsNearest dist index k effort mask e ok joined roomy funded at))
    ]
