-- ===== src/Index/Hnsw/Examples.antt =====
-- A graph of three rows in a line, with an upper layer of one.
use cite_delta_rag.Prelude.{
  ℕ, zero, suc, ◌+◌, ◌-◌, ◌≤◌, ◌<◌, ◌≡◌, ◌⊎◌, refl, ap, Bool, true, false, Option, none, some, List,
  [], ◌∷◌, inl, inr, arith, length, All, In-All, Distinct, nat_eq, elem,
}
use cite_delta_rag.Prelude.Sorting.{sort_by, insert_by}
use cite_delta_rag.Prelude.Dict
use cite_delta_rag.Index.Vector.{Neighbor, IsNearest, admits}
use cite_delta_rag.Index.Hnsw.{HnswIndex, layer_at, search, effort_or}
use cite_delta_rag.Index.Hnsw.Layer.{
  Adjacency, neighbours_of, comes_before, search_layer, seed_candidates, is_done, seed_results,
  is_spent, is_worse,
}
use cite_delta_rag.Index.Hnsw.Layer.Fuel.{IsGraph}
use cite_delta_rag.Index.Hnsw.Layer.Invariant.{Reach, start, edge}
use cite_delta_rag.Index.Hnsw.Layer.Kept.{nodes}
use cite_delta_rag.Index.Hnsw.Hits.{IsIndex}
use cite_delta_rag.Index.Hnsw.Nearest.{IsAnswer, IsConnected, search_answers, search-IsNearest}
use cite_delta_rag.Index.Hnsw.Neighbours.{select_neighbours, select_neighbours-IsFull}
use cite_delta_rag.Index.Hnsw.Saved.{save, load, index_round_trip}

abbrev line : Adjacency
line = (0, 1 ∷ []) ∷ (1, 0 ∷ 2 ∷ []) ∷ (2, 1 ∷ []) ∷ []

abbrev index : HnswIndex
index = record {
  ids = 10 ∷ 20 ∷ 30 ∷ [];
  graph = line ∷ ((0, []) ∷ []) ∷ [];
  entry = some 0;
  max_level = 1;
  ef_search = 8;
  max_visits = 100;
}

abbrev dist : ℕ → ℕ
dist zero = 5
dist (suc zero) = 3
dist (suc (suc n)) = 1

abbrev mask : Option (List Bool)
mask = some (true ∷ true ∷ false ∷ [])

-- Rows below a bound, each with distinct entries, make a graph.
rows-IsGraph :
    (n : ℕ) (adjacency : Adjacency)
    → All (λ p. All (λ k. k < n) p.1 × Distinct p.1) adjacency
    → IsGraph n adjacency
unfolding neighbours_of Dict.get
rows-IsGraph n adjacency h = record {
  bounded = λ i k m. In-All (λ k. k < n) (neighbours_of adjacency i) k (row adjacency h i).0 m;
  once = λ i. (row adjacency h i).1;
}
  where
    row :
        (adjacency : Adjacency)
        → All (λ p. All (λ k. k < n) p.1 × Distinct p.1) adjacency
        → (i : ℕ)
        → All (λ k. k < n) (neighbours_of adjacency i) × Distinct (neighbours_of adjacency i)
    row [] h i = (tt, tt)
    row ((j, ks) ∷ rest) h i = ground (arith, h.0, row rest h.1 i)

index-IsIndex : IsIndex index
unfolding layer_at
index-IsIndex = record { layers = layers; enters = λ e h. first e h }
  where
    layers : (layer : ℕ) → IsGraph 3 (layer_at index.graph layer)
    layers zero = rows-IsGraph 3 line (
      ((omega arith, tt), (refl, tt)),
      (
        ((omega arith, (omega arith, tt)), (refl, (refl, tt))),
        (((omega arith, tt), (refl, tt)), tt),
      ),
    )
    layers (suc zero) = rows-IsGraph 3 ((0, []) ∷ []) ((tt, tt), tt)
    layers (suc (suc n)) = rows-IsGraph 3 [] tt

    first : (e : ℕ) → index.entry ≡ some e → e < 3
    first e h = omega (arith, ap {B = ℕ} (λ o. elim o [ none ↦ 0 | some k ↦ k ]) h)

to_middle : (a : ℕ) → a < 3 → Reach line (a ∷ []) 1
unfolding neighbours_of Dict.get
to_middle zero h = edge (start (inl refl)) (inl refl)
to_middle (suc zero) h = start (inl refl)
to_middle (suc (suc zero)) h = edge (start (inl refl)) (inl refl)
to_middle (suc (suc (suc a))) h = absurd (omega (arith, h))

from_middle : (entry : List ℕ) (b : ℕ) → b < 3 → Reach line entry 1 → Reach line entry b
unfolding neighbours_of Dict.get
from_middle entry zero h r = edge r (inl refl)
from_middle entry (suc zero) h r = r
from_middle entry (suc (suc zero)) h r = edge r (inr (inl refl))
from_middle entry (suc (suc (suc b))) h r = absurd (omega (arith, h))

index-IsConnected : IsConnected index
unfolding layer_at
index-IsConnected a b ha hb = from_middle (a ∷ []) b hb (to_middle a ha)

search_run :
    search dist index 2 none mask
    ≡ some (record { id = 20; distance = 3 } ∷ record { id = 10; distance = 5 } ∷ [])
unfolding search search_layer seed_candidates insert_by is_done seed_results admits Dict.get
    is_spent is_worse sort_by
search_run = refl

search-IsNearest_example :
    (hits : List Neighbor) × ((search dist index 2 none mask ≡ some hits)
      × IsNearest 3 index.ids dist (admits mask) 2 hits)
unfolding effort_or
search-IsNearest_example =
    search-IsNearest dist index 2 none mask 0 index-IsIndex index-IsConnected (omega arith)
      (omega arith) refl

search_answers_example :
    (hits : List Neighbor) × ((search dist index 1 (some 1) mask ≡ some hits)
      × IsAnswer index dist (admits mask) 1 hits)
search_answers_example = search_answers dist index 1 (some 1) mask index-IsIndex

abbrev between : ℕ → ℕ → ℕ
between a b = (a - b) + (b - a)

abbrev candidates : List (ℕ × ℕ)
candidates = (4, 4) ∷ (5, 5) ∷ (1, 9) ∷ []

select_neighbours_run : select_neighbours between candidates 2 ≡ 9 ∷ 4 ∷ []
unfolding select_neighbours sort_by comes_before
select_neighbours_run = refl

select_neighbours-IsFull_example :
    Distinct (select_neighbours between candidates 2)
    × (length (select_neighbours between candidates 2) ≤ 2)
    × All (λ n. elem n (nodes candidates) ≡ true) (select_neighbours between candidates 2)
    × ((length (select_neighbours between candidates 2) ≡ 2)
        ⊎ All (λ n. elem n (select_neighbours between candidates 2) ≡ true) (nodes candidates))
select_neighbours-IsFull_example =
    select_neighbours-IsFull between candidates 2 (refl, (refl, (refl, tt)))

index_round_trip_example :
    let loaded = load (save index) in
    (loaded.ids ≡ index.ids)
    × (loaded.entry ≡ index.entry)
    × (loaded.max_level ≡ index.max_level)
    × (loaded.ef_search ≡ index.ef_search)
    × (neighbours_of (layer_at loaded.graph 0) 1 ≡ neighbours_of (layer_at index.graph 0) 1)
index_round_trip_example = index_round_trip index 0 1 (omega arith)
