-- ===== src/Index/Hnsw.antt =====
-- index/hnsw.py: the navigable small-world graph. A vector's distance to another is a parameter, a
-- number that orders as the 32-bit floats do.
pub mod Layer
pub mod Ranking
pub mod Hits
pub mod Nearest
pub mod Neighbours
pub mod Saved
mod Examples
use cite_delta_rag.Prelude.{
  ℕ, zero, suc, ◌+◌, ◌-◌, Bool, true, false, not, ◌&&◌, ◌||◌, Option, none, some, List, [], ◌∷◌,
  ◌++◌, map, min, max, ltb, leb, ◌==◌, nat_eq, if◌then◌else◌, length, take, get_elem?, ◌>>=◌,
}
use cite_delta_rag.Prelude.Sorting.{sort_by}
use cite_delta_rag.Index.Vector.{Neighbor, neighbor, id_at, key_leb, admits, compile_mask}
use cite_delta_rag.Index.Hnsw.Layer.{Adjacency, Search, search_layer}

-- `HNSWIndex`, without its vectors and the numbers that only `build` reads.
pub record HnswIndex : Type 0 where
  pub ids : List ℕ
  pub graph : List Adjacency
  pub entry : Option ℕ
  pub max_level : ℕ
  pub ef_search : ℕ
  pub max_visits : ℕ

-- `self._graph[layer]`, empty where there is no such layer; the levels searched all exist.
unfoldable pub layer_at : List Adjacency → ℕ → Adjacency
layer_at graph layer = elim (get_elem? graph layer) [ none ↦ [] | some adjacency ↦ adjacency ]

-- `size`
abbrev pub size : HnswIndex → ℕ
size index = length index.ids

-- `compile_filter`
unfoldable pub compile_filter : HnswIndex → List ℕ → List Bool
compile_filter index admissible_ids = compile_mask index.ids admissible_ids

-- `found.sort(key=lambda pair: (pair[0], int(self._ids[pair[1]])))`
unfoldable pub ranks_first : List ℕ → ℕ × ℕ → ℕ × ℕ → Bool
ranks_first ids (d, i) (e, j) = key_leb d (id_at ids i) e (id_at ids j)

-- `[node_id for _, node_id in …][0]`, the entry to the next layer.
unfoldable pub nearest_node : List (ℕ × ℕ) → Option ℕ
nearest_node [] = none
nearest_node ((d, node) ∷ rs) = some node

-- `effort or self._ef_search`
unfoldable pub effort_or : Option ℕ → ℕ → ℕ
effort_or none default = default
effort_or (some zero) default = default
effort_or (some (suc n)) default = suc n

-- The hits of the pairs found, sorted and cut.
unfoldable pub top_hits : HnswIndex → ℕ → List (ℕ × ℕ) → List Neighbor
unfolding ranks_first
top_hits index k found =
    map (λ pair. record { id = id_at index.ids pair.1; distance = pair.0 })
      (take (min k (size index)) (sort_by (ranks_first index.ids) found))

-- The search from the entry point, if there is one.
unfoldable pub from_entry : (ℕ → Option (List Neighbor)) → Option ℕ → Option (List Neighbor)
from_entry f none = some []
from_entry f (some entry) = f entry

module _ (dist : ℕ → ℕ) where
  -- The descent from `layer` to the first; `none` is an IndexError of `[0][1]`.
  unfoldable pub descend : HnswIndex → ℕ → ℕ → Option ℕ
  unfolding nearest_node layer_at
  descend index zero entry = some entry
  descend index (suc layer) entry = do
    found ←
        search_layer dist (admits none) 1 (layer_at index.graph (suc layer)) (entry ∷ []) none
          (size index)
    next ← nearest_node found.results
    descend index layer next

  -- `search` where the index has rows and an entry point, for a positive k.
  unfoldable pub search_from :
      HnswIndex → ℕ → Option ℕ → Option (List Bool) → ℕ → Option (List Neighbor)
  unfolding descend effort_or top_hits layer_at
  search_from index k effort admissible entry = do
    start ← descend index index.max_level entry
    found ←
        search_layer dist (admits admissible) (max (effort_or effort index.ef_search) k)
          (layer_at index.graph 0) (start ∷ []) (some index.max_visits) (size index)
    some (top_hits index k found.results)

  -- A k below one, which the code lets pass, stands as zero.
  unfoldable pub search : HnswIndex → ℕ → Option ℕ → Option (List Bool) → Option (List Neighbor)
  unfolding search_from from_entry
  search index k effort admissible =
      if size index == 0 || k == 0
      then some []
      else from_entry (λ entry. search_from index k effort admissible entry) index.entry
