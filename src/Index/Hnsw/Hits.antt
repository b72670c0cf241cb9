-- ===== src/Index/Hnsw/Hits.antt =====
-- How `search` of the graph comes to its hits on a well-formed index.
use cite_delta_rag.Prelude.{
  ℕ, zero, suc, ◌≤◌, ◌<◌, ◌≡◌, ◌⊎◌, refl, subst, Bool, true, false, none, some, List, [], ◌∷◌, inl,
  inr, arith, ==_iff, nat_eq, length, In, In-take, Distinct, map, min, max, take, All,
}
use cite_delta_rag.Prelude.Sorting.{
  sort_by, In-sort_by, sort_by-In, Ordered, sort_by-Ordered, take-first,
}
use cite_delta_rag.Index.Vector.{Neighbor, IsRanked, neighbor, id_at, key_leb, admits}
use cite_delta_rag.Index.Hnsw.{
  HnswIndex, size, ranks_first, top_hits, layer_at, descend, nearest_node,
}
use cite_delta_rag.Index.Hnsw.Ranking.{
  Distinct-sort_by, length-sort_by, In_nodes_take, nodes-In, Distinct-take, length-take-min,
  length-nodes_eq,
}
use cite_delta_rag.Index.Hnsw.Layer.{Adjacency, Search}
use cite_delta_rag.Index.Hnsw.Layer.Fuel.{IsGraph}
use cite_delta_rag.Index.Hnsw.Layer.Kept.{nodes}
use cite_delta_rag.Index.Hnsw.Layer.Invariant.{Reach, start, edge, IsKept}
use cite_delta_rag.Index.Hnsw.Layer.Found.{search_layer_found}
use cite_delta_rag.Index.Hnsw.Layer.Room.{In_nodes}

-- Edges and the entry point are rows of the index.
pub record IsIndex (index : HnswIndex) : Type 0 where
  pub layers : (layer : ℕ) → IsGraph (size index) (layer_at index.graph layer)
  pub enters : (e : ℕ) → index.entry ≡ some e → e < size index

ranks_total :
    (ids : List ℕ) (a b : ℕ × ℕ) → ranks_first ids a b ≡ false → ranks_first ids b a ≡ true
unfolding ranks_first
ranks_total ids (d, i) (e, j) h = ground (arith, ==_iff d e, ==_iff e d)

ranks_trans :
    (ids : List ℕ) (a b c : ℕ × ℕ)
    → ranks_first ids a b ≡ true
    → ranks_first ids b c ≡ true
    → ranks_first ids a c ≡ true
unfolding ranks_first
ranks_trans ids (d, i) (e, j) (f, k) h l = ground (arith, ==_iff d e, ==_iff e f, ==_iff d f)

sorted :
    (ids : List ℕ) (found : List (ℕ × ℕ))
    → Ordered (ranks_first ids) (sort_by (ranks_first ids) found)
sorted ids found = sort_by-Ordered (ranks_first ids) (ranks_total ids) (ranks_trans ids) found

abbrev hit : List ℕ → ℕ × ℕ → Neighbor
hit ids pair = record { id = id_at ids pair.1; distance = pair.0 }

ranked_after :
    (ids : List ℕ) (p : ℕ × ℕ) (k : ℕ) (qs : List (ℕ × ℕ))
    → All (λ x. ranks_first ids p x ≡ true) qs
    → All (λ x. key_leb p.0 (id_at ids p.1) x.distance x.id ≡ true) (map (hit ids) (take k qs))
unfolding ranks_first
ranked_after ids p zero qs a = tt
ranked_after ids p (suc k) [] a = tt
ranked_after ids p (suc k) (q ∷ qs) a = (a.0, ranked_after ids p k qs a.1)

IsRanked-take :
    (ids : List ℕ) (k : ℕ) (ps : List (ℕ × ℕ))
    → Ordered (ranks_first ids) ps
    → IsRanked (map (hit ids) (take k ps))
IsRanked-take ids zero ps o = tt
IsRanked-take ids (suc k) [] o = tt
IsRanked-take ids (suc k) (p ∷ ps) o = (ranked_after ids p k ps o.0, IsRanked-take ids k ps o.1)

-- Pairs that hold their nodes' distances make the hits of those nodes.
hits_of_nodes :
    (ids : List ℕ) (dist : ℕ → ℕ) (ps : List (ℕ × ℕ))
    → ((q : ℕ × ℕ) → In q ps → q.0 ≡ dist q.1)
    → map (hit ids) ps ≡ map (neighbor ids dist) (nodes ps)
hits_of_nodes ids dist [] h = refl
hits_of_nodes ids dist (p ∷ ps) h =
    ground (arith, h p (inl refl), hits_of_nodes ids dist ps (λ q m. h q (inr m)))

Reach-inside :
    (n : ℕ) (adjacency : Adjacency) (entry : List ℕ)
    → IsGraph n adjacency
    → ((i : ℕ) → In i entry → i < n)
    → (i : ℕ) → Reach adjacency entry i
    → i < n
Reach-inside n adjacency entry g h i (start m) = h i m
Reach-inside n adjacency entry g h i (edge {a} r m) = g.bounded a i m

pub one_inside : (n e : ℕ) → e < n → (i : ℕ) → In i (e ∷ []) → i < n
one_inside n e h i (inl same) = omega (arith, h, same)
one_inside n e h i (inr m) = absurd m

first_inside :
    (n : ℕ) (rs : List (ℕ × ℕ))
    → 1 ≤ length rs
    → ((q : ℕ × ℕ) → In q rs → q.1 < n)
    → (s : ℕ) × ((nearest_node rs ≡ some s) × (s < n))
unfolding nearest_node
first_inside n [] h inside = absurd (omega (arith, h))
first_inside n ((d, s) ∷ rs) h inside = (s, (refl, inside (d, s) (inl refl)))

module _ (dist : ℕ → ℕ) (index : HnswIndex) (ok : IsIndex index) where
  -- A search without a filter from one node finds some node.
  some_found :
      (allowed : ℕ → Bool) (adjacency : Adjacency) (e bound : ℕ) (out : Search)
      → allowed e ≡ true
      → IsKept dist allowed 1 bound adjacency (e ∷ []) [] out
      → 1 ≤ length out.results
  some_found allowed adjacency e bound out a kept = elim (kept.best e (kept.begun e (inl refl)) a) [
    | inl absent ↦ absurd absent
    | inr (inl at) ↦ positive (dist e, e) out.results at
    | inr (inr beaten) ↦ beaten.0
  ]
    where
      positive : (p : ℕ × ℕ) (rs : List (ℕ × ℕ)) → In p rs → 1 ≤ length rs
      positive p [] m = absurd m
      positive p (r ∷ rs) m = omega arith

  -- The descent finds an entry point of the last layer: no list it indexes is empty.
  pub descend_returns :
      (layer e : ℕ)
      → e < size index
      → (s : ℕ) × ((descend dist index layer e ≡ some s) × (s < size index))
  unfolding descend admits
  descend_returns zero e h = (e, (refl, h))
  descend_returns (suc layer) e h =
      let adjacency = layer_at index.graph (suc layer) in
      let (out, (found, kept)) =
        search_layer_found dist (admits none) 1 (size index) adjacency none (e ∷ [])
          (ok.layers (suc layer)) (refl, tt) in
      let (s, (nearest, inside)) =
        first_inside (size index) out.results
          (some_found (admits none) adjacency e (max 1 (length (e ∷ []))) out refl kept)
          (λ q m.
            Reach-inside (size index) adjacency (e ∷ []) (ok.layers (suc layer))
              (one_inside (size index) e h) q.1 (kept.reached q.1 (kept.results_are q m).0)) in
      let (last, (rest, below)) = descend_returns layer s inside in
      (last, (rw (found, nearest, rest, descend) refl, below))

  -- The rows of the hits.
  abbrev pub rows_of : ℕ → List (ℕ × ℕ) → List ℕ
  rows_of k found = nodes (take (min k (size index)) (sort_by (ranks_first index.ids) found))

  pub rows-found :
      (allowed : ℕ → Bool) (ef bound k s : ℕ) (out : Search)
      → IsKept dist allowed ef bound (layer_at index.graph 0) (s ∷ []) [] out
      → s < size index
      → (i : ℕ) → In i (rows_of k out.results)
      → (i < size index)
        × (allowed i ≡ true)
        × In (dist i, i) (take (min k (size index)) (sort_by (ranks_first index.ids) out.results))
  rows-found allowed ef bound k s out kept inside i m =
      let first = ranks_first index.ids in
      let (d, at) = In_nodes_take (min k (size index)) i (sort_by first out.results) m in
      let (v, a, same) =
        kept.results_are (d, i)
          (In-sort_by first (d, i) out.results
            (In-take (min k (size index)) (sort_by first out.results) (d, i) at)) in
      (
        Reach-inside (size index) (layer_at index.graph 0) (s ∷ []) (ok.layers 0)
            (one_inside (size index) s inside) i (kept.reached i v),
        a,
        subst (λ x. In (x, i) (take (min k (size index)) (sort_by first out.results))) same at,
      )

  pub results-inside :
      (allowed : ℕ → Bool) (ef bound s : ℕ) (out : Search)
      → IsKept dist allowed ef bound (layer_at index.graph 0) (s ∷ []) [] out
      → s < size index
      → (i : ℕ) → In i (nodes out.results)
      → (i < size index) × (allowed i ≡ true)
  results-inside allowed ef bound s out kept inside i m =
      let (d, at) = In_nodes out.results i m in
      let (v, a, same) = kept.results_are (d, i) at in
      (
        Reach-inside (size index) (layer_at index.graph 0) (s ∷ []) (ok.layers 0)
            (one_inside (size index) s inside) i (kept.reached i v),
        a,
      )

  pub hits-found :
      (allowed : ℕ → Bool) (ef bound k s : ℕ) (out : Search)
      → IsKept dist allowed ef bound (layer_at index.graph 0) (s ∷ []) [] out
      → top_hits index k out.results ≡ map (neighbor index.ids dist) (rows_of k out.results)
  unfolding top_hits
  hits-found allowed ef bound k s out kept =
      let first = ranks_first index.ids in
      hits_of_nodes index.ids dist (take (min k (size index)) (sort_by first out.results)) (λ q m.
        let (v, a, same) = kept.results_are q (
          In-sort_by first q out.results
            (In-take (min k (size index)) (sort_by first out.results) q m)) in
        same)

  pub hits-IsRanked : (k : ℕ) (found : List (ℕ × ℕ)) → IsRanked (top_hits index k found)
  unfolding top_hits
  hits-IsRanked k found =
      IsRanked-take index.ids (min k (size index)) (sort_by (ranks_first index.ids) found)
        (sorted index.ids found)

  pub rows-Distinct :
      (k : ℕ) (found : List (ℕ × ℕ)) → Distinct (nodes found) → Distinct (rows_of k found)
  rows-Distinct k found d =
      Distinct-take (min k (size index)) (sort_by (ranks_first index.ids) found)
        (Distinct-sort_by (ranks_first index.ids) found d)

  pub length-rows :
      (k : ℕ) (found : List (ℕ × ℕ))
      → length (rows_of k found) ≡ min (min k (size index)) (length found)
  length-rows k found = omega (
    arith,
    length-nodes_eq (take (min k (size index)) (sort_by (ranks_first index.ids) found)),
    length-take-min (min k (size index)) (sort_by (ranks_first index.ids) found),
    length-sort_by (ranks_first index.ids) found,
  )

  -- What is not among the hits is not nearer than one that is.
  pub rows_nearest :
      (k : ℕ) (found : List (ℕ × ℕ)) (i j : ℕ)
      → In (dist i, i) (take (min k (size index)) (sort_by (ranks_first index.ids) found))
      → In (dist j, j) found
      → In j (rows_of k found) ⊎ (dist i ≤ dist j)
  unfolding ranks_first
  rows_nearest k found i j mi mj =
      let first = ranks_first index.ids in
      elim (take-first first (min k (size index)) (sort_by first found) (dist i, i) (dist j, j)
        (sorted index.ids found) mi (sort_by-In first (dist j, j) found mj)) [
          | inl at ↦ inl (nodes-In (dist j) j (take (min k (size index)) (sort_by first found)) at)
          | inr earlier ↦ inr (ground (arith, earlier, ==_iff (dist i) (dist j)))
        ]
