-- ===== src/Index/Hnsw/Layer.antt =====
-- index/hnsw.py, `_search_layer`: the greedy search of one layer. A heap of the standard library is
-- kept as the sorted list of its pairs; a pair that is popped is the first.
pub mod Rule
pub mod Seeds
pub mod Room
pub mod Exact
pub mod Found
pub mod Invariant
pub mod Kept
pub mod Fuel
use cite_delta_rag.Prelude.{
  ℕ, zero, suc, ◌+◌, Bool, true, false, not, ◌&&◌, ◌||◌, Option, none, some, List, [], ◌∷◌, ◌++◌,
  map, ltb, leb, ◌==◌, nat_eq, if◌then◌else◌, elem, length, drop, select,
}
use cite_delta_rag.Prelude.Sorting.{insert_by}
use cite_delta_rag.Prelude.Dict
use cite_delta_rag.Prelude.Dict.{Dict}

-- A layer of the graph: the neighbours of each node that stands there.
abbrev pub Adjacency : Type 0
Adjacency = Dict ℕ (List ℕ)

-- `adjacency.get(node, ())`
unfoldable pub neighbours_of : Adjacency → ℕ → List ℕ
neighbours_of adjacency node = Dict.get_or adjacency node []

-- The heap of pairs (distance, node), nearest first.
unfoldable pub comes_before : ℕ × ℕ → ℕ × ℕ → Bool
comes_before (d, i) (e, j) = ltb d e || (d == e && leb i j)

-- The heap of pairs (-distance, node), farthest first.
unfoldable pub is_worse : ℕ × ℕ → ℕ × ℕ → Bool
is_worse (d, i) (e, j) = ltb e d || (d == e && leb i j)

pub record Search : Type 0 where
  pub visited : List ℕ
  pub candidates : List (ℕ × ℕ)
  pub results : List (ℕ × ℕ)
  pub visits : ℕ

-- `budget is not None and visits >= budget`
unfoldable pub is_spent : Option ℕ → ℕ → Bool
is_spent none visits = false
is_spent (some budget) visits = leb budget visits

abbrev pub popped : Search → List (ℕ × ℕ) → Search
popped st rest = record {
  visited = st.visited;
  candidates = rest;
  results = st.results;
  visits = st.visits;
}

abbrev pub marked : Search → List (ℕ × ℕ) → List ℕ → Search
marked st rest ns = record {
  visited = st.visited ++ ns;
  candidates = rest;
  results = st.results;
  visits = st.visits + length ns;
}

-- `[n for n in adjacency.get(node, ()) if n not in visited]`
unfoldable pub unvisited : Adjacency → Search → ℕ → List ℕ
unfolding neighbours_of
unvisited adjacency st node = select (λ n. not (elem n st.visited)) (neighbours_of adjacency node)

module _ (ef : ℕ) where
  -- `d < worst`, where worst is infinite as long as there are fewer than ef results; with ef = 0 and
  -- no result, which `search` rules out, the code would raise IndexError.
  unfoldable pub is_promising : List (ℕ × ℕ) → ℕ → Bool
  is_promising [] d = not (leb ef 0)
  is_promising ((w, i) ∷ rs) d = if leb ef (suc (length rs)) then ltb d w else true

  -- `len(results) >= ef and distance > -results[0][0]`
  unfoldable pub is_done : List (ℕ × ℕ) → ℕ → Bool
  is_done [] d = leb ef 0
  is_done ((w, i) ∷ rs) d = leb ef (suc (length rs)) && ltb w d

  -- `if len(results) > ef: heappop(results)`
  unfoldable pub trim : List (ℕ × ℕ) → List (ℕ × ℕ)
  trim rs = if ltb ef (length rs) then drop 1 rs else rs

module _ (dist : ℕ → ℕ) where
  unfoldable pub seed_candidates : List ℕ → List (ℕ × ℕ)
  seed_candidates [] = []
  seed_candidates (i ∷ is) = insert_by comes_before (dist i, i) (seed_candidates is)

module _ (dist : ℕ → ℕ) (allowed : ℕ → Bool) where
  -- The entry points that may be results.
  unfoldable pub seed_results : List ℕ → List (ℕ × ℕ)
  seed_results [] = []
  seed_results (i ∷ is) =
      let rest = seed_results is in if allowed i then insert_by is_worse (dist i, i) rest else rest

  unfoldable pub begin_search : List ℕ → Search
  begin_search entry = record {
    visited = entry;
    candidates = seed_candidates dist entry;
    results = seed_results entry;
    visits = 0;
  }

module _ (dist : ℕ → ℕ) (allowed : ℕ → Bool) (ef : ℕ) where
  -- One round of the inner loop.
  unfoldable pub offer : Search → ℕ → Search
  unfolding is_promising trim
  offer st n =
      if is_promising ef st.results (dist n)
      then record {
        visited = st.visited;
        candidates = insert_by comes_before (dist n, n) st.candidates;
        results =
            if allowed n then trim ef (insert_by is_worse (dist n, n) st.results) else st.results;
        visits = st.visits;
      }
      else st

  unfoldable pub offer_all : Search → List ℕ → Search
  unfolding offer
  offer_all st [] = st
  offer_all st (n ∷ ns) = offer_all (offer st n) ns

  -- The rest of a round, once the node is taken and its unvisited neighbours are known.
  unfoldable pub expand :
      Option ℕ → (Search → Option Search) → Search → List (ℕ × ℕ) → List ℕ → Option Search
  unfolding offer_all
  expand budget again st rest [] = again (popped st rest)
  expand budget again st rest (n ∷ ns) =
      let next = offer_all (marked st rest (n ∷ ns)) (n ∷ ns) in
      elim (is_spent budget next.visits) [ true ↦ some next | false ↦ again next ]

  -- A round of the loop on the heap of candidates.
  unfoldable pub take_round :
      Adjacency → Option ℕ → (Search → Option Search) → Search → List (ℕ × ℕ) → Option Search
  unfolding expand unvisited
  take_round adjacency budget again st [] = some st
  take_round adjacency budget again st ((d, node) ∷ rest) = elim (is_done ef st.results d) [
    | true ↦ some (popped st rest)
    | false ↦ expand budget again st rest (unvisited adjacency st node)
  ]

  -- The loop, on fuel: `none` when the fuel is out.
  unfoldable pub search_loop : Adjacency → Option ℕ → ℕ → Search → Option Search
  unfolding take_round
  search_loop adjacency budget zero st = none
  search_loop adjacency budget (suc fuel) st =
      take_round adjacency budget (λ s. search_loop adjacency budget fuel s) st st.candidates

  -- The search of a layer, with fuel for every pair that can be pushed. The results stand farthest
  -- first; the code returns them in the order of the heap's array.
  unfoldable pub search_layer : Adjacency → List ℕ → Option ℕ → ℕ → Option Search
  unfolding search_loop begin_search
  search_layer adjacency entry budget size =
      search_loop adjacency budget (suc (length entry + size)) (begin_search dist allowed entry)
