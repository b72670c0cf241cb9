-- ===== src/Index/Hnsw/Layer/Found.antt =====
-- The search of a layer returns, and what it then holds.
use cite_delta_rag.Prelude.{
  ℕ, suc, ◌+◌, ◌≤◌, ◌≡◌, refl, sym, subst, ap, Bool, false, not, Option, none, some, List, [], ◌∷◌,
  inl, inr, arith, elem, nat_eq, length, In, In-append, append-In, Distinct, elem→In, In→elem,
  Bool-cases, max,
}
use cite_delta_rag.Prelude.Counting.{count_if_le}
use cite_delta_rag.Index.Vector.{range}
use cite_delta_rag.Index.Hnsw.Layer.{
  Adjacency, neighbours_of, Search, popped, marked, unvisited, begin_search, search_layer,
}
use cite_delta_rag.Index.Hnsw.Layer.Fuel.{
  IsGraph, unvisited-In, unvisited-Distinct, fresh, length-range,
}
use cite_delta_rag.Index.Hnsw.Layer.Kept.{nodes}
use cite_delta_rag.Index.Hnsw.Layer.Rule.{IsLoop, round, search_loop_rule}
use cite_delta_rag.Index.Hnsw.Layer.Invariant.{edge, IsKept, offer_all-IsKept}
use cite_delta_rag.Index.Hnsw.Layer.Seeds.{length-seed_candidates, begin-IsKept}

In-nodes : (rs : List (ℕ × ℕ)) (n : ℕ) → In n (nodes rs) → (d : ℕ) × In (d, n) rs
In-nodes [] n m = absurd m
In-nodes ((d, i) ∷ rs) n (inl e) = (d, inl (ap (λ x. (d, x)) e))
In-nodes ((d, i) ∷ rs) n (inr m) = let (e, at) = In-nodes rs n m in (e, inr at)

module _ (dist : ℕ → ℕ) (allowed : ℕ → Bool) (ef bound : ℕ) (adjacency : Adjacency)
    (entry : List ℕ) where
  pub pop-IsKept :
      (st : Search) (p : ℕ × ℕ) (rest : List (ℕ × ℕ))
      → st.candidates ≡ p ∷ rest
      → IsKept dist allowed ef bound adjacency entry [] st
      → IsKept dist allowed ef bound adjacency entry [] (popped st rest)
  pop-IsKept st p rest e k = record {
    begun = k.begun;
    reached = k.reached;
    results_are = k.results_are;
    candidates_are = λ q m. k.candidates_are q (subst (λ c. In q c) (sym e) (inr m));
    heap = k.heap;
    distinct = k.distinct;
    pending_visited = λ n m. absurd m;
    pending_out = λ n m. absurd m;
    few = k.few;
    best = k.best;
  }

  pub mark-IsKept :
      (st : Search) (d node : ℕ) (rest : List (ℕ × ℕ)) (ns : List ℕ)
      → st.candidates ≡ (d, node) ∷ rest
      → ((n : ℕ) → In n ns → In n (neighbours_of adjacency node) × (elem n st.visited ≡ false))
      → IsKept dist allowed ef bound adjacency entry [] st
      → IsKept dist allowed ef bound adjacency entry ns (marked st rest ns)
  mark-IsKept st d node rest ns e new k = record {
    begun = λ n m. append-In st.visited ns n (inl (k.begun n m));
    reached = λ n m. elim (In-append st.visited ns n m) [
      | inl old ↦ k.reached n old
      | inr at ↦
          edge
            (k.reached node
              (k.candidates_are (d, node) (subst (λ c. In (d, node) c) (sym e) (inl refl))))
            (new n at).0
    ];
    results_are = λ q m.
        let (v, a, same) = k.results_are q m in (append-In st.visited ns q.1 (inl v), a, same);
    candidates_are = λ q m.
        append-In st.visited ns q.1
          (inl (k.candidates_are q (subst (λ c. In q c) (sym e) (inr m))));
    heap = k.heap;
    distinct = k.distinct;
    pending_visited = λ n m. append-In st.visited ns n (inr m);
    pending_out = λ n m. elim (Bool-cases (elem n (nodes st.results))) [
      | inr out ↦ out
      | inl there ↦
          let (d, at) = In-nodes st.results n (elem→In n (nodes st.results) there) in
          absurd (ground (arith, In→elem n st.visited (k.results_are (d, n) at).0, (new n m).1))
    ];
    few = k.few;
    best = λ i m a. elim (In-append st.visited ns i m) [
      | inl old ↦ elim (k.best i old a) [ inl none_left ↦ absurd none_left | inr r ↦ inr r ]
      | inr at ↦ inl at
    ];
  }

  pub round-IsKept :
      (size : ℕ) (st : Search) (d node : ℕ) (rest : List (ℕ × ℕ))
      → IsGraph size adjacency
      → ef ≤ bound
      → st.candidates ≡ (d, node) ∷ rest
      → IsKept dist allowed ef bound adjacency entry [] st
      → IsKept dist allowed ef bound adjacency entry []
          (round dist allowed ef size adjacency none st node rest)
  round-IsKept size st d node rest g b e k =
      let ns = unvisited adjacency st node in
      offer_all-IsKept dist allowed ef bound adjacency entry ns (marked st rest ns) b
        (unvisited-Distinct size adjacency st node g)
        (mark-IsKept st d node rest ns e (unvisited-In adjacency st node) k)

pub fresh_le : (size : ℕ) (visited : List ℕ) → fresh size visited ≤ size
fresh_le size visited =
    omega (arith, count_if_le (λ i. not (elem i visited)) (range size), length-range size)

-- The loop keeps the invariant, and the fuel is enough.
pub search_layer_rule :
    (dist : ℕ → ℕ) (allowed : ℕ → Bool) (ef size : ℕ) (adjacency : Adjacency) (budget : Option ℕ)
    (entry : List ℕ) (I Post : Search → Type 0)
    → IsGraph size adjacency
    → IsLoop dist allowed ef size adjacency budget I Post
    → I (begin_search dist allowed entry)
    → (out : Search) × ((search_layer dist allowed ef adjacency entry budget size ≡ some out)
        × Post out)
unfolding search_layer begin_search
search_layer_rule dist allowed ef size adjacency budget entry I Post g loop i =
    search_loop_rule dist allowed ef size adjacency budget I Post loop g (suc (length entry + size))
      (begin_search dist allowed entry) i
      (omega (arith, length-seed_candidates dist entry, fresh_le size entry))

-- The search of a layer returns, within its bound, with results that keep the invariant.
pub search_layer_found :
    (dist : ℕ → ℕ) (allowed : ℕ → Bool) (ef size : ℕ) (adjacency : Adjacency) (budget : Option ℕ)
    (entry : List ℕ)
    → IsGraph size adjacency
    → Distinct entry
    → (out : Search) × ((search_layer dist allowed ef adjacency entry budget size ≡ some out)
        × IsKept dist allowed ef (max ef (length entry)) adjacency entry [] out)
search_layer_found dist allowed ef size adjacency budget entry g d =
    let bound = max ef (length entry) in
    let Kept = IsKept dist allowed ef bound adjacency entry [] in
    search_layer_rule dist allowed ef size adjacency budget entry Kept Kept g
      (record {
        empty = λ st k e. k;
        stop = λ st d node rest k e done.
            pop-IsKept dist allowed ef bound adjacency entry st (d, node) rest e k;
        skip = λ st d node rest k e goes nothing.
            pop-IsKept dist allowed ef bound adjacency entry st (d, node) rest e k;
        step = λ st d node rest k e goes.
            round-IsKept dist allowed ef bound adjacency entry size st d node rest g (omega arith) e
              k;
        spent = λ st k e. k;
      })
      (begin-IsKept dist allowed ef bound adjacency entry d (omega arith))
