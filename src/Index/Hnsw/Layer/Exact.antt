-- ===== src/Index/Hnsw/Layer/Exact.antt =====
-- The search of a layer with more room than the graph has nodes.
use cite_delta_rag.Prelude.{
  ℕ, ◌+◌, ◌≤◌, ◌<◌, ◌≡◌, ◌⊎◌, ◌↔◌, subst, ap, Bool, true, false, not, Option, none, some, List, [],
  ◌∷◌, inl, inr, arith, elem, nat_eq, length, In, In-append, append-In, Distinct, elem→In,
  Bool-cases, max, select-In,
}
use cite_delta_rag.Prelude.Sorting.{insert_by-In}
use cite_delta_rag.Index.Hnsw.Layer.{
  Adjacency, neighbours_of, Search, comes_before, offer, offer_all, popped, marked, unvisited,
  begin_search, seed_candidates, search_layer, is_spent,
}
use cite_delta_rag.Index.Hnsw.Layer.Fuel.{
  IsGraph, unvisited-In, unvisited-Distinct, fresh, fresh-append, offer_all-visited,
  offer_all-visits,
}
use cite_delta_rag.Index.Hnsw.Layer.Kept.{nodes}
use cite_delta_rag.Index.Hnsw.Layer.Rule.{IsLoop, round}
use cite_delta_rag.Index.Hnsw.Layer.Invariant.{Reach, start, edge, IsKept, offer-IsKept}
use cite_delta_rag.Index.Hnsw.Layer.Seeds.{begin-IsKept}
use cite_delta_rag.Index.Hnsw.Layer.Found.{pop-IsKept, mark-IsKept, fresh_le, search_layer_rule}
use cite_delta_rag.Index.Hnsw.Layer.Room.{
  Distinct-length, length-nodes, In_nodes, roomy_promising, roomy_goes, unspent,
}

module _ (dist : ℕ → ℕ) (allowed : ℕ → Bool) (ef size : ℕ) (adjacency : Adjacency) (entry : List ℕ)
    (g : IsGraph size adjacency) (inside : (n : ℕ) → In n entry → n < size)
    (roomy : size < ef) where
  Reach-bounded : (n : ℕ) → Reach adjacency entry n → n < size
  Reach-bounded n (start m) = inside n m
  Reach-bounded n (edge {a} r m) = g.bounded a n m

  -- There is room for every node.
  few_results :
      (pending : List ℕ) (st : Search)
      → IsKept dist allowed ef (max ef (length entry)) adjacency entry pending st
      → length st.results < ef
  few_results pending st k = omega (
    arith,
    roomy,
    length-nodes st.results,
    Distinct-length size (nodes st.results) k.distinct (λ n m.
        let (d, at) = In_nodes st.results n m in
        Reach-bounded n (k.reached n (k.results_are (d, n) at).0)),
  )

  -- A visited node is pending, or in the heap, or all its neighbours are visited.
  abbrev Covers : List ℕ → Search → Type 0
  Covers pending st =
      (i : ℕ)
      → In i st.visited
      → In i pending
        ⊎ (In (dist i, i) st.candidates
            ⊎ ((n : ℕ) → In n (neighbours_of adjacency i) → In n st.visited))

  offer-Covers :
      (n : ℕ) (ns : List ℕ) (st : Search)
      → IsKept dist allowed ef (max ef (length entry)) adjacency entry (n ∷ ns) st
      → Covers (n ∷ ns) st
      → Covers ns (offer dist allowed ef st n)
  unfolding offer
  offer-Covers n ns st k c =
      rw (roomy_promising ef (dist n) st.results (few_results (n ∷ ns) st k), offer)
        (λ i m. elim (c i m) [
          | inl (inl e) ↦ inr (
              inl (
                insert_by-In comes_before (dist n, n) (dist i, i) st.candidates
                  (inl (ap (λ x. (dist x, x)) e))))
          | inl (inr p) ↦ inl p
          | inr (inl at) ↦
              inr (inl (insert_by-In comes_before (dist n, n) (dist i, i) st.candidates (inr at)))
          | inr (inr closed) ↦ inr (inr closed)
        ])

  offer_all-Covers :
      (ns : List ℕ) (st : Search)
      → Distinct ns
      → IsKept dist allowed ef (max ef (length entry)) adjacency entry ns st
      → Covers ns st
      → IsKept dist allowed ef
          (max ef (length entry))
          adjacency
          entry
          []
          (offer_all dist allowed ef st ns)
        × Covers [] (offer_all dist allowed ef st ns)
  unfolding offer_all
  offer_all-Covers [] st d k c = (k, c)
  offer_all-Covers (n ∷ ns) st d k c =
      offer_all-Covers ns (offer dist allowed ef st n) d.1
        (offer-IsKept dist allowed ef (max ef (length entry)) adjacency entry n ns st (omega arith)
          d.0 k)
        (offer-Covers n ns st k c)

  pub record IsWide (st : Search) : Type 0 where
    pub kept : IsKept dist allowed ef (max ef (length entry)) adjacency entry [] st
    pub covers : Covers [] st
    pub counted : st.visits + fresh size st.visited ≤ size

  -- A neighbour was visited before, or is among the unvisited.
  next_to :
      (st : Search) (node n : ℕ)
      → In n (neighbours_of adjacency node)
      → In n st.visited ⊎ In n (unvisited adjacency st node)
  unfolding unvisited
  next_to st node n m = elim (Bool-cases (elem n st.visited)) [
    | inl e ↦ inl (elem→In n st.visited e)
    | inr e ↦
        inr (select-In (λ i. not (elem i st.visited)) (neighbours_of adjacency node) n m (ap not e))
  ]

  mark-Covers :
      (st : Search) (d node : ℕ) (rest : List (ℕ × ℕ))
      → st.candidates ≡ (d, node) ∷ rest
      → IsWide st
      → Covers (unvisited adjacency st node) (marked st rest (unvisited adjacency st node))
  mark-Covers st d node rest e w i m =
      let ns = unvisited adjacency st node in
      elim (In-append st.visited ns i m) [
        | inr new ↦ inl new
        | inl old ↦ elim (w.covers i old) [
          | inl absent ↦ absurd absent
          | inr (inr closed) ↦
              inr (inr (λ n edges. append-In st.visited ns n (inl (closed n edges))))
          | inr (inl at) ↦ elim (subst (λ c. In (dist i, i) c) e at) [
            | inr later ↦ inr (inl later)
            | inl same ↦ inr (
                inr (λ n edges. append-In st.visited ns n (
                  next_to st node n
                    (subst (λ x. In n (neighbours_of adjacency x)) (ap (λ x. x.1) same) edges))))
          ]
        ]
      ]

  all_visited :
      (st : Search)
      → IsWide st
      → st.candidates ≡ []
      → (n : ℕ) → Reach adjacency entry n
      → In n st.visited
  all_visited st w e n (start m) = w.kept.begun n m
  all_visited st w e n (edge {a} r m) = elim (w.covers a (all_visited st w e a r)) [
    | inl absent ↦ absurd absent
    | inr (inl at) ↦ absurd (subst (λ c. In (dist a, a) c) e at)
    | inr (inr closed) ↦ closed n m
  ]

  seeds-In : (is : List ℕ) (n : ℕ) → In n is → In (dist n, n) (seed_candidates dist is)
  unfolding seed_candidates
  seeds-In [] n m = absurd m
  seeds-In (i ∷ is) n (inl e) =
      insert_by-In comes_before (dist i, i) (dist n, n) (seed_candidates dist is)
        (inl (ap (λ x. (dist x, x)) e))
  seeds-In (i ∷ is) n (inr m) =
      insert_by-In comes_before (dist i, i) (dist n, n) (seed_candidates dist is)
        (inr (seeds-In is n m))

  begin-IsWide : Distinct entry → IsWide (begin_search dist allowed entry)
  unfolding begin_search
  begin-IsWide d = record {
    kept = begin-IsKept dist allowed ef (max ef (length entry)) adjacency entry d (omega arith);
    covers = λ i m. inr (inl (seeds-In entry i m));
    counted = omega (arith, fresh_le size entry);
  }

  round-IsWide :
      (st : Search) (d node : ℕ) (rest : List (ℕ × ℕ))
      → st.candidates ≡ (d, node) ∷ rest
      → IsWide st
      → IsWide (round dist allowed ef size adjacency none st node rest)
  round-IsWide st d node rest e w =
      let ns = unvisited adjacency st node in
      let here = offer_all-visited dist allowed ef ns (marked st rest ns) in
      let (kept, covers) =
        offer_all-Covers ns (marked st rest ns) (unvisited-Distinct size adjacency st node g)
          (mark-IsKept dist allowed ef (max ef (length entry)) adjacency entry st d node rest ns e
            (unvisited-In adjacency st node) w.kept)
          (mark-Covers st d node rest e w) in
      record {
        kept = kept;
        covers = covers;
        counted =
            rw (here, offer_all-visits dist allowed ef ns (marked st rest ns))
              (omega (
                arith,
                w.counted,
                fresh-append size st.visited ns
                    (λ n m. g.bounded node n (unvisited-In adjacency st node n m).0)
                    (unvisited-Distinct size adjacency st node g)
                    (λ n m. (unvisited-In adjacency st node n m).1),
              ));
      }

  skip-IsWide :
      (st : Search) (d node : ℕ) (rest : List (ℕ × ℕ))
      → st.candidates ≡ (d, node) ∷ rest
      → unvisited adjacency st node ≡ []
      → IsWide st
      → IsWide (popped st rest)
  skip-IsWide st d node rest e u w = record {
    kept =
        pop-IsKept dist allowed ef (max ef (length entry)) adjacency entry st (d, node) rest e
          w.kept;
    covers = λ i m. elim (w.covers i m) [
      | inl absent ↦ absurd absent
      | inr (inr closed) ↦ inr (inr closed)
      | inr (inl at) ↦ elim (subst (λ c. In (dist i, i) c) e at) [
        | inr later ↦ inr (inl later)
        | inl same ↦ inr (
            inr (λ n edges.
              elim (next_to st node n
                (subst (λ x. In n (neighbours_of adjacency x)) (ap (λ x. x.1) same) edges)) [
                  | inl old ↦ old
                  | inr new ↦ absurd (subst (λ l. In n l) u new)
                ]))
      ]
    ];
    counted = w.counted;
  }

  pub IsWide-loop :
      (budget : Option ℕ)
      → is_spent budget size ≡ false
      → IsLoop dist allowed ef size adjacency budget IsWide (λ st.
        IsKept dist allowed ef (max ef (length entry)) adjacency entry [] st
        × ((n : ℕ) → Reach adjacency entry n → In n st.visited))
  IsWide-loop budget funded = record {
    empty = λ st w e. (w.kept, all_visited st w e);
    stop = λ st d node rest w e done.
        absurd (ground (arith, done, roomy_goes ef d st.results (few_results [] st w.kept)));
    skip = λ st d node rest w e goes nothing. skip-IsWide st d node rest e nothing w;
    step = λ st d node rest w e goes. round-IsWide st d node rest e w;
    spent = λ st w e.
        absurd (ground (arith, e, unspent budget st.visits size (omega (arith, w.counted)) funded));
  }

-- The results are the admissible nodes that can be reached.
pub search_layer_exact :
    (dist : ℕ → ℕ) (allowed : ℕ → Bool) (ef size : ℕ) (adjacency : Adjacency) (budget : Option ℕ)
    (entry : List ℕ)
    → IsGraph size adjacency
    → Distinct entry
    → ((n : ℕ) → In n entry → n < size)
    → size < ef
    → is_spent budget size ≡ false
    → (out : Search) × ((search_layer dist allowed ef adjacency entry budget size ≡ some out)
        × (IsKept dist allowed ef (max ef (length entry)) adjacency entry [] out
            × ((n : ℕ)
                → (Reach adjacency entry n × (allowed n ≡ true)) ↔ In (dist n, n) out.results)))
search_layer_exact dist allowed ef size adjacency budget entry g d inside roomy funded =
    let (out, (found, (kept, all))) =
      search_layer_rule dist allowed ef size adjacency budget entry
        (IsWide dist allowed ef size adjacency entry g inside roomy)
        (λ st.
          IsKept dist allowed ef (max ef (length entry)) adjacency entry [] st
          × ((n : ℕ) → Reach adjacency entry n → In n st.visited))
        g (IsWide-loop dist allowed ef size adjacency entry g inside roomy budget funded)
        (begin-IsWide dist allowed ef size adjacency entry g inside roomy d) in
    (
      out,
      (
        found,
        (
          kept,
          λ n. (
            λ h. elim (kept.best n (all n h.0) h.1) [
              | inl absent ↦ absurd absent
              | inr (inl at) ↦ at
              | inr (inr beaten) ↦ absurd (
                  omega (
                    arith,
                    beaten.0,
                    few_results dist allowed ef size adjacency entry g inside roomy [] out kept,
                  ))
            ],
            λ m. let (v, a, same) = kept.results_are (dist n, n) m in (kept.reached n v, a),
          ),
        ),
      ),
    )
