-- ===== src/Index/Hnsw/Layer/Invariant.antt =====
-- The invariant of the search of a layer.
use cite_delta_rag.Prelude.{
  ℕ, ◌≤◌, ◌≡◌, ◌⊎◌, refl, sym, subst, ap, Bool, true, false, List, [], ◌∷◌, inl, inr, arith, elem,
  ==_iff, nat_eq, length, In, Distinct, In→elem, Bool-cases,
}
use cite_delta_rag.Prelude.Sorting.{insert_by, In-insert_by, insert_by-In}
use cite_delta_rag.Index.Hnsw.Layer.{
  Adjacency, neighbours_of, Search, comes_before, offer, offer_all, is_promising, trim, is_worse,
}
use cite_delta_rag.Index.Hnsw.Layer.Kept.{
  nodes, IsHeap, push-IsHeap, trim-IsHeap, trim-In, elem-nodes-insert_by, Distinct-insert_by,
  trim-Distinct, Beaten, trim-In_or_Beaten, Beaten-trim, unpromising-Beaten, promising_push-Beaten,
  length-trim,
}

-- The nodes that a walk along the edges can come to.
pub data Reach (adjacency : Adjacency) (entry : List ℕ) : ℕ → Type 0 where
  start : {n : ℕ} → In n entry → Reach adjacency entry n
  edge :
      {a n : ℕ}
      → Reach adjacency entry a
      → In n (neighbours_of adjacency a)
      → Reach adjacency entry n

module _ (dist : ℕ → ℕ) (allowed : ℕ → Bool) (ef bound : ℕ) (adjacency : Adjacency)
    (entry : List ℕ) where
  -- Between two rounds nothing is pending; within a round, the neighbours that are still to be seen.
  pub record IsKept (pending : List ℕ) (st : Search) : Type 0 where
    pub begun : (n : ℕ) → In n entry → In n st.visited
    pub reached : (n : ℕ) → In n st.visited → Reach adjacency entry n
    pub results_are :
        (q : ℕ × ℕ) → In q st.results → In q.1 st.visited × (allowed q.1 ≡ true) × (q.0 ≡ dist q.1)
    pub candidates_are : (q : ℕ × ℕ) → In q st.candidates → In q.1 st.visited
    pub heap : IsHeap st.results
    pub distinct : Distinct (nodes st.results)
    pub pending_visited : (n : ℕ) → In n pending → In n st.visited
    pub pending_out : (n : ℕ) → In n pending → elem n (nodes st.results) ≡ false
    pub few : length st.results ≤ bound
    pub best :
        (i : ℕ)
        → In i st.visited
        → allowed i ≡ true
        → In i pending ⊎ (In (dist i, i) st.results ⊎ Beaten ef st.results (dist i))

  -- A node that is left out: its distance is beaten, or it is not admissible.
  leave-IsKept :
      (n : ℕ) (ns : List ℕ) (st : Search)
      → IsKept (n ∷ ns) st
      → (allowed n ≡ true → Beaten ef st.results (dist n))
      → IsKept ns st
  leave-IsKept n ns st k h = record {
    begun = k.begun;
    reached = k.reached;
    results_are = k.results_are;
    candidates_are = k.candidates_are;
    heap = k.heap;
    distinct = k.distinct;
    pending_visited = λ m i. k.pending_visited m (inr i);
    pending_out = λ m i. k.pending_out m (inr i);
    few = k.few;
    best = λ i v a. elim (k.best i v a) [
      | inl (inl e) ↦ inr (
          inr (
            subst (λ x. Beaten ef st.results (dist x)) (sym e)
              (h (subst (λ x. allowed x ≡ true) e a))))
      | inl (inr m) ↦ inl m
      | inr r ↦ inr r
    ];
  }

  -- A node that becomes a candidate.
  abbrev queued : Search → ℕ → Search
  queued st n = record {
    visited = st.visited;
    candidates = insert_by comes_before (dist n, n) st.candidates;
    results = st.results;
    visits = st.visits;
  }

  queue-IsKept :
      (n : ℕ) (pending : List ℕ) (st : Search)
      → In n st.visited
      → IsKept pending st
      → IsKept pending (queued st n)
  queue-IsKept n pending st v k = record {
    begun = k.begun;
    reached = k.reached;
    results_are = k.results_are;
    candidates_are = λ q m. elim (In-insert_by comes_before (dist n, n) q st.candidates m) [
      | inl e ↦ subst (λ x. In x.1 st.visited) (sym e) v
      | inr old ↦ k.candidates_are q old
    ];
    heap = k.heap;
    distinct = k.distinct;
    pending_visited = k.pending_visited;
    pending_out = k.pending_out;
    few = k.few;
    best = k.best;
  }

  -- A node that becomes a result.
  abbrev held : Search → ℕ → Search
  held st n = record {
    visited = st.visited;
    candidates = st.candidates;
    results = trim ef (insert_by is_worse (dist n, n) st.results);
    visits = st.visits;
  }

  elem-nodes-trim :
      (i : ℕ) (rs : List (ℕ × ℕ)) → elem i (nodes rs) ≡ false → elem i (nodes (trim ef rs)) ≡ false
  unfolding trim
  elem-nodes-trim i [] h = ground arith
  elem-nodes-trim i (r ∷ rs) h = ground (arith, h)

  hold-IsKept :
      (n : ℕ) (ns : List ℕ) (st : Search)
      → ef ≤ bound
      → elem n ns ≡ false
      → allowed n ≡ true
      → is_promising ef st.results (dist n) ≡ true
      → IsKept (n ∷ ns) st
      → IsKept ns (held st n)
  hold-IsKept n ns st b d a p k =
      let pushed = insert_by is_worse (dist n, n) st.results in
      let v = k.pending_visited n (inl refl) in
      let kept = λ (q : ℕ × ℕ) (m : In q (insert_by is_worse (dist n, n) st.results)).
        trim-In_or_Beaten ef q pushed (push-IsHeap (dist n, n) st.results k.heap) m in
      record {
        begun = k.begun;
        reached = k.reached;
        results_are = λ q m.
            elim (In-insert_by is_worse (dist n, n) q st.results (trim-In ef q pushed m)) [
              | inl e ↦
                  subst (λ x. In x.1 st.visited × (allowed x.1 ≡ true) × (x.0 ≡ dist x.1)) (sym e)
                    (v, a, refl)
              | inr old ↦ k.results_are q old
            ];
        candidates_are = k.candidates_are;
        heap = trim-IsHeap ef pushed (push-IsHeap (dist n, n) st.results k.heap);
        distinct = trim-Distinct ef pushed (
            Distinct-insert_by is_worse (dist n, n) st.results (k.pending_out n (inl refl))
              k.distinct);
        pending_visited = λ m i. k.pending_visited m (inr i);
        pending_out = λ m i. elem-nodes-trim m pushed (
            ground (
              arith,
              elem-nodes-insert_by is_worse (dist n, n) st.results m,
              k.pending_out m (inr i),
              ==_iff n m,
              In→elem m ns i,
              d,
            ));
        few = length-trim ef bound (dist n, n) st.results b k.few;
        best = λ i w ok. elim (k.best i w ok) [
          | inl (inl e) ↦ inr (
              kept (dist i, i)
                (insert_by-In is_worse (dist n, n) (dist i, i) st.results
                  (inl (ap (λ x. (dist x, x)) e))))
          | inl (inr m) ↦ inl m
          | inr (inl m) ↦
              inr (
                kept (dist i, i) (insert_by-In is_worse (dist n, n) (dist i, i) st.results (inr m)))
          | inr (inr beaten) ↦ inr (
              inr (
                Beaten-trim ef pushed (dist i)
                  (promising_push-Beaten ef (dist n) n (dist i) st.results p beaten)))
        ];
      }

  pub offer-IsKept :
      (n : ℕ) (ns : List ℕ) (st : Search)
      → ef ≤ bound
      → elem n ns ≡ false
      → IsKept (n ∷ ns) st
      → IsKept ns (offer dist allowed ef st n)
  unfolding offer
  offer-IsKept n ns st b d k = elim (Bool-cases (is_promising ef st.results (dist n))) [
    | inr e ↦
        rw (e, offer)
          (leave-IsKept n ns st k (λ a. unpromising-Beaten ef st.results (dist n) k.heap e))
    | inl p ↦ elim (Bool-cases (allowed n)) [
      | inl a ↦
          rw (p, a, offer)
            (queue-IsKept n ns (held st n) (k.pending_visited n (inl refl))
              (hold-IsKept n ns st b d a p k))
      | inr e ↦
          rw (p, e, offer)
            (queue-IsKept n ns st (k.pending_visited n (inl refl))
              (leave-IsKept n ns st k (λ a. absurd (ground (arith, a, e)))))
    ]
  ]

  pub offer_all-IsKept :
      (ns : List ℕ) (st : Search)
      → ef ≤ bound
      → Distinct ns
      → IsKept ns st
      → IsKept [] (offer_all dist allowed ef st ns)
  unfolding offer_all
  offer_all-IsKept [] st b d k = k
  offer_all-IsKept (n ∷ ns) st b d k =
      offer_all-IsKept ns (offer dist allowed ef st n) b d.1 (offer-IsKept n ns st b d.0 k)
