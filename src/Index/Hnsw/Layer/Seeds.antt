-- ===== src/Index/Hnsw/Layer/Seeds.antt =====
-- The state in which the search of a layer begins.
use cite_delta_rag.Prelude.{
  ℕ, ◌≤◌, ◌≡◌, refl, sym, subst, ap, Bool, true, false, List, [], ◌∷◌, inl, inr, arith, elem,
  ==_iff, nat_eq, length, In, Distinct, Bool-cases, if◌then◌else◌,
}
use cite_delta_rag.Prelude.Sorting.{insert_by, In-insert_by, insert_by-In}
use cite_delta_rag.Index.Hnsw.Layer.{
  Adjacency, comes_before, is_worse, seed_candidates, seed_results, begin_search,
}
use cite_delta_rag.Index.Hnsw.Layer.Fuel.{length-insert_by}
use cite_delta_rag.Index.Hnsw.Layer.Kept.{
  nodes, IsHeap, push-IsHeap, elem-nodes-insert_by, Distinct-insert_by,
}
use cite_delta_rag.Index.Hnsw.Layer.Invariant.{start, IsKept}

In-seed_candidates :
    (dist : ℕ → ℕ) (q : ℕ × ℕ) (is : List ℕ) → In q (seed_candidates dist is) → In q.1 is
unfolding seed_candidates
In-seed_candidates dist q [] m = m
In-seed_candidates dist q (i ∷ is) m =
    elim (In-insert_by comes_before (dist i, i) q (seed_candidates dist is) m) [
      | inl e ↦ inl (ap (λ x. x.1) e)
      | inr old ↦ inr (In-seed_candidates dist q is old)
    ]

pub length-seed_candidates :
    (dist : ℕ → ℕ) (is : List ℕ) → length (seed_candidates dist is) ≡ length is
unfolding seed_candidates
length-seed_candidates dist [] = refl
length-seed_candidates dist (i ∷ is) = omega (
  arith,
  length-insert_by comes_before (dist i, i) (seed_candidates dist is),
  length-seed_candidates dist is,
)

module _ (dist : ℕ → ℕ) (allowed : ℕ → Bool) where
  seed_step :
      (q : ℕ × ℕ) (i : ℕ) (is : List ℕ) (b : Bool)
      → allowed i ≡ b
      → (In q (seed_results dist allowed is) → In q.1 is × (allowed q.1 ≡ true) × (q.0 ≡ dist q.1))
      → In q (
          if b
          then insert_by is_worse (dist i, i) (seed_results dist allowed is)
          else seed_results dist allowed is)
      → In q.1 (i ∷ is) × (allowed q.1 ≡ true) × (q.0 ≡ dist q.1)
  seed_step q i is true a h m =
      elim (In-insert_by is_worse (dist i, i) q (seed_results dist allowed is) m) [
        | inl e ↦
            subst (λ x. (In x.1 (i ∷ is)) × (allowed x.1 ≡ true) × (x.0 ≡ dist x.1)) (sym e)
              (inl refl, a, refl)
        | inr old ↦ let (at, ok, same) = h old in (inr at, ok, same)
      ]
  seed_step q i is false a h m = let (at, ok, same) = h m in (inr at, ok, same)

  In-seed_results :
      (q : ℕ × ℕ) (is : List ℕ)
      → In q (seed_results dist allowed is)
      → In q.1 is × (allowed q.1 ≡ true) × (q.0 ≡ dist q.1)
  unfolding seed_results
  In-seed_results q [] m = absurd m
  In-seed_results q (i ∷ is) m = seed_step q i is (allowed i) refl (In-seed_results q is) m

  seed_results-In :
      (n : ℕ) (is : List ℕ)
      → In n is
      → allowed n ≡ true
      → In (dist n, n) (seed_results dist allowed is)
  unfolding seed_results
  seed_results-In n [] m a = absurd m
  seed_results-In n (i ∷ is) (inl e) a = rw (subst (λ x. allowed x ≡ true) e a) (
      insert_by-In is_worse (dist i, i) (dist n, n) (seed_results dist allowed is)
        (inl (ap (λ x. (dist x, x)) e)))
  seed_results-In n (i ∷ is) (inr m) a = elim (Bool-cases (allowed i)) [
    | inl e ↦ rw (e) (
        insert_by-In is_worse (dist i, i) (dist n, n) (seed_results dist allowed is)
          (inr (seed_results-In n is m a)))
    | inr e ↦ rw (e) (seed_results-In n is m a)
  ]

  seed_results-IsHeap : (is : List ℕ) → IsHeap (seed_results dist allowed is)
  unfolding seed_results
  seed_results-IsHeap [] = tt
  seed_results-IsHeap (i ∷ is) = elim (Bool-cases (allowed i)) [
    | inl e ↦
        rw (e) (push-IsHeap (dist i, i) (seed_results dist allowed is) (seed_results-IsHeap is))
    | inr e ↦ rw (e) (seed_results-IsHeap is)
  ]

  elem-seed_results :
      (n : ℕ) (is : List ℕ)
      → elem n is ≡ false
      → elem n (nodes (seed_results dist allowed is)) ≡ false
  unfolding seed_results
  elem-seed_results n [] h = refl
  elem-seed_results n (i ∷ is) h = ground (
    arith,
    elem-seed_results n is,
    elem-nodes-insert_by is_worse (dist i, i) (seed_results dist allowed is) n,
    ==_iff i n,
  )

  seed_results-Distinct :
      (is : List ℕ) → Distinct is → Distinct (nodes (seed_results dist allowed is))
  unfolding seed_results
  seed_results-Distinct [] d = tt
  seed_results-Distinct (i ∷ is) d = elim (Bool-cases (allowed i)) [
    | inl e ↦ rw (e) (
        Distinct-insert_by is_worse (dist i, i) (seed_results dist allowed is)
          (elem-seed_results i is d.0) (seed_results-Distinct is d.1))
    | inr e ↦ rw (e) (seed_results-Distinct is d.1)
  ]

  length-seed_results : (is : List ℕ) → length (seed_results dist allowed is) ≤ length is
  unfolding seed_results
  length-seed_results [] = omega arith
  length-seed_results (i ∷ is) = ground (
    arith,
    length-seed_results is,
    length-insert_by is_worse (dist i, i) (seed_results dist allowed is),
  )

  pub begin-IsKept :
      (ef bound : ℕ) (adjacency : Adjacency) (entry : List ℕ)
      → Distinct entry
      → length entry ≤ bound
      → IsKept dist allowed ef bound adjacency entry [] (begin_search dist allowed entry)
  unfolding begin_search
  begin-IsKept ef bound adjacency entry d b = record {
    begun = λ n m. m;
    reached = λ n m. start m;
    results_are = λ q m. In-seed_results q entry m;
    candidates_are = λ q m. In-seed_candidates dist q entry m;
    heap = seed_results-IsHeap entry;
    distinct = seed_results-Distinct entry d;
    pending_visited = λ n m. absurd m;
    pending_out = λ n m. absurd m;
    few = omega (arith, length-seed_results entry, b);
    best = λ i m a. inr (inl (seed_results-In i entry m a));
  }
