-- ===== src/Index/Hnsw/Layer/Fuel.antt =====
-- The loop of `_search_layer` ends: each round takes a pair from the heap, and a pair enters it only
-- with a node that was not visited before.
use cite_delta_rag.Prelude.{
  ℕ, zero, suc, ◌+◌, ◌≤◌, ◌<◌, ◌≡◌, refl, Bool, true, false, not, List, [], ◌∷◌, ◌++◌, inl, inr,
  arith, elem, ==_iff, nat_eq, length, select, length-append, In, In-select, Distinct, elem-append,
  elem→In, In→elem, Bool-cases, ◌⊎◌, append-In,
}
use cite_delta_rag.Prelude.Counting.{count_if}
use cite_delta_rag.Prelude.Sorting.{insert_by}
use cite_delta_rag.Index.Vector.{range}
use cite_delta_rag.Index.Hnsw.Layer.{
  Adjacency, neighbours_of, Search, comes_before, offer, offer_all, marked, unvisited,
}

-- The edges of a layer lead to nodes below `size`, each once.
pub record IsGraph (size : ℕ) (adjacency : Adjacency) : Type 0 where
  pub bounded : (i n : ℕ) → In n (neighbours_of adjacency i) → n < size
  pub once : (i : ℕ) → Distinct (neighbours_of adjacency i)

In_last : (xs : List ℕ) (a b : ℕ) → In b (xs ++ (a ∷ [])) → In b xs ⊎ (b ≡ a)
In_last [] a b m = ground arith
In_last (x ∷ xs) a b m = ground (arith, In_last xs a b)

pub In-range : (n i : ℕ) → In i (range n) → i < n
unfolding range
In-range zero i m = absurd m
In-range (suc n) i m = ground (arith, In-range n i, In_last (range n) n i m)

pub range-In : (n i : ℕ) → i < n → In i (range n)
unfolding range
range-In zero i h = absurd (omega (arith, h))
range-In (suc n) i h = ground (arith, append-In (range n) (n ∷ []) i, range-In n i)

pub length-range : (n : ℕ) → length (range n) ≡ n
unfolding range
length-range zero = refl
length-range (suc n) = omega (arith, length-append (range n) (n ∷ []), length-range n)

pub length-insert_by :
    {A : Type 0} (first : A → A → Bool) (a : A) (xs : List A)
    → length (insert_by first a xs) ≡ suc (length xs)
unfolding insert_by
length-insert_by first a [] = refl
length-insert_by first a (x ∷ xs) = ground (arith, length-insert_by first a xs)

abbrev pub fresh : ℕ → List ℕ → ℕ
fresh size visited = count_if (λ i. not (elem i visited)) (range size)

-- A test that is met less often.
pub count_if_mono :
    (p q : ℕ → Bool) (xs : List ℕ)
    → ((b : ℕ) → p b ≡ true → q b ≡ true)
    → count_if p xs ≤ count_if q xs
count_if_mono p q [] h = omega arith
count_if_mono p q (x ∷ xs) h = ground (arith, count_if_mono p q xs h, h x)

count_if_less :
    (p q : ℕ → Bool) (xs : List ℕ) (a : ℕ)
    → ((b : ℕ) → p b ≡ true → q b ≡ true)
    → In a xs
    → p a ≡ false
    → q a ≡ true
    → count_if p xs < count_if q xs
count_if_less p q [] a h m e f = absurd m
count_if_less p q (x ∷ xs) a h m e f =
    ground (arith, count_if_less p q xs a h, count_if_mono p q xs h, h x)

-- Marking new nodes leaves that many fewer.
pub fresh-append :
    (size : ℕ) (visited ns : List ℕ)
    → ((n : ℕ) → In n ns → n < size)
    → Distinct ns
    → ((n : ℕ) → In n ns → elem n visited ≡ false)
    → fresh size (visited ++ ns) + length ns ≤ fresh size visited
fresh-append size visited [] b d h = omega (
  arith,
  count_if_mono (λ i. not (elem i (visited ++ []))) (λ i. not (elem i visited)) (range size)
      (λ i e. ground (arith, e, elem-append i visited [])),
)
fresh-append size visited (n ∷ ns) b d h =
    let rest = fresh-append size visited ns (λ m i. b m (inr i)) d.1 (λ m i. h m (inr i)) in
    let less =
      count_if_less (λ i. not (elem i (visited ++ (n ∷ ns)))) (λ i. not (elem i (visited ++ ns)))
        (range size) n
        (λ i e. ground (arith, e, elem-append i visited ns, elem-append i visited (n ∷ ns)))
        (range-In size n (b n (inl refl)))
        (ground (arith, elem-append n visited (n ∷ ns), ==_iff n n))
        (ground (arith, elem-append n visited ns, h n (inl refl), d)) in
    omega (arith, rest, less)

module _ (dist : ℕ → ℕ) (allowed : ℕ → Bool) (ef : ℕ) where
  pub offer_all-visited :
      (ns : List ℕ) (st : Search) → (offer_all dist allowed ef st ns).visited ≡ st.visited
  unfolding offer_all offer
  offer_all-visited [] st = refl
  offer_all-visited (n ∷ ns) st = ground (arith, offer_all-visited ns (offer dist allowed ef st n))

  pub offer_all-visits :
      (ns : List ℕ) (st : Search) → (offer_all dist allowed ef st ns).visits ≡ st.visits
  unfolding offer_all offer
  offer_all-visits [] st = refl
  offer_all-visits (n ∷ ns) st = ground (arith, offer_all-visits ns (offer dist allowed ef st n))

  offer_all-candidates :
      (ns : List ℕ) (st : Search)
      → length (offer_all dist allowed ef st ns).candidates ≤ length st.candidates + length ns
  unfolding offer_all offer
  offer_all-candidates [] st = omega arith
  offer_all-candidates (n ∷ ns) st = ground (
    arith,
    offer_all-candidates ns (offer dist allowed ef st n),
    length-insert_by comes_before (dist n, n) st.candidates,
  )

Distinct-select : (p : ℕ → Bool) (xs : List ℕ) → Distinct xs → Distinct (select p xs)
Distinct-select p [] d = tt
Distinct-select p (x ∷ xs) d = ground (
  arith,
  Distinct-select p xs d.1,
  In-select p xs x,
  elem→In x (select p xs),
  In→elem x xs,
  Bool-cases (elem x (select p xs)),
)

-- What is pushed for a node was not visited, and each new node is below `size`.
pub unvisited-In :
    (adjacency : Adjacency) (st : Search) (node n : ℕ)
    → In n (unvisited adjacency st node)
    → In n (neighbours_of adjacency node) × (elem n st.visited ≡ false)
unfolding unvisited
unvisited-In adjacency st node n m =
    ground (arith, In-select (λ i. not (elem i st.visited)) (neighbours_of adjacency node) n m)

pub unvisited-Distinct :
    (size : ℕ) (adjacency : Adjacency) (st : Search) (node : ℕ)
    → IsGraph size adjacency
    → Distinct (unvisited adjacency st node)
unfolding unvisited
unvisited-Distinct size adjacency st node g =
    Distinct-select (λ i. not (elem i st.visited)) (neighbours_of adjacency node) (g.once node)

-- The pairs in the heap and the nodes still to visit.
abbrev pub measure : ℕ → Search → ℕ
measure size st = length st.candidates + fresh size st.visited

pub measure-step :
    (dist : ℕ → ℕ) (allowed : ℕ → Bool) (ef size : ℕ) (adjacency : Adjacency) (st : Search)
    (node : ℕ) (rest : List (ℕ × ℕ))
    → IsGraph size adjacency
    → measure size (
        offer_all dist allowed ef
          (marked st rest (unvisited adjacency st node))
          (unvisited adjacency st node))
      ≤ length rest + fresh size st.visited
measure-step dist allowed ef size adjacency st node rest g =
    let ns = unvisited adjacency st node in
    let less =
      fresh-append size st.visited ns
        (λ n m. g.bounded node n (unvisited-In adjacency st node n m).0)
        (unvisited-Distinct size adjacency st node g)
        (λ n m. (unvisited-In adjacency st node n m).1) in
    let few = offer_all-candidates dist allowed ef ns (marked st rest ns) in
    rw (offer_all-visited dist allowed ef ns (marked st rest ns)) (omega (arith, less, few))
