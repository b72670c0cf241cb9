-- ===== src/Index/Hnsw/Ranking.antt =====
-- The hits that `search` makes of the pairs it found.
use cite_delta_rag.Prelude.{
  ℕ, zero, suc, ◌<◌, ◌≡◌, ◌↔◌, refl, ap, Bool, true, false, ◌||◌, List, [], ◌∷◌, inl, inr, arith,
  elem, ==_iff, nat_eq, ◌==◌, length, In, Distinct, Distinct-append_one, elem→In, In→elem,
  Bool-cases, min, take,
}
use cite_delta_rag.Prelude.Counting.{count_if}
use cite_delta_rag.Prelude.Sorting.{sort_by}
use cite_delta_rag.Index.Vector.{range}
use cite_delta_rag.Index.Hnsw.Layer.Fuel.{length-insert_by, range-In, In-range}
use cite_delta_rag.Index.Hnsw.Layer.Kept.{nodes, elem-nodes-insert_by, Distinct-insert_by}

pub range-Distinct : (n : ℕ) → Distinct (range n)
unfolding range
range-Distinct zero = tt
range-Distinct (suc n) =
    Distinct-append_one (range n) n (range-Distinct n)
      (ground (arith, Bool-cases (elem n (range n)), elem→In n (range n), In-range n n))

count_if_cong :
    (p q : ℕ → Bool) (xs : List ℕ) → ((a : ℕ) → In a xs → p a ≡ q a) → count_if p xs ≡ count_if q xs
count_if_cong p q [] h = refl
count_if_cong p q (x ∷ xs) h =
    ground (arith, h x (inl refl), count_if_cong p q xs (λ a m. h a (inr m)))

count_one_more :
    (p : ℕ → Bool) (x : ℕ) (us : List ℕ)
    → Distinct us
    → In x us
    → p x ≡ false
    → count_if (λ i. (x == i) || p i) us ≡ suc (count_if p us)
count_one_more p x [] d m h = absurd m
count_one_more p x (u ∷ us) d (inl e) h = ground (
  arith,
  e,
  h,
  ==_iff x u,
  count_if_cong (λ i. (x == i) || p i) p us
      (λ a m. ground (arith, ==_iff x a, In→elem a us m, d.0, e)),
)
count_one_more p x (u ∷ us) d (inr m) h =
    ground (arith, count_one_more p x us d.1 m h, ==_iff x u, In→elem x us m, d.0)

-- Distinct numbers below n, counted.
count_elem :
    (n : ℕ) (xs : List ℕ)
    → Distinct xs
    → ((i : ℕ) → In i xs → i < n)
    → count_if (λ i. elem i xs) (range n) ≡ length xs
count_elem n [] d b = none_there (range n)
  where
    none_there : (us : List ℕ) → count_if (λ i. false) us ≡ 0
    none_there [] = refl
    none_there (u ∷ us) = none_there us
count_elem n (x ∷ xs) d b = omega (
  arith,
  count_if_cong (λ i. elem i (x ∷ xs)) (λ i. (x == i) || elem i xs) (range n) (λ a m. ground arith),
  count_one_more (λ i. elem i xs) x (range n) (range-Distinct n) (range-In n x (b x (inl refl)))
      d.0,
  count_elem n xs d.1 (λ i m. b i (inr m)),
)

-- Distinct numbers that are those below n that meet a test.
pub length-count :
    (n : ℕ) (p : ℕ → Bool) (xs : List ℕ)
    → Distinct xs
    → ((i : ℕ) → ((i < n) × (p i ≡ true)) ↔ In i xs)
    → length xs ≡ count_if p (range n)
length-count n p xs d h = omega (
  arith,
  count_elem n xs d (λ i m. ((h i).1 m).0),
  count_if_cong (λ i. elem i xs) p (range n)
      (λ i m. ground (
        arith,
        Bool-cases (p i),
        Bool-cases (elem i xs),
        elem→In i xs,
        In→elem i xs,
        h i,
        In-range n i m,
      )),
)

module _ (first : ℕ × ℕ → ℕ × ℕ → Bool) where
  pub elem-nodes-sort_by :
      (n : ℕ) (ps : List (ℕ × ℕ)) → elem n (nodes (sort_by first ps)) ≡ elem n (nodes ps)
  unfolding sort_by
  elem-nodes-sort_by n [] = refl
  elem-nodes-sort_by n (p ∷ ps) =
      ground (arith, elem-nodes-insert_by first p (sort_by first ps) n, elem-nodes-sort_by n ps)

  pub Distinct-sort_by :
      (ps : List (ℕ × ℕ)) → Distinct (nodes ps) → Distinct (nodes (sort_by first ps))
  unfolding sort_by
  Distinct-sort_by [] d = tt
  Distinct-sort_by (p ∷ ps) d =
      Distinct-insert_by first p (sort_by first ps) (ground (arith, elem-nodes-sort_by p.1 ps, d.0))
        (Distinct-sort_by ps d.1)

  pub length-sort_by : (ps : List (ℕ × ℕ)) → length (sort_by first ps) ≡ length ps
  unfolding sort_by
  length-sort_by [] = refl
  length-sort_by (p ∷ ps) =
      omega (arith, length-insert_by first p (sort_by first ps), length-sort_by ps)

pub In_nodes_take :
    (k n : ℕ) (ps : List (ℕ × ℕ)) → In n (nodes (take k ps)) → (d : ℕ) × In (d, n) (take k ps)
In_nodes_take zero n ps m = absurd m
In_nodes_take (suc k) n [] m = absurd m
In_nodes_take (suc k) n ((d, i) ∷ ps) (inl e) = (d, inl (ap (λ x. (d, x)) e))
In_nodes_take (suc k) n ((d, i) ∷ ps) (inr m) = let (e, at) = In_nodes_take k n ps m in (e, inr at)

pub nodes-In : (d n : ℕ) (ps : List (ℕ × ℕ)) → In (d, n) ps → In n (nodes ps)
nodes-In d n [] m = absurd m
nodes-In d n (p ∷ ps) (inl e) = inl (ap (λ x. x.1) e)
nodes-In d n (p ∷ ps) (inr m) = inr (nodes-In d n ps m)

elem-take :
    (n k : ℕ) (ps : List (ℕ × ℕ)) → elem n (nodes ps) ≡ false → elem n (nodes (take k ps)) ≡ false
elem-take n zero ps h = refl
elem-take n (suc k) [] h = refl
elem-take n (suc k) (p ∷ ps) h = ground (arith, elem-take n k ps)

pub Distinct-take : (k : ℕ) (ps : List (ℕ × ℕ)) → Distinct (nodes ps) → Distinct (nodes (take k ps))
Distinct-take zero ps d = tt
Distinct-take (suc k) [] d = tt
Distinct-take (suc k) (p ∷ ps) d = (elem-take p.1 k ps d.0, Distinct-take k ps d.1)

pub length-take-min : (k : ℕ) (ps : List (ℕ × ℕ)) → length (take k ps) ≡ min k (length ps)
length-take-min zero ps = omega arith
length-take-min (suc k) [] = omega arith
length-take-min (suc k) (p ∷ ps) = omega (arith, length-take-min k ps)

pub length-nodes_eq : (ps : List (ℕ × ℕ)) → length (nodes ps) ≡ length ps
length-nodes_eq [] = refl
length-nodes_eq (p ∷ ps) = omega (arith, length-nodes_eq ps)
