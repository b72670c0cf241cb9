-- ===== src/Index/Ivf/Probes.antt =====
-- How far the walk over the cells of index/ivf.py goes, and what the scan of its rows gives.
use cite_delta_rag.Prelude.{
  ℕ, zero, suc, ◌+◌, ◌≤◌, ◌<◌, ◌≡◌, ◌⊎◌, refl, sym, ap, ◌∙◌, Bool, true, false, ◌&&◌, ◌||◌, Option,
  some, List, [], ◌∷◌, ◌++◌, map, min, leb, ◌==◌, nat_eq, inl, inr, arith, length, length-append,
  take, select, Bool-cases,
}
use cite_delta_rag.Prelude.Counting.{count_if_all}
use cite_delta_rag.Index.Vector.{range, id_at, admits, IsNearest}
use cite_delta_rag.Index.Brute.{distance_at, cosine_distance}
use cite_delta_rag.Index.Brute.Partition.{IsPartition}
use cite_delta_rag.Index.Brute.Exact.{empty_rows, counted_exact}
use cite_delta_rag.Index.Hnsw.Layer.Fuel.{length-range}
use cite_delta_rag.Index.Ivf.{
  IvfIndex, Probed, span, spans, admissible_span, walk, probe_until_k, candidates, n_probe_of,
  search,
}

select-append :
    {A : Type 0} (p : A → Bool) (xs ys : List A) → select p (xs ++ ys) ≡ select p xs ++ select p ys
select-append p [] ys = refl
select-append p (x ∷ xs) ys = ground (arith, select-append p xs ys)

-- The admissible rows of a prefix of the cells. It has the least number of cells and `k` rows, or is
-- all the cells, and no shorter prefix that is not empty has both.
pub record IsWalk (offsets : List ℕ) (admissible : List Bool) (k min_probes : ℕ) (order : List ℕ)
    (probed found : ℕ) (p : Probed) : Type 0 where
  pub cells : ℕ
  pub counted : p.probes ≡ probed + cells
  pub within : cells ≤ length order
  pub rows_are : p.rows ≡ select (admits (some admissible)) (spans offsets (take cells order))
  pub stops : ((min_probes ≤ p.probes) × (k ≤ found + length p.rows)) ⊎ (cells ≡ length order)
  pub no_later :
      (n : ℕ)
      → 1 ≤ n
      → n < cells
      → (probed + n < min_probes)
        ⊎ (found + length (select (admits (some admissible)) (spans offsets (take n order))) < k)

append_nil : {A : Type 0} (xs : List A) → xs ++ [] ≡ xs
append_nil [] = refl
append_nil (x ∷ xs) = ap (◌∷◌ x) (append_nil xs)

length-front :
    (offsets : List ℕ) (admissible : List Bool) (cell : ℕ) (cells : List ℕ)
    → length (select (admits (some admissible)) (spans offsets (cell ∷ cells)))
      ≡ length (admissible_span offsets admissible cell)
        + length (select (admits (some admissible)) (spans offsets cells))
unfolding spans admissible_span
length-front offsets admissible cell cells =
    let ok = admits (some admissible) in
    ap length (select-append ok (span offsets cell) (spans offsets cells))
    ∙ length-append (select ok (span offsets cell)) (select ok (spans offsets cells))

-- A walk that goes on after a cell stops no later than it may.
not_yet :
    (offsets : List ℕ) (admissible : List Bool) (k min_probes cell : ℕ) (order : List ℕ)
    (probed found cells n : ℕ)
    → ((n : ℕ)
        → 1 ≤ n
        → n < cells
        → (suc probed + n < min_probes)
          ⊎ (found
                + length (admissible_span offsets admissible cell)
                + length (select (admits (some admissible)) (spans offsets (take n order)))
              < k))
    → (leb min_probes (suc probed)
        && leb k (found + length (admissible_span offsets admissible cell)))
      ≡ false
    → 1 ≤ n
    → n < suc cells
    → (probed + n < min_probes)
      ⊎ (found + length (select (admits (some admissible)) (spans offsets (take n (cell ∷ order))))
          < k)
unfolding spans
not_yet offsets admissible k min_probes cell order probed found cells zero ih e l h =
    absurd (omega (arith, l))
not_yet offsets admissible k min_probes cell order probed found cells (suc zero) ih e l h =
    ground (arith, e, length-front offsets admissible cell [])
not_yet offsets admissible k min_probes cell order probed found cells (suc (suc n)) ih e l h =
    elim (ih (suc n) (omega arith) (omega (arith, h))) [
      | inl few ↦ inl (omega (arith, few))
      | inr short ↦
          inr (omega (arith, short, length-front offsets admissible cell (take (suc n) order)))
    ]

walk-IsWalk :
    (offsets : List ℕ) (admissible : List Bool) (k min_probes : ℕ) (order : List ℕ)
    (probed found : ℕ)
    → IsWalk offsets admissible k min_probes order probed found
        (walk offsets admissible k min_probes order probed found)
unfolding walk admissible_span spans
walk-IsWalk offsets admissible k min_probes [] probed found = record {
  cells = 0;
  counted = omega arith;
  within = omega arith;
  rows_are = refl;
  stops = inr refl;
  no_later = λ n l h. absurd (omega (arith, l, h));
}
walk-IsWalk offsets admissible k min_probes (cell ∷ order) probed found =
    let here = admissible_span offsets admissible cell in
    let ih = walk-IsWalk offsets admissible k min_probes order (suc probed) (found + length here) in
    elim (Bool-cases (leb min_probes (suc probed) && leb k (found + length here))) [
      | inl e ↦ rw (e) (record {
        cells = 1;
        counted = omega arith;
        within = omega arith;
        rows_are =
            ap (λ l. select (admits (some admissible)) l) (sym (append_nil (span offsets cell)));
        stops = inl (ground (arith, e));
        no_later = λ n l h. absurd (omega (arith, l, h));
      })
      | inr e ↦ rw (e) (record {
        cells = suc ih.cells;
        counted = omega (arith, ih.counted);
        within = omega (arith, ih.within);
        rows_are =
            ap (λ l. here ++ l) ih.rows_are
            ∙ sym (
                select-append (admits (some admissible)) (span offsets cell)
                  (spans offsets (take ih.cells order)));
        stops = elim ih.stops [
          | inl h ↦ inl (
            h.0,
            omega (
              arith,
              h.1,
              length-append here
                  (walk offsets admissible k min_probes order (suc probed)
                    (found + length here)).rows,
            ),
          )
          | inr h ↦ inr (omega (arith, h))
        ];
        no_later = λ n l h.
            not_yet offsets admissible k min_probes cell order probed found ih.cells n ih.no_later e
              l h;
      })
    ]

module _ {V : Type 0} (distance : V → V → ℕ) (argpartition : List ℕ → ℕ → List ℕ)
    (argsort : List ℕ → List ℕ) where
  -- The filtered search collects the admissible rows of a prefix of the cells, in their order; the
  -- prefix has the least number of cells and k admissible rows, or it is all the cells, and no
  -- shorter one that is not empty has both.
  pub probe_until_k-IsWalk :
      (index : IvfIndex V) (k min_probes : ℕ) (centroid_distance : List ℕ) (admissible : List Bool)
      → IsWalk index.offsets admissible k min_probes (argsort centroid_distance) 0 0 (
          probe_until_k distance argpartition argsort index k min_probes centroid_distance
            admissible)
  unfolding probe_until_k
  probe_until_k-IsWalk index k min_probes centroid_distance admissible =
      walk-IsWalk index.offsets admissible k min_probes (argsort centroid_distance) 0 0

  -- The candidates of a search, filtered or not.
  abbrev pub scanned : IvfIndex V → V → ℕ → Option ℕ → Option (List Bool) → List ℕ
  scanned index query k effort admissible =
      (candidates distance argpartition argsort index query (min k (length index.ids))
        (n_probe_of effort index.default_probe (length index.centroids)) admissible).rows

  module _ (inf : ℕ)
      (lawful : (distances : List ℕ) (kth : ℕ)
        → kth < length distances
        → IsPartition distances kth (argpartition distances kth))
      (query : V) (finite : (v : V) → distance v query < inf) where
    at_finite : (vs : List V) (i : ℕ) → distance_at (cosine_distance distance vs query) i < inf
    unfolding cosine_distance
    at_finite [] i = omega (arith, finite query)
    at_finite (v ∷ vs) zero = finite v
    at_finite (v ∷ vs) (suc i) = at_finite vs i

    map_finite :
        (f : ℕ → ℕ) (rows : List ℕ) (i : ℕ)
        → ((j : ℕ) → f j < inf)
        → distance_at (map f rows) i < inf
    map_finite f [] i h = omega (arith, finite query)
    map_finite f (r ∷ rows) zero h = h r
    map_finite f (r ∷ rows) (suc i) h = map_finite f rows i h

    length-map : (f : ℕ → ℕ) (rows : List ℕ) → length (map f rows) ≡ length rows
    length-map f [] = refl
    length-map f (r ∷ rows) = omega (arith, length-map f rows)

    -- With an argpartition that does what its documentation says and finite distances, a search
    -- gives the nearest of its candidates, up to k and to the size of the index, in order.
    pub search_scans :
        (index : IvfIndex V) (k : ℕ) (effort : Option ℕ) (admissible : Option (List Bool))
        → IsNearest
            (length (scanned index query k effort admissible))
            (map (id_at index.ids) (scanned index query k effort admissible))
            (distance_at (
              map
                (distance_at (cosine_distance distance index.vectors query))
                (scanned index query k effort admissible)))
            (λ i. true)
            (min k (length index.ids))
            (search distance argpartition argsort index query k effort admissible)
    unfolding search
    search_scans index k effort admissible =
        let size = length index.ids in
        let rows = scanned index query k effort admissible in
        let ids = map (id_at index.ids) rows in
        let at = distance_at (cosine_distance distance index.vectors query) in
        let ds = map at rows in
        let all = count_if_all (range (length rows)) in
        let none_here =
          empty_rows distance inf argpartition lawful query finite (length rows) (min k size) ids
            (distance_at ds) (λ i. true) in
        elim (Bool-cases ((size == 0) || (k == 0))) [
          | inl e ↦ rw (e, search) (none_here (ground (arith, e)))
          | inr e ↦ elim (Bool-cases (length rows == 0)) [
            | inl z ↦
                rw (e, z, search) (none_here (ground (arith, z, all, length-range (length rows))))
            | inr z ↦
                rw (e, z, search)
                  (counted_exact distance inf argpartition lawful query finite (length rows)
                    (min (min k size) (length rows)) (min k size) ids ds (distance_at ds)
                    (λ i. true) (length-map at rows) (λ i h out. absurd (ground (arith, out)))
                    (λ i h a. (refl, map_finite at rows i (at_finite index.vectors)))
                    (omega (arith, all, length-range (length rows))) (ground (arith, e, z)))
          ]
        ]
