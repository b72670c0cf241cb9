-- ===== src/Index/Ivf/Cells.antt =====
-- What `build` of index/ivf.py gives: how the cells lie in the rows.
use cite_delta_rag.Prelude.{
  ℕ, zero, suc, ◌-◌, ◌≤◌, ◌<◌, ◌≡◌, refl, ap, ◌∙◌, Bool, true, false, Option, none, some, List, map,
  ltb, leb, ◌==◌, nat_eq, arith, length, In, subst,
}
use cite_delta_rag.Prelude.Counting.{
  count_if, count_if_all, count_if_le, none-count_if, Rearranges, Rearranges-In,
}
use cite_delta_rag.Prelude.Sorting.{Ordered, sort_by-Ordered}
use cite_delta_rag.Index.Vector.{range, id_at, key_leb}
use cite_delta_rag.Index.Brute.{distance_at}
use cite_delta_rag.Index.Brute.FullSort.{sort_by-Rearranges}
use cite_delta_rag.Index.Hnsw.Layer.Fuel.{length-range, In-range, count_if_mono}
use cite_delta_rag.Index.Ivf.{IvfIndex, arange, span, spans, offset_at}
use cite_delta_rag.Index.Ivf.Build.{
  assigned, cell_order, searchsorted, permuted, choose_n_lists, build,
}
use cite_delta_rag.Index.Ivf.Places.{
  spans-range, length-map, get_elem?-map-range, place_below, Ordered-map, All-map, In-arange,
  every-count_if, All-In,
}

-- The offsets of `m` cells, for the clustering `assignments`.
module _ (assignments : List ℕ) (m : ℕ)
    (inside : (i : ℕ) → i < length assignments → assigned assignments i < m) where
  abbrev pub sorted : List ℕ
  sorted = map (assigned assignments) (cell_order assignments)

  abbrev pub offsets : List ℕ
  offsets = map (searchsorted sorted) (range (suc m))

  pub cell_order-Rearranges : Rearranges (cell_order assignments) (range (length assignments))
  unfolding cell_order
  cell_order-Rearranges =
      sort_by-Rearranges (λ i j. key_leb (assigned assignments i) i (assigned assignments j) j)
        (range (length assignments))

  length-sorted : length sorted ≡ length assignments
  length-sorted = omega (
    arith,
    length-map (assigned assignments) (cell_order assignments),
    cell_order-Rearranges (λ x. true),
    count_if_all (cell_order assignments),
    count_if_all (range (length assignments)),
    length-range (length assignments),
  )

  sorted-Ordered : Ordered leb sorted
  unfolding cell_order
  sorted-Ordered =
      let first : ℕ → ℕ → Bool =
        λ i j. key_leb (assigned assignments i) i (assigned assignments j) j in
      Ordered-map first leb (assigned assignments) (cell_order assignments)
        (λ a b e. ground (arith, e))
        (sort_by-Ordered first (λ a b e. ground (arith, e)) (λ a b c e f. ground (arith, e, f))
          (range (length assignments)))

  offset_at-cell : (c : ℕ) → c ≤ m → offset_at offsets c ≡ count_if (λ a. ltb a c) sorted
  unfolding searchsorted
  offset_at-cell c h =
      ap (λ o. elim o [ none ↦ 0 | some o ↦ o ])
        (get_elem?-map-range (searchsorted sorted) (suc m) c (omega (arith, h)))

  below_all : count_if (λ a. ltb a m) sorted ≡ length assignments
  below_all =
      every-count_if (λ a. ltb a m) sorted
        (All-map (λ i. i < length assignments) (λ a. ltb a m ≡ true) (assigned assignments)
          (cell_order assignments) (λ i h. ground (arith, inside i h))
          (All-In (λ i. i < length assignments) (cell_order assignments)
            (λ i at. In-range (length assignments) i (
              Rearranges-In (cell_order assignments) (range (length assignments)) i
                cell_order-Rearranges at))))
      ∙ length-sorted

  -- The cells hold every row once.
  pub cells_hold : spans offsets (range m) ≡ range (length assignments)
  cells_hold =
      let zeroth =
        offset_at-cell 0 (omega arith)
        ∙ none-count_if (λ a. ltb a 0) sorted (λ a at. ground arith) in
      spans-range offsets m zeroth (λ c h. omega (
        arith,
        offset_at-cell c (omega (arith, h)),
        offset_at-cell (suc c) (omega (arith, h)),
        count_if_mono (λ a. ltb a c) (λ a. ltb a (suc c)) sorted (λ b e. ground (arith, e)),
      ))
      ∙ ap range (offset_at-cell m (omega arith) ∙ below_all)

  -- A row of a cell was assigned to it.
  pub cell_members : (c i : ℕ) → c < m → In i (span offsets c) → distance_at sorted i ≡ c
  unfolding span arange
  cell_members c i h at =
      let lo = offset_at offsets c in
      let hi = offset_at offsets (suc c) in
      let b = In-arange lo (hi - lo) i (range (hi - lo)) (λ j m. In-range (hi - lo) j m) at in
      let fit = count_if_le (λ a. ltb a (suc c)) sorted in
      let o = offset_at-cell c (omega (arith, h)) in
      let p = offset_at-cell (suc c) (omega (arith, h)) in
      let here : i < length sorted = omega (arith, b, fit, p) in
      ground (
        arith,
        place_below sorted i c sorted-Ordered here,
        place_below sorted i (suc c) sorted-Ordered here,
        b,
        o,
        p,
      )

-- What build gives for ids and vectors, with `assignments` to `m` cells: the ids and vectors permuted
-- alike, every row in exactly one cell, and each where the clustering put it.
pub record IsBuilt {V : Type 0} (ids : List ℕ) (vectors : List V) (assignments : List ℕ) (m : ℕ)
    (result : Option (IvfIndex V)) : Type 0 where
  pub index : IvfIndex V
  pub order : List ℕ
  pub returns : result ≡ some index
  pub rearranges : Rearranges order (range (length ids))
  pub ids_are : index.ids ≡ map (id_at ids) order
  pub vectors_are : index.vectors ≡ permuted vectors order
  pub cells_are : spans index.offsets (range m) ≡ range (length ids)
  pub members :
      (c i : ℕ)
      → c < m
      → In i (span index.offsets c)
      → distance_at (map (assigned assignments) order) i ≡ c

some_list : (requested : Option ℕ) (n : ℕ) → 1 ≤ choose_n_lists requested n
unfolding choose_n_lists
some_list none n = omega arith
some_list (some zero) n = omega arith
some_list (some (suc r)) n = omega arith

module _ {V : Type 0} (kmeans : List V → ℕ → List V × List ℕ)
    (lawful : (vectors : List V) (k : ℕ)
      → 1 ≤ length vectors
      → 1 ≤ k
      → (length (kmeans vectors k).1 ≡ length vectors)
        × ((i : ℕ)
            → i < length vectors
            → assigned (kmeans vectors k).1 i < length (kmeans vectors k).0)) where
  -- If the clustering assigns each vector to one of its centroids, build succeeds on as many ids as
  -- vectors, if there is one, and every row is in exactly one cell, the one that it was assigned to.
  pub build-IsBuilt :
      (requested default_probe : Option ℕ) (ids : List ℕ) (vectors : List V)
      → length ids ≡ length vectors
      → 1 ≤ length ids
      → IsBuilt ids vectors
          (kmeans vectors (choose_n_lists requested (length ids))).1
          (length (kmeans vectors (choose_n_lists requested (length ids))).0)
          (build kmeans requested default_probe ids vectors)
  unfolding build
  build-IsBuilt requested default_probe ids vectors same some_id =
      let clusters = kmeans vectors (choose_n_lists requested (length ids)) in
      let m = length clusters.0 in
      let law =
        lawful vectors (choose_n_lists requested (length ids)) (omega (arith, same, some_id))
          (some_list requested (length ids)) in
      let size : length clusters.1 ≡ length ids = omega (arith, law.0, same) in
      let inside = λ (i : ℕ) (h : i < length clusters.1). law.1 i (omega (arith, h, law.0)) in
      let equal : (length ids == length vectors) ≡ true = ground (arith, same) in
      let more : (length ids == 0) ≡ false = ground (arith, some_id) in
      record {
        index = record {
          ids = map (id_at ids) (cell_order clusters.1);
          vectors = permuted vectors (cell_order clusters.1);
          centroids = clusters.0;
          offsets = offsets clusters.1 m inside;
          default_probe = default_probe;
        };
        order = cell_order clusters.1;
        returns = rw (equal, more) refl;
        rearranges =
            subst (λ n. Rearranges (cell_order clusters.1) (range n)) size
              (cell_order-Rearranges clusters.1 m inside);
        ids_are = refl;
        vectors_are = refl;
        cells_are = cells_hold clusters.1 m inside ∙ ap range size;
        members = cell_members clusters.1 m inside;
      }
