-- ===== src/Index/Ivf/Build.antt =====
-- index/ivf.py, `build`: the rows are permuted into the order of their cells, and each cell is the
-- rows between two offsets. The clustering of index/kmeans.py, which is floating point, is a
-- parameter.
use cite_delta_rag.Prelude.{
  ℕ, zero, suc, ◌*◌, not, Option, none, some, List, [], ◌∷◌, map, min, max, ltb, leb, ◌==◌, nat_eq,
  if◌then◌else◌, length, get_elem?,
}
use cite_delta_rag.Prelude.Counting.{count_if}
use cite_delta_rag.Prelude.Sorting.{sort_by}
use cite_delta_rag.Index.Vector.{range, id_at, key_leb}
use cite_delta_rag.Index.Brute.{distance_at}
use cite_delta_rag.Index.Ivf.{IvfIndex, or_else}

-- `int(math.sqrt(n))`
unfoldable pub sqrt : ℕ → ℕ
sqrt zero = 0
sqrt (suc n) = let r = sqrt n in if leb (suc r * suc r) (suc n) then suc r else r

-- `_choose_n_lists`
unfoldable pub choose_n_lists : Option ℕ → ℕ → ℕ
unfolding or_else sqrt
choose_n_lists requested n = or_else requested (max 1 (min n (sqrt n)))

-- `assignments[row]`
abbrev pub assigned : List ℕ → ℕ → ℕ
assigned assignments row = distance_at assignments row

-- `np.argsort(assignments, kind="stable")`
unfoldable pub cell_order : List ℕ → List ℕ
cell_order assignments =
    sort_by (λ i j. key_leb (assigned assignments i) i (assigned assignments j) j)
      (range (length assignments))

-- `np.searchsorted(sorted, cell, side="left")` on a sorted array.
unfoldable pub searchsorted : List ℕ → ℕ → ℕ
searchsorted sorted cell = count_if (λ a. ltb a cell) sorted

-- `self._vectors[row]` for each row.
unfoldable pub permuted : {V : Type 0} → List V → List ℕ → List V
permuted vectors [] = []
permuted vectors (row ∷ rows) =
    let rest = permuted vectors rows in
    elim (get_elem? vectors row) [ none ↦ rest | some v ↦ v ∷ rest ]

module _ {V : Type 0} (kmeans : List V → ℕ → List V × List ℕ) where
  -- `build` of an index with `requested` lists; `none` is its ValueError.
  unfoldable pub build : Option ℕ → Option ℕ → List ℕ → List V → Option (IvfIndex V)
  unfolding choose_n_lists cell_order searchsorted permuted
  build requested default_probe ids vectors =
      let clusters = kmeans vectors (choose_n_lists requested (length ids)) in
      let order = cell_order clusters.1 in
      let sorted = map (assigned clusters.1) order in
      if not (length ids == length vectors)
      then none
      else if length ids == 0
      then some (record {
        ids = ids;
        vectors = vectors;
        centroids = [];
        offsets = 0 ∷ [];
        default_probe = default_probe;
      })
      else some (record {
        ids = map (id_at ids) order;
        vectors = permuted vectors order;
        centroids = clusters.0;
        offsets = map (searchsorted sorted) (range (suc (length clusters.0)));
        default_probe = default_probe;
      })
