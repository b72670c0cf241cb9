-- ===== src/Index/Ivf.antt =====
-- index/ivf.py: the search. The rows of a cell are those between its offset and the next one. A
-- distance is a number that orders as the 32-bit floats do; numpy's `argpartition` and `argsort` are
-- parameters.
pub mod Probes
pub mod Build
pub mod Places
pub mod Cells
mod Examples
use cite_delta_rag.Prelude.{
  ℕ, zero, suc, ◌+◌, ◌-◌, ◌/◌, Bool, ◌&&◌, ◌||◌, Option, none, some, List, [], ◌∷◌, ◌++◌, map, min,
  max, leb, ◌==◌, nat_eq, if◌then◌else◌, length, take, get_elem?, select,
}
use cite_delta_rag.Index.Vector.{Neighbor, range, id_at, admits}
use cite_delta_rag.Index.Brute.{distance_at, cosine_distance, nearest_rows}

-- `IVFIndex`
pub record IvfIndex (V : Type 0) : Type 0 where
  pub ids : List ℕ
  pub vectors : List V
  pub centroids : List V
  pub offsets : List ℕ
  pub default_probe : Option ℕ

-- `self._offsets[cell]`; cells are in range.
abbrev pub offset_at : List ℕ → ℕ → ℕ
offset_at offsets cell = elim (get_elem? offsets cell) [ none ↦ 0 | some o ↦ o ]

-- `np.arange(lo, hi)`
unfoldable pub arange : ℕ → ℕ → List ℕ
arange lo hi = map (λ i. lo + i) (range (hi - lo))

-- The rows of a cell.
unfoldable pub span : List ℕ → ℕ → List ℕ
span offsets cell = arange (offset_at offsets cell) (offset_at offsets (suc cell))

-- The spans of the cells, concatenated.
unfoldable pub spans : List ℕ → List ℕ → List ℕ
spans offsets [] = []
spans offsets (cell ∷ cells) = span offsets cell ++ spans offsets cells

-- `span[admissible[span]]`
unfoldable pub admissible_span : List ℕ → List Bool → ℕ → List ℕ
admissible_span offsets admissible cell = select (admits (some admissible)) (span offsets cell)

-- What `_probe_until_k` gives: its rows, and `_last_probes`.
pub record Probed : Type 0 where
  pub rows : List ℕ
  pub probes : ℕ

-- The loop of `_probe_until_k`, with `probed` cells behind it and `found` rows.
unfoldable pub walk : List ℕ → List Bool → ℕ → ℕ → List ℕ → ℕ → ℕ → Probed
unfolding admissible_span
walk offsets admissible k min_probes [] probed found = record { rows = []; probes = probed }
walk offsets admissible k min_probes (cell ∷ cells) probed found =
    let here = admissible_span offsets admissible cell in
    let rest = walk offsets admissible k min_probes cells (suc probed) (found + length here) in
    if leb min_probes (suc probed) && leb k (found + length here)
    then record { rows = here; probes = suc probed }
    else record { rows = here ++ rest.rows; probes = rest.probes }

-- `effort or self._default_probe or max(1, self.n_lists // 16)`, where zero counts as none.
unfoldable pub or_else : Option ℕ → ℕ → ℕ
or_else none d = d
or_else (some zero) d = d
or_else (some (suc n)) d = suc n

-- The number of cells to probe.
unfoldable pub n_probe_of : Option ℕ → Option ℕ → ℕ → ℕ
unfolding or_else
n_probe_of effort default_probe n_lists =
    max 1 (min (or_else effort (or_else default_probe (max 1 (n_lists / 16)))) n_lists)

module _ {V : Type 0} (distance : V → V → ℕ) (argpartition : List ℕ → ℕ → List ℕ)
    (argsort : List ℕ → List ℕ) where
  -- `_probe_until_k`
  unfoldable pub probe_until_k : IvfIndex V → ℕ → ℕ → List ℕ → List Bool → Probed
  unfolding walk
  probe_until_k index k min_probes centroid_distance admissible =
      walk index.offsets admissible k min_probes (argsort centroid_distance) 0 0

  -- The rows that `search` scans, and `_last_probes`.
  unfoldable pub candidates : IvfIndex V → V → ℕ → ℕ → Option (List Bool) → Probed
  unfolding probe_until_k cosine_distance
  candidates index query k n_probe admissible =
      let centroid_distance = cosine_distance distance index.centroids query in
      elim admissible [
        | none ↦ record {
          rows = spans index.offsets (take n_probe (argpartition centroid_distance (n_probe - 1)));
          probes = n_probe;
        }
        | some mask ↦ probe_until_k index k n_probe centroid_distance mask
      ]

  -- `search`; a k below one, which gives no hit, stands as zero.
  unfoldable pub search : IvfIndex V → V → ℕ → Option ℕ → Option (List Bool) → List Neighbor
  unfolding candidates n_probe_of nearest_rows cosine_distance
  search index query k effort admissible =
      let size = length index.ids in
      let n_probe = n_probe_of effort index.default_probe (length index.centroids) in
      let rows = (candidates index query (min k size) n_probe admissible).rows in
      let distances = cosine_distance distance index.vectors query in
      if size == 0 || k == 0
      then []
      else if length rows == 0
      then []
      else nearest_rows distance 0 argpartition (map (id_at index.ids) rows)
          (map (distance_at distances) rows) (min (min k size) (length rows))
