-- ===== src/Index/Brute.antt =====
-- index/brute.py: the exact scan. A distance is a number that orders as the 32-bit floats do, and
-- `inf` the number of the infinite one. numpy's `argpartition` is a parameter; `where`,
-- `count_nonzero` and `lexsort` have one possible result each.
pub mod Partition
pub mod Oracle
pub mod Exact
pub mod FullSort
mod Examples
use cite_delta_rag.Prelude.{
  ℕ, zero, suc, ◌-◌, Bool, true, false, ◌||◌, Option, none, some, List, [], ◌∷◌, map, min, ltb, leb,
  ◌==◌, nat_eq, if◌then◌else◌, length, take, get_elem?,
}
use cite_delta_rag.Prelude.Counting.{count_if}
use cite_delta_rag.Prelude.Sorting.{sort_by}
use cite_delta_rag.Index.Vector.{Neighbor, id_at, key_leb, compile_mask}

-- `BruteForceIndex`
pub record BruteForceIndex (V : Type 0) : Type 0 where
  pub ids : List ℕ
  pub vectors : List V

-- `distances[row]`
abbrev pub distance_at : List ℕ → ℕ → ℕ
distance_at distances row = elim (get_elem? distances row) [ none ↦ 0 | some d ↦ d ]

-- `np.where(admissible, distances, np.inf)`
unfoldable pub where_admissible : ℕ → List Bool → List ℕ → List ℕ
where_admissible inf (flag ∷ mask) (d ∷ ds) =
    (if flag then d else inf) ∷ where_admissible inf mask ds
where_admissible inf mask ds = []

-- The keys of `lexsort`: the distance, then the id.
unfoldable pub row_first : List ℕ → List ℕ → ℕ → ℕ → Bool
row_first ids distances i j =
    key_leb (distance_at distances i) (id_at ids i) (distance_at distances j) (id_at ids j)

module _ {V : Type 0} where
  -- `build`; `none` is its ValueError.
  unfoldable pub build : List ℕ → List V → Option (BruteForceIndex V)
  build ids vectors =
      if length ids == length vectors then some (record { ids = ids; vectors = vectors }) else none

  -- `compile_filter`
  unfoldable pub compile_filter : BruteForceIndex V → List ℕ → List Bool
  compile_filter index admissible_ids = compile_mask index.ids admissible_ids

  -- `cosine_distance`: each row's distance to the query.
  unfoldable pub cosine_distance : (V → V → ℕ) → List V → V → List ℕ
  cosine_distance distance vectors query = map (λ v. distance v query) vectors

  module _ (distance : V → V → ℕ) (inf : ℕ) (argpartition : List ℕ → ℕ → List ℕ) where
    -- The k rows that the partition puts first, in order.
    unfoldable pub nearest_rows : List ℕ → List ℕ → ℕ → List Neighbor
    unfolding row_first
    nearest_rows ids distances k =
        map (λ i. record { id = id_at ids i; distance = distance_at distances i })
          (sort_by (row_first ids distances) (take k (argpartition distances (k - 1))))

    -- `search`; a k below one, which gives no hit, stands as zero.
    unfoldable pub search : BruteForceIndex V → V → ℕ → Option (List Bool) → List Neighbor
    unfolding nearest_rows cosine_distance where_admissible
    search index query k admissible =
        let distances = cosine_distance distance index.vectors query in
        if length index.ids == 0 || k == 0 then [] else elim admissible [
          | none ↦ nearest_rows index.ids distances (min k (length index.ids))
          | some mask ↦
              let available = count_if (λ flag. flag) mask in
              if available == 0
              then []
              else nearest_rows index.ids (where_admissible inf mask distances) (min k available)
        ]
