-- ===== src/Index/Vector.antt =====
-- index/vector.py: what the vector indexes share, and what an exact search promises. A distance is a
-- number that orders as the 32-bit floats do; no distance is a NaN.
use cite_delta_rag.Prelude.{
  ℕ, zero, suc, ◌≡◌, ◌<◌, ◌≤◌, min, Bool, true, false, ◌&&◌, ◌||◌, Option, none, some, List, [],
  ◌∷◌, ◌++◌, map, ◌⊎◌, ltb, leb, ◌==◌, nat_eq, elem, length, get_elem?, In, All, Distinct,
}
use cite_delta_rag.Prelude.Counting.{count_if}

-- `Neighbor`
pub record Neighbor : Type 0 where
  pub id : ℕ
  pub distance : ℕ

-- `range(n)`
unfoldable pub range : ℕ → List ℕ
range zero = []
range (suc n) = range n ++ (n ∷ [])

-- `compile_mask`: a flag for each row.
unfoldable pub compile_mask : List ℕ → List ℕ → List Bool
compile_mask index_ids admissible_ids = map (λ i. elem i admissible_ids) index_ids

-- `admissible is None or admissible[row]`; a mask has a flag for each row, so none is out of range.
unfoldable pub admits : Option (List Bool) → ℕ → Bool
admits none row = true
admits (some mask) row = elim (get_elem? mask row) [ none ↦ false | some flag ↦ flag ]

-- `(distance, id)` as a sort key.
abbrev pub key_leb : ℕ → ℕ → ℕ → ℕ → Bool
key_leb d i e j = ltb d e || (d == e && leb i j)

-- `self._ids[row]`; rows are in range.
abbrev pub id_at : List ℕ → ℕ → ℕ
id_at ids row = elim (get_elem? ids row) [ none ↦ 0 | some i ↦ i ]

abbrev pub neighbor : List ℕ → (ℕ → ℕ) → ℕ → Neighbor
neighbor ids dist row = record { id = id_at ids row; distance = dist row }

-- Ascending by (distance, id).
abbrev pub IsRanked : List Neighbor → Type 0
IsRanked [] = Unit {0}
IsRanked (h ∷ hs) = All (λ x. key_leb h.distance h.id x.distance x.id ≡ true) hs × IsRanked hs

-- What an exact search for `k` among the rows below `size` gives: as many distinct admissible rows as
-- there are, up to k, with their ids and distances, in order, and no other admissible row is nearer.
pub record IsNearest (size : ℕ) (ids : List ℕ) (dist : ℕ → ℕ) (allowed : ℕ → Bool) (k : ℕ)
    (hits : List Neighbor) : Type 0 where
  pub rows : List ℕ
  pub hits_are : hits ≡ map (neighbor ids dist) rows
  pub as_many : length rows ≡ min k (count_if allowed (range size))
  pub distinct : Distinct rows
  pub admissible : (i : ℕ) → In i rows → (i < size) × (allowed i ≡ true)
  pub ranked : IsRanked hits
  pub nearest : (i j : ℕ) → In i rows → j < size → allowed j ≡ true → In j rows ⊎ (dist i ≤ dist j)
