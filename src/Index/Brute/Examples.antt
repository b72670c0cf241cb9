-- ===== src/Index/Brute/Examples.antt =====
-- The scan of three vectors on a line, with a full sort for numpy's argpartition.
use cite_delta_rag.Prelude.{
  ℕ, ◌+◌, ◌-◌, ◌≡◌, refl, sym, ap, true, false, none, some, [], ◌∷◌, arith, length, min,
}
use cite_delta_rag.Prelude.Sorting.{sort_by}
use cite_delta_rag.Index.Vector.{range, IsNearest, admits}
use cite_delta_rag.Index.Brute.{BruteForceIndex, distance_at, search, cosine_distance}
use cite_delta_rag.Index.Brute.Exact.{search_exact}
use cite_delta_rag.Index.Brute.FullSort.{argsort, argsort-IsPartition}

abbrev line_distance : ℕ → ℕ → ℕ
line_distance v q = min 50 ((v - q) + (q - v))

abbrev index : BruteForceIndex ℕ
index = record { ids = 30 ∷ 10 ∷ 20 ∷ []; vectors = 4 ∷ 9 ∷ 6 ∷ [] }

search_run :
    search line_distance 99 argsort index 5 2 (some (true ∷ true ∷ false ∷ []))
    ≡ record { id = 30; distance = 1 } ∷ record { id = 10; distance = 4 } ∷ []
unfolding search sort_by range
search_run = refl

search_exact_example :
    IsNearest 3 index.ids
      (distance_at (cosine_distance line_distance index.vectors 5))
      (admits (some (true ∷ true ∷ false ∷ [])))
      2
      (search line_distance 99 argsort index 5 2 (some (true ∷ true ∷ false ∷ [])))
search_exact_example =
    search_exact line_distance 99 argsort argsort-IsPartition 5 (λ v. omega arith) index 2
      (some (true ∷ true ∷ false ∷ [])) refl
      (λ flags e. ap {B = ℕ} (λ o. elim o [ none ↦ 3 | some l ↦ length l ]) (sym e))
