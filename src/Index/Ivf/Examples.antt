-- ===== src/Index/Ivf/Examples.antt =====
-- Six vectors on a line in three cells, with a full sort for numpy's two.
use cite_delta_rag.Prelude.{
  ℕ, zero, suc, ◌<◌, ltb, if◌then◌else◌, ◌+◌, ◌-◌, ◌≡◌, refl, Bool, true, false, none, some, List,
  [], ◌∷◌, map, min, length, arith,
}
use cite_delta_rag.Prelude.Sorting.{sort_by}
use cite_delta_rag.Index.Vector.{range, id_at, IsNearest}
use cite_delta_rag.Index.Brute.{distance_at, cosine_distance}
use cite_delta_rag.Index.Brute.FullSort.{argsort, argsort-IsPartition}
use cite_delta_rag.Index.Ivf.Build.{build}
use cite_delta_rag.Index.Ivf.Places.{length-map}
use cite_delta_rag.Index.Ivf.Cells.{IsBuilt, build-IsBuilt}
use cite_delta_rag.Index.Ivf.{IvfIndex, probe_until_k, search}
use cite_delta_rag.Index.Ivf.Probes.{IsWalk, scanned, probe_until_k-IsWalk, search_scans}

abbrev line_distance : ℕ → ℕ → ℕ
line_distance v q = min 50 ((v - q) + (q - v))

abbrev by_distance : List ℕ → List ℕ
by_distance distances = argsort distances 0

abbrev index : IvfIndex ℕ
index = record {
  ids = 11 ∷ 14 ∷ 12 ∷ 15 ∷ 13 ∷ 16 ∷ [];
  vectors = 1 ∷ 2 ∷ 10 ∷ 11 ∷ 20 ∷ 22 ∷ [];
  centroids = 1 ∷ 10 ∷ 21 ∷ [];
  offsets = 0 ∷ 2 ∷ 4 ∷ 6 ∷ [];
  default_probe = none;
}

abbrev mask : List Bool
mask = true ∷ true ∷ false ∷ false ∷ true ∷ true ∷ []

search_run :
    search line_distance argsort by_distance index 9 3 (some 1) (some mask)
    ≡ record { id = 14; distance = 7 }
      ∷ record { id = 11; distance = 8 }
      ∷ record { id = 13; distance = 11 }
      ∷ []
unfolding search sort_by range cite_delta_rag.Index.Ivf.span cite_delta_rag.Index.Ivf.arange
    cite_delta_rag.Index.Vector.admits
search_run = refl

probe_until_k-IsWalk_example :
    IsWalk index.offsets mask 3 1
      (by_distance (8 ∷ 1 ∷ 12 ∷ []))
      0
      0
      (probe_until_k line_distance argsort by_distance index 3 1 (8 ∷ 1 ∷ 12 ∷ []) mask)
probe_until_k-IsWalk_example =
    probe_until_k-IsWalk line_distance argsort by_distance index 3 1 (8 ∷ 1 ∷ 12 ∷ []) mask

search_scans_example :
    IsNearest
      (length (scanned line_distance argsort by_distance index 9 3 (some 1) (some mask)))
      (map
        (id_at index.ids)
        (scanned line_distance argsort by_distance index 9 3 (some 1) (some mask)))
      (distance_at (
        map
          (distance_at (cosine_distance line_distance index.vectors 9))
          (scanned line_distance argsort by_distance index 9 3 (some 1) (some mask))))
      (λ i. true)
      3
      (search line_distance argsort by_distance index 9 3 (some 1) (some mask))
search_scans_example =
    search_scans line_distance argsort by_distance 99 argsort-IsPartition 9 (λ v. omega arith) index
      3 (some 1) (some mask)

-- A clustering around two centroids.
abbrev near : ℕ → ℕ
near v = if ltb v 10 then 0 else 1

abbrev two_means : List ℕ → ℕ → List ℕ × List ℕ
two_means vectors k = (2 ∷ 20 ∷ [], map near vectors)

near_two : (vectors : List ℕ) (i : ℕ) → distance_at (map near vectors) i < 2
near_two [] i = omega arith
near_two (v ∷ vectors) zero = ground arith
near_two (v ∷ vectors) (suc i) = near_two vectors i

build_run :
    build two_means none none (11 ∷ 12 ∷ 13 ∷ []) (30 ∷ 4 ∷ 25 ∷ [])
    ≡ some (record {
      ids = 12 ∷ 11 ∷ 13 ∷ [];
      vectors = 4 ∷ 30 ∷ 25 ∷ [];
      centroids = 2 ∷ 20 ∷ [];
      offsets = 0 ∷ 1 ∷ 3 ∷ [];
      default_probe = none;
    })
unfolding build sort_by range
build_run = refl

build-IsBuilt_example :
    IsBuilt
      (11 ∷ 12 ∷ 13 ∷ [])
      (30 ∷ 4 ∷ 25 ∷ [])
      (1 ∷ 0 ∷ 1 ∷ [])
      2
      (build two_means none none (11 ∷ 12 ∷ 13 ∷ []) (30 ∷ 4 ∷ 25 ∷ []))
build-IsBuilt_example =
    build-IsBuilt two_means (λ vectors k h l. (length-map near vectors, λ i m. near_two vectors i))
      none none (11 ∷ 12 ∷ 13 ∷ []) (30 ∷ 4 ∷ 25 ∷ []) refl (omega arith)
