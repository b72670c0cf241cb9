-- ===== src/Index/Brute/Exact.antt =====
-- The scan of index/brute.py is exact.
use cite_delta_rag.Prelude.{
  ℕ, zero, suc, ◌-◌, ◌≤◌, ◌<◌, ◌≡◌, refl, sym, subst, Bool, true, false, ◌||◌, Option, none, some,
  List, [], ◌∷◌, inl, inr, arith, nat_eq, ◌==◌, length, Bool-cases, take, min, map,
}
use cite_delta_rag.Prelude.Counting.{count_if, count_if_le, count_if_all}
use cite_delta_rag.Index.Vector.{range, IsNearest, admits, neighbor}
use cite_delta_rag.Prelude.Sorting.{sort_by}
use cite_delta_rag.Index.Brute.{
  BruteForceIndex, distance_at, where_admissible, cosine_distance, nearest_rows, search, row_first,
}
use cite_delta_rag.Index.Brute.Partition.{IsPartition, IsFirst, IsFirst-rows}
use cite_delta_rag.Index.Brute.Oracle.{sorted_first, count_mask, length-where, at-where}
use cite_delta_rag.Index.Hnsw.Layer.Fuel.{length-range}

module _ {V : Type 0} (distance : V → V → ℕ) (inf : ℕ) (argpartition : List ℕ → ℕ → List ℕ)
    (lawful : (distances : List ℕ) (kth : ℕ)
      → kth < length distances
      → IsPartition distances kth (argpartition distances kth))
    (query : V) (finite : (v : V) → distance v query < inf) where
  length-cosine : (vs : List V) → length (cosine_distance distance vs query) ≡ length vs
  unfolding cosine_distance
  length-cosine [] = refl
  length-cosine (v ∷ vs) = omega (arith, length-cosine vs)

  cosine_finite :
      (i : ℕ) (vs : List V)
      → i < length vs
      → distance_at (cosine_distance distance vs query) i < inf
  unfolding cosine_distance
  cosine_finite i [] h = absurd (omega (arith, h))
  cosine_finite zero (v ∷ vs) h = finite v
  cosine_finite (suc i) (v ∷ vs) h = cosine_finite i vs (omega (arith, h))

  nearest_rows_exact :
      (n k m : ℕ) (ids ds : List ℕ) (dist : ℕ → ℕ) (allowed : ℕ → Bool)
      → length ds ≡ n
      → ((i : ℕ) → i < n → allowed i ≡ false → distance_at ds i ≡ inf)
      → ((i : ℕ) → i < n → allowed i ≡ true → (distance_at ds i ≡ dist i) × (dist i < inf))
      → suc k ≡ min m (count_if allowed (range n))
      → IsNearest n ids dist allowed m (nearest_rows distance inf argpartition ids ds (suc k))
  unfolding nearest_rows
  nearest_rows_exact n k m ids ds dist allowed size masked open_rows e =
      let enough = count_if_le allowed (range n) in
      let inside = lawful ds k (omega (arith, e, enough, length-range n, size)) in
      let pred : k ≡ suc k - 1 = omega arith in
      subst
        (λ j. IsNearest n ids dist allowed m (
          map (neighbor ids (distance_at ds))
            (sort_by (row_first ids ds) (take (suc k) (argpartition ds j)))))
        pred
        (sorted_first n ids ds (take (suc k) (argpartition ds k)) dist allowed (suc k) m
          (subst (λ l. IsFirst l dist allowed (suc k) (take (suc k) (argpartition ds k))) size
            (IsFirst-rows ds dist allowed inf k (argpartition ds k) inside
              (λ i h. masked i (omega (arith, h, size)))
              (λ i h. open_rows i (omega (arith, h, size)))
              (subst (λ l. k < count_if allowed (range l)) (sym size) (omega (arith, e)))))
          e (λ i h a. (open_rows i h a).0))

  pub empty_rows :
      (n m : ℕ) (ids : List ℕ) (dist : ℕ → ℕ) (allowed : ℕ → Bool)
      → min m (count_if allowed (range n)) ≡ 0
      → IsNearest n ids dist allowed m []
  empty_rows n m ids dist allowed e = record {
    rows = [];
    hits_are = refl;
    as_many = omega (arith, e);
    distinct = tt;
    admissible = λ i at. absurd at;
    ranked = tt;
    nearest = λ i j at h a. absurd at;
  }

  -- The scan for a positive number of rows.
  pub counted_exact :
      (n k m : ℕ) (ids ds : List ℕ) (dist : ℕ → ℕ) (allowed : ℕ → Bool)
      → length ds ≡ n
      → ((i : ℕ) → i < n → allowed i ≡ false → distance_at ds i ≡ inf)
      → ((i : ℕ) → i < n → allowed i ≡ true → (distance_at ds i ≡ dist i) × (dist i < inf))
      → k ≡ min m (count_if allowed (range n))
      → 1 ≤ k
      → IsNearest n ids dist allowed m (nearest_rows distance inf argpartition ids ds k)
  counted_exact n zero m ids ds dist allowed size masked open_rows e h = absurd (omega (arith, h))
  counted_exact n (suc k) m ids ds dist allowed size masked open_rows e h =
      nearest_rows_exact n k m ids ds dist allowed size masked open_rows e

  search_without :
      (index : BruteForceIndex V) (k : ℕ)
      → length index.ids ≡ length index.vectors
      → IsNearest
          (length index.ids)
          index.ids
          (distance_at (cosine_distance distance index.vectors query))
          (admits none)
          k
          (search distance inf argpartition index query k none)
  unfolding search admits
  search_without index k built =
      let n = length index.ids in
      let ds = cosine_distance distance index.vectors query in
      let all = count_if_all (range n) in
      elim (Bool-cases ((n == 0) || (k == 0))) [
        | inl e ↦
            rw (e, search)
              (empty_rows n k index.ids (distance_at ds) (admits none)
                (ground (arith, e, all, length-range n)))
        | inr e ↦
            rw (e, search)
              (counted_exact n (min k n) k index.ids ds (distance_at ds) (admits none)
                (omega (arith, length-cosine index.vectors, built))
                (λ i h out. absurd (ground (arith, out)))
                (λ i h a. (refl, cosine_finite i index.vectors (omega (arith, h, built))))
                (omega (arith, all, length-range n)) (ground (arith, e)))
      ]

  search_with :
      (index : BruteForceIndex V) (k : ℕ) (mask : List Bool)
      → length index.ids ≡ length index.vectors
      → length mask ≡ length index.ids
      → IsNearest
          (length index.ids)
          index.ids
          (distance_at (cosine_distance distance index.vectors query))
          (admits (some mask))
          k
          (search distance inf argpartition index query k (some mask))
  unfolding search
  search_with index k mask built flags =
      let n = length index.ids in
      let ds = cosine_distance distance index.vectors query in
      let ws = where_admissible inf mask ds in
      let rows_there : length (cosine_distance distance index.vectors query) ≡ length index.ids =
        omega (arith, length-cosine index.vectors, built) in
      let same : length mask ≡ length (cosine_distance distance index.vectors query) =
        omega (arith, flags, length-cosine index.vectors, built) in
      let available = count_if (λ flag. flag) mask in
      let counts =
        subst (λ l. available ≡ count_if (admits (some mask)) (range l)) flags (count_mask mask) in
      elim (Bool-cases ((n == 0) || (k == 0))) [
        | inl e ↦
            rw (e, search)
              (empty_rows n k index.ids (distance_at ds) (admits (some mask))
                (ground (arith, e, count_if_le (admits (some mask)) (range n), length-range n)))
        | inr e ↦ elim (Bool-cases (available == 0)) [
          | inl z ↦
              rw (e, z, search)
                (empty_rows n k index.ids (distance_at ds) (admits (some mask))
                  (ground (arith, z, counts)))
          | inr z ↦
              rw (e, z, search)
                (counted_exact n (min k available) k index.ids ws (distance_at ds)
                  (admits (some mask))
                  (omega (arith, length-where inf mask ds same, length-cosine index.vectors, built))
                  (λ i h out.
                    ground (arith, out, at-where inf i mask ds same (omega (arith, h, rows_there))))
                  (λ i h a. (
                    ground (arith, a, at-where inf i mask ds same (omega (arith, h, rows_there))),
                    cosine_finite i index.vectors (omega (arith, h, built)),
                  ))
                  (omega (arith, counts)) (ground (arith, e, z)))
        ]
      ]

  -- With an argpartition that does what its documentation says and finite distances, a search of a
  -- built index gives the k nearest admissible rows, or all of them if there are fewer.
  pub search_exact :
      (index : BruteForceIndex V) (k : ℕ) (mask : Option (List Bool))
      → length index.ids ≡ length index.vectors
      → ((flags : List Bool) → mask ≡ some flags → length flags ≡ length index.ids)
      → IsNearest
          (length index.ids)
          index.ids
          (distance_at (cosine_distance distance index.vectors query))
          (admits mask)
          k
          (search distance inf argpartition index query k mask)
  search_exact index k none built flags = search_without index k built
  search_exact index k (some mask) built flags = search_with index k mask built (flags mask refl)
