-- ===== src/Index/Brute/Oracle.antt =====
-- `BruteForceIndex.search` against the specification of an exact search.
use cite_delta_rag.Prelude.{
  ℕ, zero, suc, ◌+◌, ◌≤◌, ◌<◌, ◌≡◌, refl, subst, ap, Bool, true, false, ◌||◌, some, List, [], ◌∷◌,
  inl, inr, arith, elem, ==_iff, nat_eq, ◌==◌, length, In, Distinct, if◌then◌else◌, take, min, map,
  All, get_elem?,
}
use cite_delta_rag.Prelude.Counting.{count_if, count_if-append}
use cite_delta_rag.Prelude.Sorting.{
  insert_by, sort_by, In-sort_by, sort_by-In, Ordered, sort_by-Ordered,
}
use cite_delta_rag.Index.Vector.{range, IsNearest, IsRanked, neighbor, id_at, key_leb, admits}
use cite_delta_rag.Index.Brute.{distance_at, where_admissible, row_first}
use cite_delta_rag.Index.Brute.Partition.{IsFirst}
use cite_delta_rag.Index.Hnsw.Layer.Fuel.{length-insert_by}

elem-insert_by :
    (first : ℕ → ℕ → Bool) (a : ℕ) (xs : List ℕ) (n : ℕ)
    → elem n (insert_by first a xs) ≡ ((a == n) || elem n xs)
unfolding insert_by
elem-insert_by first a [] n = ground arith
elem-insert_by first a (x ∷ xs) n = ground (arith, elem-insert_by first a xs n)

Distinct-insert :
    (first : ℕ → ℕ → Bool) (a : ℕ) (xs : List ℕ)
    → elem a xs ≡ false
    → Distinct xs
    → Distinct (insert_by first a xs)
unfolding insert_by
Distinct-insert first a [] e d = ground arith
Distinct-insert first a (x ∷ xs) e d =
    ground
      (arith, Distinct-insert first a xs, elem-insert_by first a xs x, ==_iff x a, ==_iff a x, d)

elem-sort : (first : ℕ → ℕ → Bool) (n : ℕ) (xs : List ℕ) → elem n (sort_by first xs) ≡ elem n xs
unfolding sort_by
elem-sort first n [] = refl
elem-sort first n (x ∷ xs) =
    ground (arith, elem-insert_by first x (sort_by first xs) n, elem-sort first n xs)

Distinct-sort : (first : ℕ → ℕ → Bool) (xs : List ℕ) → Distinct xs → Distinct (sort_by first xs)
unfolding sort_by
Distinct-sort first [] d = tt
Distinct-sort first (x ∷ xs) d =
    Distinct-insert first x (sort_by first xs) (ground (arith, elem-sort first x xs, d.0))
      (Distinct-sort first xs d.1)

length-sort : (first : ℕ → ℕ → Bool) (xs : List ℕ) → length (sort_by first xs) ≡ length xs
unfolding sort_by
length-sort first [] = refl
length-sort first (x ∷ xs) =
    omega (arith, length-insert_by first x (sort_by first xs), length-sort first xs)

row_total : (ids ds : List ℕ) (i j : ℕ) → row_first ids ds i j ≡ false → row_first ids ds j i ≡ true
unfolding row_first
row_total ids ds i j h = ground (
  arith,
  ==_iff (distance_at ds i) (distance_at ds j),
  ==_iff (distance_at ds j) (distance_at ds i),
)

row_trans :
    (ids ds : List ℕ) (i j k : ℕ)
    → row_first ids ds i j ≡ true
    → row_first ids ds j k ≡ true
    → row_first ids ds i k ≡ true
unfolding row_first
row_trans ids ds i j k h l = ground (
  arith,
  ==_iff (distance_at ds i) (distance_at ds j),
  ==_iff (distance_at ds j) (distance_at ds k),
  ==_iff (distance_at ds i) (distance_at ds k),
)

ranked-All :
    (ids ds : List ℕ) (i : ℕ) (rows : List ℕ)
    → All (λ j. row_first ids ds i j ≡ true) rows
    → All
        (λ x. key_leb (distance_at ds i) (id_at ids i) x.distance x.id ≡ true)
        (map (neighbor ids (distance_at ds)) rows)
unfolding row_first
ranked-All ids ds i [] a = tt
ranked-All ids ds i (j ∷ rows) a = (a.0, ranked-All ids ds i rows a.1)

IsRanked-rows :
    (ids ds : List ℕ) (rows : List ℕ)
    → Ordered (row_first ids ds) rows
    → IsRanked (map (neighbor ids (distance_at ds)) rows)
IsRanked-rows ids ds [] o = tt
IsRanked-rows ids ds (i ∷ rows) o = (ranked-All ids ds i rows o.0, IsRanked-rows ids ds rows o.1)

same_hits :
    (ids ds : List ℕ) (dist : ℕ → ℕ) (rows : List ℕ)
    → ((i : ℕ) → In i rows → distance_at ds i ≡ dist i)
    → map (neighbor ids (distance_at ds)) rows ≡ map (neighbor ids dist) rows
same_hits ids ds dist [] h = refl
same_hits ids ds dist (i ∷ rows) h =
    ground (arith, h i (inl refl), same_hits ids ds dist rows (λ j m. h j (inr m)))

-- Rows that a partition puts first, sorted, are an exact answer.
pub sorted_first :
    (n : ℕ) (ids ds rows : List ℕ) (dist : ℕ → ℕ) (allowed : ℕ → Bool) (k m : ℕ)
    → IsFirst n dist allowed k rows
    → k ≡ min m (count_if allowed (range n))
    → ((i : ℕ) → i < n → allowed i ≡ true → distance_at ds i ≡ dist i)
    → IsNearest n ids dist allowed m
        (map (neighbor ids (distance_at ds)) (sort_by (row_first ids ds) rows))
sorted_first n ids ds rows dist allowed k m f e same =
    let order = sort_by (row_first ids ds) rows in
    let back = λ (i : ℕ) (at : In i (sort_by (row_first ids ds) rows)).
      In-sort_by (row_first ids ds) i rows at in
    record {
      rows = order;
      hits_are =
          same_hits ids ds dist order
            (λ i at. let (below, a) = f.admissible i (back i at) in same i below a);
      as_many = omega (arith, length-sort (row_first ids ds) rows, f.as_many, e);
      distinct = Distinct-sort (row_first ids ds) rows f.distinct;
      admissible = λ i at. f.admissible i (back i at);
      ranked =
          IsRanked-rows ids ds order
            (sort_by-Ordered (row_first ids ds) (row_total ids ds) (row_trans ids ds) rows);
      nearest = λ i j at hj aj. elim (f.nearest i j (back i at) hj aj) [
        | inl there ↦ inl (sort_by-In (row_first ids ds) j rows there)
        | inr nearer ↦ inr nearer
      ];
    }

-- The mask counts the admissible rows.
count_take :
    (flag : Bool) (n : ℕ) (mask : List Bool)
    → get_elem? mask n ≡ some flag
    → count_if (λ b. b) (take (suc n) mask)
      ≡ count_if (λ b. b) (take n mask) + (if flag then 1 else 0)
count_take flag n [] h = absurd (ground (arith, h))
count_take flag zero (b ∷ mask) h = ground (arith, h)
count_take flag (suc n) (b ∷ mask) h = ground (arith, count_take flag n mask h)

has_flag : (n : ℕ) (mask : List Bool) → n < length mask → (b : Bool) × (get_elem? mask n ≡ some b)
has_flag n [] h = absurd (omega (arith, h))
has_flag zero (b ∷ mask) h = (b, refl)
has_flag (suc n) (b ∷ mask) h = has_flag n mask (omega (arith, h))

count_prefix :
    (n : ℕ) (mask : List Bool)
    → n ≤ length mask
    → count_if (λ b. b) (take n mask) ≡ count_if (λ i. admits (some mask) i) (range n)
unfolding range admits
count_prefix zero mask h = refl
count_prefix (suc n) mask h =
    let (b, e) = has_flag n mask h in
    let before = count_prefix n mask (omega (arith, h)) in
    ground (
      arith,
      e,
      before,
      count_take b n mask e,
      count_if-append (λ i. admits (some mask) i) (range n) (n ∷ []),
    )

take_all : (mask : List Bool) → take (length mask) mask ≡ mask
take_all [] = refl
take_all (b ∷ mask) = ap (◌∷◌ b) (take_all mask)

pub count_mask :
    (mask : List Bool)
    → count_if (λ b. b) mask ≡ count_if (λ i. admits (some mask) i) (range (length mask))
count_mask mask =
    subst (λ l. count_if (λ b. b) l ≡ count_if (λ i. admits (some mask) i) (range (length mask)))
      (take_all mask) (count_prefix (length mask) mask (omega arith))

pub length-where :
    (inf : ℕ) (mask : List Bool) (ds : List ℕ)
    → length mask ≡ length ds
    → length (where_admissible inf mask ds) ≡ length ds
unfolding where_admissible
length-where inf [] ds h = omega (arith, h)
length-where inf (b ∷ mask) [] h = refl
length-where inf (b ∷ mask) (d ∷ ds) h = omega (arith, length-where inf mask ds (omega (arith, h)))

pub at-where :
    (inf i : ℕ) (mask : List Bool) (ds : List ℕ)
    → length mask ≡ length ds
    → i < length ds
    → distance_at (where_admissible inf mask ds) i
      ≡ (if admits (some mask) i then distance_at ds i else inf)
unfolding where_admissible admits
at-where inf i [] ds h l = absurd (omega (arith, h, l))
at-where inf i (b ∷ mask) [] h l = absurd (omega (arith, l))
at-where inf zero (b ∷ mask) (d ∷ ds) h l = refl
at-where inf (suc i) (b ∷ mask) (d ∷ ds) h l =
    at-where inf i mask ds (omega (arith, h)) (omega (arith, l))
