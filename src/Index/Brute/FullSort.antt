-- ===== src/Index/Brute/FullSort.antt =====
-- A full sort, which does what numpy's `argpartition` promises.
use cite_delta_rag.Prelude.{
  ℕ, zero, suc, ◌≤◌, ◌<◌, ◌≡◌, refl, sym, subst, ap, Bool, true, List, [], ◌∷◌, ◌++◌, inl, inr,
  arith, length, In, In-All, leb,
}
use cite_delta_rag.Prelude.Sorting.{sort_by, insert_by, Ordered, sort_by-Ordered}
use cite_delta_rag.Prelude.Counting.{count_if, count_if_all, Rearranges}
use cite_delta_rag.Index.Vector.{range}
use cite_delta_rag.Index.Brute.{distance_at}
use cite_delta_rag.Index.Brute.Partition.{IsPartition}
use cite_delta_rag.Index.Hnsw.Layer.Fuel.{length-range}

abbrev nearer : List ℕ → ℕ → ℕ → Bool
nearer distances i j = leb (distance_at distances i) (distance_at distances j)

abbrev pub argsort : List ℕ → ℕ → List ℕ
argsort distances kth = sort_by (nearer distances) (range (length distances))

count_if-insert_by :
    (first : ℕ → ℕ → Bool) (p : ℕ → Bool) (a : ℕ) (xs : List ℕ)
    → count_if p (insert_by first a xs) ≡ count_if p (a ∷ xs)
unfolding insert_by
count_if-insert_by first p a [] = refl
count_if-insert_by first p a (x ∷ xs) = ground (arith, count_if-insert_by first p a xs)

pub sort_by-Rearranges : (first : ℕ → ℕ → Bool) (xs : List ℕ) → Rearranges (sort_by first xs) xs
unfolding sort_by
sort_by-Rearranges first [] p = refl
sort_by-Rearranges first (x ∷ xs) p =
    ground (arith, count_if-insert_by first p x (sort_by first xs), sort_by-Rearranges first xs p)

-- A place in an ordered list.
record IsSplit (distances rows : List ℕ) (kth : ℕ) : Type 0 where
  front : List ℕ
  pivot : ℕ
  back : List ℕ
  splits : rows ≡ front ++ (pivot ∷ back)
  place : length front ≡ kth
  before : (i : ℕ) → In i front → distance_at distances i ≤ distance_at distances pivot
  after : (j : ℕ) → In j back → distance_at distances pivot ≤ distance_at distances j

in_order :
    (distances : List ℕ) (i j : ℕ)
    → nearer distances i j ≡ true
    → distance_at distances i ≤ distance_at distances j
in_order distances i j h = ground (arith, h)

pivot-In : (xs : List ℕ) (p : ℕ) (ys : List ℕ) → In p (xs ++ (p ∷ ys))
pivot-In [] p ys = inl refl
pivot-In (x ∷ xs) p ys = inr (pivot-In xs p ys)

IsSplit-Ordered :
    (distances rows : List ℕ) (kth : ℕ)
    → Ordered (nearer distances) rows
    → kth < length rows
    → IsSplit distances rows kth
IsSplit-Ordered distances [] kth o h = absurd (omega (arith, h))
IsSplit-Ordered distances (r ∷ rows) zero o h = record {
  front = [];
  pivot = r;
  back = rows;
  splits = refl;
  place = refl;
  before = λ i m. absurd m;
  after = λ j m. in_order distances r j (In-All (λ x. nearer distances r x ≡ true) rows j o.0 m);
}
IsSplit-Ordered distances (r ∷ rows) (suc kth) o h =
    let s = IsSplit-Ordered distances rows kth o.1 (omega (arith, h)) in
    record {
      front = r ∷ s.front;
      pivot = s.pivot;
      back = s.back;
      splits = ap (◌∷◌ r) s.splits;
      place = omega (arith, s.place);
      before = λ i m. elim m [
        | inl e ↦
            subst (λ x. distance_at distances x ≤ distance_at distances s.pivot) (sym e)
              (in_order distances r s.pivot (
                In-All (λ x. nearer distances r x ≡ true) rows s.pivot o.0
                  (subst (λ l. In s.pivot l) (sym s.splits) (pivot-In s.front s.pivot s.back))))
        | inr at ↦ s.before i at
      ];
      after = s.after;
    }

pub argsort-IsPartition :
    (distances : List ℕ) (kth : ℕ)
    → kth < length distances
    → IsPartition distances kth (argsort distances kth)
argsort-IsPartition distances kth h =
    let same = sort_by-Rearranges (nearer distances) (range (length distances)) in
    let s =
      IsSplit-Ordered distances (argsort distances kth) kth
        (sort_by-Ordered (nearer distances) (λ a b e. ground (arith, e))
          (λ a b c e f. ground (arith, e, f)) (range (length distances)))
        (omega (
          arith,
          h,
          length-range (length distances),
          same (λ x. true),
          count_if_all (range (length distances)),
          count_if_all (argsort distances kth),
        )) in
    record {
      front = s.front;
      pivot = s.pivot;
      back = s.back;
      splits = s.splits;
      place = s.place;
      rearranges = same;
      before = s.before;
      after = s.after;
    }
