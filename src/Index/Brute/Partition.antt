-- ===== src/Index/Brute/Partition.antt =====
-- numpy's `argpartition`, as its documentation describes it, and why the first k of it are nearest.
use cite_delta_rag.Prelude.{
  ℕ, suc, ◌+◌, ◌≤◌, ◌<◌, ◌≡◌, ◌⊎◌, refl, sym, subst, ap, ◌∙◌, Bool, true, false, List, [], ◌∷◌,
  ◌++◌, inl, inr, arith, elem, ==_iff, nat_eq, ◌==◌, length, length-append, In, In-append,
  append-In, Distinct, elem→In, In→elem, Bool-cases, take,
}
use cite_delta_rag.Prelude.Counting.{
  count_if, count_if-append, count_if_lt, Rearranges, Rearranges-In, In-count_if, none-count_if,
}
use cite_delta_rag.Index.Vector.{range}
use cite_delta_rag.Index.Brute.{distance_at}
use cite_delta_rag.Index.Hnsw.Layer.Fuel.{In-range, range-In}
use cite_delta_rag.Index.Hnsw.Ranking.{range-Distinct}

-- `argpartition(distances, kth)`: a rearrangement of the rows in which the one at `kth` has no farther
-- row before it and no nearer one behind it.
pub record IsPartition (distances : List ℕ) (kth : ℕ) (rows : List ℕ) : Type 0 where
  pub front : List ℕ
  pub pivot : ℕ
  pub back : List ℕ
  pub splits : rows ≡ front ++ (pivot ∷ back)
  pub place : length front ≡ kth
  pub rearranges : Rearranges rows (range (length distances))
  pub before : (i : ℕ) → In i front → distance_at distances i ≤ distance_at distances pivot
  pub after : (j : ℕ) → In j back → distance_at distances pivot ≤ distance_at distances j

take-front :
    (front : List ℕ) (p : ℕ) (back : List ℕ)
    → take (suc (length front)) (front ++ (p ∷ back)) ≡ front ++ (p ∷ [])
take-front [] p back = refl
take-front (x ∷ xs) p back = ap (◌∷◌ x) (take-front xs p back)

Distinct-once : (xs : List ℕ) → ((a : ℕ) → count_if (λ x. x == a) xs ≤ 1) → Distinct xs
Distinct-once [] h = tt
Distinct-once (x ∷ xs) h = (
  ground (
    arith,
    Bool-cases (elem x xs),
    h x,
    ==_iff x x,
    elem→In x xs,
    In-count_if (λ y. y == x) xs x,
  ),
  Distinct-once xs (λ a. ground (arith, h a)),
)

not_again :
    (x a b : ℕ) (xs : List ℕ) → (x == a) ≡ true → elem x xs ≡ false → In b xs → (b == a) ≡ false
not_again x a b xs e out m = elim (Bool-cases (b == a)) [
  | inr h ↦ h
  | inl h ↦
      let same = (==_iff b a).0 h ∙ sym ((==_iff x a).0 e) in
      absurd (ground (arith, out, In→elem x xs (subst (λ z. In z xs) same m)))
]

once-Distinct : (xs : List ℕ) (a : ℕ) → Distinct xs → count_if (λ x. x == a) xs ≤ 1
once-Distinct [] a d = omega arith
once-Distinct (x ∷ xs) a d = elim (Bool-cases (x == a)) [
  | inl e ↦ ground (arith, e, none-count_if (λ y. y == a) xs (λ b m. not_again x a b xs e d.0 m))
  | inr e ↦ ground (arith, e, once-Distinct xs a d.1)
]

split-cons :
    (front : List ℕ) (p : ℕ) (back : List ℕ) (test : ℕ → Bool)
    → count_if test (front ++ (p ∷ back)) ≡ count_if test (front ++ (p ∷ [])) + count_if test back
split-cons front p back test =
    ground (arith, count_if-append test front (p ∷ back), count_if-append test front (p ∷ []))

In-cand :
    (front : List ℕ) (p : ℕ) (back : List ℕ) (i : ℕ)
    → In i (front ++ (p ∷ back))
    → In i (front ++ (p ∷ [])) ⊎ In i back
In-cand front p back i m = elim (In-append front (p ∷ back) i m) [
  | inl f ↦ inl (append-In front (p ∷ []) i (inl f))
  | inr (inl e) ↦ inl (append-In front (p ∷ []) i (inr (inl e)))
  | inr (inr b) ↦ inr b
]

cand-In :
    (front : List ℕ) (p : ℕ) (back : List ℕ) (i : ℕ)
    → In i (front ++ (p ∷ []))
    → In i (front ++ (p ∷ back))
cand-In front p back i m = elim (In-append front (p ∷ []) i m) [
  | inl f ↦ append-In front (p ∷ back) i (inl f)
  | inr (inl e) ↦ append-In front (p ∷ back) i (inr (inl e))
  | inr (inr b) ↦ absurd b
]

-- The first rows of a partition whose inadmissible rows stand at infinity.
pub record IsFirst (n : ℕ) (dist : ℕ → ℕ) (allowed : ℕ → Bool) (k : ℕ) (rows : List ℕ)
    : Type 0 where
  pub as_many : length rows ≡ k
  pub distinct : Distinct rows
  pub admissible : (i : ℕ) → In i rows → (i < n) × (allowed i ≡ true)
  pub nearest : (i j : ℕ) → In i rows → j < n → allowed j ≡ true → In j rows ⊎ (dist i ≤ dist j)

module _ (distances : List ℕ) (dist : ℕ → ℕ) (allowed : ℕ → Bool) (inf kth : ℕ) (rows : List ℕ)
    (p : IsPartition distances kth rows)
    (masked : (i : ℕ) → i < length distances → allowed i ≡ false → distance_at distances i ≡ inf)
    (finite : (i : ℕ)
      → i < length distances
      → allowed i ≡ true
      → (distance_at distances i ≡ dist i) × (dist i < inf))
    (enough : kth < count_if allowed (range (length distances))) where
  cand : List ℕ
  cand = p.front ++ (p.pivot ∷ [])

  taken : take (suc kth) rows ≡ p.front ++ (p.pivot ∷ [])
  taken = rw (p.splits, sym p.place) (take-front p.front p.pivot p.back)

  inside : (i : ℕ) → In i (p.front ++ (p.pivot ∷ p.back)) → i < length distances
  inside i m = In-range (length distances) i (
      Rearranges-In rows (range (length distances)) i p.rearranges
        (subst (λ l. In i l) (sym p.splits) m))

  -- A candidate is not farther than a row behind the pivot.
  no_farther :
      (i j : ℕ)
      → In i (p.front ++ (p.pivot ∷ []))
      → In j p.back
      → distance_at distances i ≤ distance_at distances j
  no_farther i j mi mj = elim (In-append p.front (p.pivot ∷ []) i mi) [
    | inl f ↦ omega (arith, p.before i f, p.after j mj)
    | inr (inl e) ↦
        subst (λ x. distance_at distances x ≤ distance_at distances j) (sym e) (p.after j mj)
    | inr (inr b) ↦ absurd b
  ]

  counted :
      (test : ℕ → Bool)
      → count_if test (p.front ++ (p.pivot ∷ [])) + count_if test p.back
        ≡ count_if test (range (length distances))
  counted test = omega (
    arith,
    split-cons p.front p.pivot p.back test,
    p.rearranges test,
    ap (λ l. count_if test l) p.splits,
  )

  all_admissible : (i : ℕ) → In i (p.front ++ (p.pivot ∷ [])) → allowed i ≡ true
  all_admissible i m = elim (Bool-cases (allowed i)) [
    | inl a ↦ a
    | inr out ↦ absurd (
        omega (
          arith,
          enough,
          counted allowed,
          p.place,
          length-append p.front (p.pivot ∷ []),
          count_if_lt allowed (p.front ++ (p.pivot ∷ [])) i m out,
          none-count_if allowed p.back (λ j mj. beyond i j m out mj),
        ))
  ]
    where
      beyond :
          (i j : ℕ)
          → In i (p.front ++ (p.pivot ∷ []))
          → allowed i ≡ false
          → In j p.back
          → allowed j ≡ false
      beyond i j mi out mj =
          let here = inside i (cand-In p.front p.pivot p.back i mi) in
          let there = inside j (append-In p.front (p.pivot ∷ p.back) j (inr (inr mj))) in
          ground
            (arith, Bool-cases (allowed j), masked i here out, finite j there, no_farther i j mi mj)

  pub IsFirst-rows : IsFirst (length distances) dist allowed (suc kth) (take (suc kth) rows)
  IsFirst-rows =
      subst (λ l. IsFirst (length distances) dist allowed (suc kth) l) (sym taken)
        (record {
          as_many = omega (arith, length-append p.front (p.pivot ∷ []), p.place);
          distinct = Distinct-once (p.front ++ (p.pivot ∷ [])) (λ a. omega (
            arith,
            counted (λ x. x == a),
            once-Distinct (range (length distances)) a (range-Distinct (length distances)),
          ));
          admissible = λ i m. (inside i (cand-In p.front p.pivot p.back i m), all_admissible i m);
          nearest = λ i j mi hj aj.
              elim (In-cand p.front p.pivot p.back j (
                subst (λ l. In j l) p.splits
                  (Rearranges-In (range (length distances)) rows j (λ t. sym (p.rearranges t))
                    (range-In (length distances) j hj)))) [
                      | inl at ↦ inl at
                      | inr behind ↦ inr (
                          ground (
                            arith,
                            no_farther i j mi behind,
                            finite i (inside i (cand-In p.front p.pivot p.back i mi))
                                (all_admissible i mi),
                            finite j hj aj,
                          ))
                    ];
        })
