-- ===== src/Index/Hnsw/Neighbours.antt =====
-- index/hnsw.py, `_select_neighbours`: the nodes that a node is linked to.
use cite_delta_rag.Prelude.{
  ℕ, ◌≤◌, ◌≡◌, ◌⊎◌, refl, sym, subst, ◌∙◌, Bool, true, false, ◌&&◌, ◌||◌, List, [], ◌∷◌, ◌++◌, inl,
  inr, arith, leb, ltb, ==_iff, ◌==◌, nat_eq, if◌then◌else◌, length, length-append, elem,
  elem-append, Distinct, Distinct-append_one, Bool-cases, All, All-In, In→elem,
}
use cite_delta_rag.Prelude.Sorting.{sort_by}
use cite_delta_rag.Index.Hnsw.Layer.{comes_before}
use cite_delta_rag.Index.Hnsw.Layer.Kept.{nodes}
use cite_delta_rag.Index.Hnsw.Ranking.{Distinct-sort_by, elem-nodes-sort_by}

module _ (between : ℕ → ℕ → ℕ) where
  -- `np.all(to_kept >= distance)`, true of no kept node.
  unfoldable pub is_diverse : ℕ → ℕ → List ℕ → Bool
  is_diverse candidate distance [] = true
  is_diverse candidate distance (n ∷ kept) =
      leb distance (between n candidate) && is_diverse candidate distance kept

  -- The first loop: a candidate is kept if it is nearer to the base than to every node kept so far.
  unfoldable pub keep_diverse : ℕ → List ℕ → List (ℕ × ℕ) → List ℕ
  unfolding is_diverse
  keep_diverse m kept [] = kept
  keep_diverse m kept ((distance, candidate) ∷ rest) =
      let more = keep_diverse m (kept ++ (candidate ∷ [])) rest in
      let same = keep_diverse m kept rest in
      if leb m (length kept)
      then kept
      else (if is_diverse candidate distance kept then more else same)

  -- The second loop; `chosen` is the set of the nodes in `kept`.
  unfoldable pub backfill : ℕ → List ℕ → List (ℕ × ℕ) → List ℕ
  backfill m kept [] = kept
  backfill m kept ((distance, candidate) ∷ rest) =
      let more = backfill m (kept ++ (candidate ∷ [])) rest in
      let same = backfill m kept rest in
      if leb m (length kept) then kept else (if elem candidate kept then same else more)

  unfoldable pub select_neighbours : List (ℕ × ℕ) → ℕ → List ℕ
  unfolding keep_diverse backfill
  select_neighbours candidates m =
      let sorted = sort_by comes_before candidates in
      let kept = keep_diverse m [] sorted in
      if ltb (length kept) m then backfill m kept sorted else kept

  -- What both loops keep of the nodes so far, and add from the rest.
  pub record IsPick (m : ℕ) (kept : List ℕ) (rest : List (ℕ × ℕ)) (out : List ℕ) : Type 0 where
    pub distinct : Distinct kept → Distinct out
    pub few : length kept ≤ m → length out ≤ m
    pub among : (n : ℕ) → elem n out ≡ true → (elem n kept || elem n (nodes rest)) ≡ true
    pub grows : (n : ℕ) → elem n kept ≡ true → elem n out ≡ true

  -- Candidates that are not kept yet, each once.
  abbrev ApartFrom : List ℕ → List (ℕ × ℕ) → Type 0
  ApartFrom kept rest = (n : ℕ) → elem n (nodes rest) ≡ true → elem n kept ≡ false

  stop-IsPick : (m : ℕ) (kept : List ℕ) (rest : List (ℕ × ℕ)) → IsPick m kept rest kept
  stop-IsPick m kept rest = record {
    distinct = λ h. h;
    few = λ h. h;
    among = λ n h. ground (arith, h);
    grows = λ n h. h;
  }

  skip-IsPick :
      (m d c : ℕ) (kept : List ℕ) (rest : List (ℕ × ℕ)) (out : List ℕ)
      → IsPick m kept rest out
      → IsPick m kept ((d, c) ∷ rest) out
  skip-IsPick m d c kept rest out p = record {
    distinct = p.distinct;
    few = p.few;
    among = λ n h. ground (arith, p.among n h);
    grows = p.grows;
  }

  add-IsPick :
      (m d c : ℕ) (kept : List ℕ) (rest : List (ℕ × ℕ)) (out : List ℕ)
      → leb m (length kept) ≡ false
      → elem c kept ≡ false
      → IsPick m (kept ++ (c ∷ [])) rest out
      → IsPick m kept ((d, c) ∷ rest) out
  add-IsPick m d c kept rest out room absent p = record {
    distinct = λ h. p.distinct (Distinct-append_one kept c h absent);
    few = λ h. p.few (ground (arith, room, length-append kept (c ∷ [])));
    among = λ n h. ground (arith, p.among n h, elem-append n kept (c ∷ []));
    grows = λ n h. p.grows n (ground (arith, h, elem-append n kept (c ∷ [])));
  }

  differs :
      (candidate n : ℕ) (rest : List (ℕ × ℕ))
      → elem candidate (nodes rest) ≡ false
      → elem n (nodes rest) ≡ true
      → (candidate == n) ≡ false
  differs candidate n rest out there = elim (Bool-cases (candidate == n)) [
    | inr e ↦ e
    | inl e ↦ absurd (
        ground
          (arith, there, subst (λ x. elem x (nodes rest) ≡ false) ((==_iff candidate n).0 e) out))
  ]

  keep_diverse-IsPick :
      (m : ℕ) (kept : List ℕ) (rest : List (ℕ × ℕ))
      → Distinct (nodes rest)
      → ApartFrom kept rest
      → IsPick m kept rest (keep_diverse m kept rest)
  unfolding keep_diverse
  keep_diverse-IsPick m kept [] d a = stop-IsPick m kept []
  keep_diverse-IsPick m kept ((distance, candidate) ∷ rest) d a =
      let more = keep_diverse-IsPick m (kept ++ (candidate ∷ [])) rest d.1 (λ n h. ground (
        arith,
        a n (ground (arith, h)),
        elem-append n kept (candidate ∷ []),
        differs candidate n rest d.0 h,
      )) in
      let same = keep_diverse-IsPick m kept rest d.1 (λ n h. a n (ground (arith, h))) in
      elim (Bool-cases (leb m (length kept))) [
        | inl e ↦ rw (e, keep_diverse) (stop-IsPick m kept ((distance, candidate) ∷ rest))
        | inr e ↦ elim (Bool-cases (is_diverse candidate distance kept)) [
          | inl f ↦
              rw (e, f, keep_diverse)
                (add-IsPick m distance candidate kept rest
                  (keep_diverse m (kept ++ (candidate ∷ [])) rest) e
                  (a candidate (ground (arith, ==_iff candidate candidate))) more)
          | inr f ↦
              rw (e, f, keep_diverse)
                (skip-IsPick m distance candidate kept rest (keep_diverse m kept rest) same)
        ]
      ]

  -- There are m nodes, or each candidate is among them.
  abbrev pub IsFull : ℕ → List (ℕ × ℕ) → List ℕ → Type 0
  IsFull m rest out = (m ≤ length out) ⊎ ((n : ℕ) → elem n (nodes rest) ≡ true → elem n out ≡ true)

  IsFull-cons :
      (m d c : ℕ) (rest : List (ℕ × ℕ)) (out : List ℕ)
      → elem c out ≡ true
      → IsFull m rest out
      → IsFull m ((d, c) ∷ rest) out
  IsFull-cons m d c rest out at (inl h) = inl h
  IsFull-cons m d c rest out at (inr h) = inr (λ n there. elim (Bool-cases (c == n)) [
    | inl e ↦ subst (λ x. elem x out ≡ true) ((==_iff c n).0 e) at
    | inr e ↦ h n (ground (arith, there, e))
  ])

  backfill-IsPick :
      (m : ℕ) (kept : List ℕ) (rest : List (ℕ × ℕ))
      → IsPick m kept rest (backfill m kept rest) × IsFull m rest (backfill m kept rest)
  unfolding backfill
  backfill-IsPick m kept [] = (stop-IsPick m kept [], inr (λ n h. absurd (ground (arith, h))))
  backfill-IsPick m kept ((distance, candidate) ∷ rest) =
      let (more, full_more) = backfill-IsPick m (kept ++ (candidate ∷ [])) rest in
      let (same, full_same) = backfill-IsPick m kept rest in
      elim (Bool-cases (leb m (length kept))) [
        | inl e ↦
            rw (e, backfill)
              (stop-IsPick m kept ((distance, candidate) ∷ rest), inl (ground (arith, e)))
        | inr e ↦ elim (Bool-cases (elem candidate kept)) [
          | inl f ↦
              rw (e, f, backfill)
                (
                  skip-IsPick m distance candidate kept rest (backfill m kept rest) same,
                  IsFull-cons m distance candidate rest (backfill m kept rest)
                      (same.grows candidate f) full_same,
                )
          | inr f ↦
              rw (e, f, backfill)
                (
                  add-IsPick m distance candidate kept rest
                      (backfill m (kept ++ (candidate ∷ [])) rest) e f more,
                  IsFull-cons m distance candidate rest (backfill m (kept ++ (candidate ∷ [])) rest)
                      (more.grows candidate (
                        ground (
                          arith,
                          elem-append candidate kept (candidate ∷ []),
                          ==_iff candidate candidate,
                        )))
                      full_more,
                )
        ]
      ]

  -- Of distinct candidates, the neighbours that are selected are distinct candidates, at most m, and m
  -- or all the candidates.
  pub select_neighbours-IsFull :
      (candidates : List (ℕ × ℕ)) (m : ℕ)
      → Distinct (nodes candidates)
      → let out = select_neighbours candidates m in
        Distinct out
        × (length out ≤ m)
        × All (λ n. elem n (nodes candidates) ≡ true) out
        × ((length out ≡ m) ⊎ All (λ n. elem n out ≡ true) (nodes candidates))
  unfolding select_neighbours
  select_neighbours-IsFull candidates m d =
      let sorted = sort_by comes_before candidates in
      let kept = keep_diverse m [] sorted in
      let first =
        keep_diverse-IsPick m [] sorted (Distinct-sort_by comes_before candidates d)
          (λ n h. refl) in
      let (second, full) = backfill-IsPick m kept sorted in
      let inside =
        λ (n : ℕ) (h : elem n (keep_diverse m [] (sort_by comes_before candidates)) ≡ true).
          sym (elem-nodes-sort_by comes_before n candidates) ∙ first.among n h in
      elim (Bool-cases (ltb (length kept) m)) [
        | inr e ↦
            rw (e, select_neighbours)
              (
                first.distinct tt,
                first.few (omega arith),
                all_of kept (λ n. elem n (nodes candidates) ≡ true) inside,
                inl (ground (arith, e, first.few (omega arith))),
              )
        | inl e ↦
            let out = backfill m kept sorted in
            rw (e, select_neighbours)
              (
                second.distinct (first.distinct tt),
                second.few (first.few (omega arith)),
                all_of out (λ n. elem n (nodes candidates) ≡ true)
                    (λ n h. ground (
                      arith,
                      second.among n h,
                      inside n,
                      elem-nodes-sort_by comes_before n candidates,
                      Bool-cases (elem n kept),
                    )),
                elim full [
                  | inl h ↦ inl (ground (arith, h, second.few (first.few (omega arith))))
                  | inr h ↦ inr (
                      all_of (nodes candidates) (λ n. elem n out ≡ true)
                        (λ n at. h n (elem-nodes-sort_by comes_before n candidates ∙ at)))
                ],
              )
      ]
    where
      all_of : (xs : List ℕ) (P : ℕ → Type 0) → ((n : ℕ) → elem n xs ≡ true → P n) → All P xs
      all_of xs P h = All-In P xs (λ n m. h n (In→elem n xs m))
