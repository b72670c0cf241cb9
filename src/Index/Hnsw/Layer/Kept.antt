-- ===== src/Index/Hnsw/Layer/Kept.antt =====
-- What each round of `_search_layer` keeps: where the results come from, and that none that was left
-- out is nearer.
use cite_delta_rag.Prelude.{
  ℕ, suc, ◌≤◌, ◌≡◌, ◌⊎◌, refl, sym, subst, Bool, true, false, ◌||◌, List, [], ◌∷◌, map, inl, inr,
  arith, elem, ==_iff, nat_eq, ◌==◌, length, drop, In, Distinct, Bool-cases, ltb, ltb→lt, ◌-◌,
  In-All,
}
use cite_delta_rag.Prelude.Sorting.{insert_by, In-insert_by, Ordered, insert_by-Ordered}
use cite_delta_rag.Index.Hnsw.Layer.{is_promising, trim, is_worse}
use cite_delta_rag.Index.Hnsw.Layer.Fuel.{length-insert_by}

abbrev pub nodes : List (ℕ × ℕ) → List ℕ
nodes = map (λ p. p.1)

-- Farthest first.
abbrev pub IsHeap : List (ℕ × ℕ) → Type 0
IsHeap = Ordered is_worse

is_worse_total : (a b : ℕ × ℕ) → is_worse a b ≡ false → is_worse b a ≡ true
unfolding is_worse
is_worse_total (d, i) (e, j) h = ground (arith, ==_iff d e, ==_iff e d)

is_worse_trans : (a b c : ℕ × ℕ) → is_worse a b ≡ true → is_worse b c ≡ true → is_worse a c ≡ true
unfolding is_worse
is_worse_trans (d, i) (e, j) (f, k) h l = ground (arith, ==_iff d e, ==_iff e f, ==_iff d f)

pub push-IsHeap : (p : ℕ × ℕ) (rs : List (ℕ × ℕ)) → IsHeap rs → IsHeap (insert_by is_worse p rs)
push-IsHeap p rs h = insert_by-Ordered is_worse is_worse_total is_worse_trans p rs h

pub trim-IsHeap : (ef : ℕ) (rs : List (ℕ × ℕ)) → IsHeap rs → IsHeap (trim ef rs)
unfolding trim
trim-IsHeap ef [] h = ground arith
trim-IsHeap ef (r ∷ rs) h = ground (arith, h.1)

pub trim-In : (ef : ℕ) (p : ℕ × ℕ) (rs : List (ℕ × ℕ)) → In p (trim ef rs) → In p rs
unfolding trim
trim-In ef p [] m = ground arith
trim-In ef p (r ∷ rs) m = ground arith

-- The nodes of the results, whatever their order.
pub elem-nodes-insert_by :
    (first : ℕ × ℕ → ℕ × ℕ → Bool) (p : ℕ × ℕ) (rs : List (ℕ × ℕ)) (n : ℕ)
    → elem n (nodes (insert_by first p rs)) ≡ ((p.1 == n) || elem n (nodes rs))
unfolding insert_by
elem-nodes-insert_by first p [] n = ground arith
elem-nodes-insert_by first p (r ∷ rs) n = ground (arith, elem-nodes-insert_by first p rs n)

pub Distinct-insert_by :
    (first : ℕ × ℕ → ℕ × ℕ → Bool) (p : ℕ × ℕ) (rs : List (ℕ × ℕ))
    → elem p.1 (nodes rs) ≡ false
    → Distinct (nodes rs)
    → Distinct (nodes (insert_by first p rs))
unfolding insert_by
Distinct-insert_by first p [] e d = ground arith
Distinct-insert_by first p (r ∷ rs) e d = ground (
  arith,
  Distinct-insert_by first p rs,
  elem-nodes-insert_by first p rs r.1,
  ==_iff r.1 p.1,
  ==_iff p.1 r.1,
  d,
)

pub trim-Distinct :
    (ef : ℕ) (rs : List (ℕ × ℕ)) → Distinct (nodes rs) → Distinct (nodes (trim ef rs))
unfolding trim
trim-Distinct ef [] d = ground arith
trim-Distinct ef (r ∷ rs) d = ground (arith, d.1)

-- There are `ef` results, none farther than `d`.
abbrev pub Beaten : ℕ → List (ℕ × ℕ) → ℕ → Type 0
Beaten ef rs d = (ef ≤ length rs) × ((q : ℕ × ℕ) → In q rs → q.0 ≤ d)

head_farthest :
    (w i : ℕ) (rs : List (ℕ × ℕ))
    → IsHeap ((w, i) ∷ rs)
    → (q : ℕ × ℕ) → In q ((w, i) ∷ rs)
    → q.0 ≤ w
unfolding is_worse
head_farthest w i rs h q (inl e) = ground (arith, e)
head_farthest w i rs h (d, n) (inr m) =
    ground (arith, In-All (λ x. is_worse (w, i) x ≡ true) rs (d, n) h.0 m, ==_iff w d)

pub trim-In_or_Beaten :
    (ef : ℕ) (p : ℕ × ℕ) (rs : List (ℕ × ℕ))
    → IsHeap rs
    → In p rs
    → In p (trim ef rs) ⊎ Beaten ef (trim ef rs) p.0
unfolding trim
trim-In_or_Beaten ef p [] h m = absurd m
trim-In_or_Beaten ef p ((w, i) ∷ rs) h m = elim (Bool-cases (ltb ef (suc (length rs)))) [
  | inl e ↦
      rw (e, trim)
        (elim m [
          | inl same ↦ inr (
            omega (arith, ltb→lt ef (suc (length rs)) e),
            λ q at. subst (λ x. q.0 ≤ x.0) (sym same) (head_farthest w i rs h q (inr at)),
          )
          | inr later ↦ inl later
        ])
  | inr e ↦ rw (e, trim) (inl m)
]

pub Beaten-trim : (ef : ℕ) (rs : List (ℕ × ℕ)) (d : ℕ) → Beaten ef rs d → Beaten ef (trim ef rs) d
unfolding trim
Beaten-trim ef [] d b = ground arith
Beaten-trim ef (r ∷ rs) d b = elim (Bool-cases (ltb ef (suc (length rs)))) [
  | inl e ↦ rw (e, trim) (omega (arith, ltb→lt ef (suc (length rs)) e), λ q m. b.1 q (inr m))
  | inr e ↦ rw (e, trim) b
]

pub unpromising-Beaten :
    (ef : ℕ) (rs : List (ℕ × ℕ)) (d : ℕ) → IsHeap rs → is_promising ef rs d ≡ false → Beaten ef rs d
unfolding is_promising
unpromising-Beaten ef [] d h e = (ground (arith, e), λ q m. absurd m)
unpromising-Beaten ef ((w, i) ∷ rs) d h e =
    (ground (arith, e), λ q m. ground (arith, e, head_farthest w i rs h q m))

pub promising_push-Beaten :
    (ef d n e : ℕ) (rs : List (ℕ × ℕ))
    → is_promising ef rs d ≡ true
    → Beaten ef rs e
    → Beaten ef (insert_by is_worse (d, n) rs) e
unfolding is_promising
promising_push-Beaten ef d n e rs h b = (
  omega (arith, length-insert_by is_worse (d, n) rs, b.0),
  λ q m. elim (In-insert_by is_worse (d, n) q rs m) [
    | inl same ↦ subst (λ x. x.0 ≤ e) (sym same) (nearer rs h b)
    | inr old ↦ b.1 q old
  ],
)
  where
    nearer : (rs : List (ℕ × ℕ)) → is_promising ef rs d ≡ true → Beaten ef rs e → d ≤ e
    nearer [] h b = absurd (ground (arith, h, b.0))
    nearer ((w, i) ∷ rs) h b = ground (arith, h, b.0, b.1 (w, i) (inl refl))

pub length-trim :
    (ef bound : ℕ) (p : ℕ × ℕ) (rs : List (ℕ × ℕ))
    → ef ≤ bound
    → length rs ≤ bound
    → length (trim ef (insert_by is_worse p rs)) ≤ bound
unfolding trim
length-trim ef bound p rs h l =
    ground (arith, length-insert_by is_worse p rs, length-drop (insert_by is_worse p rs))
  where
    length-drop : (xs : List (ℕ × ℕ)) → length (drop 1 xs) ≡ length xs - 1
    length-drop [] = omega arith
    length-drop (x ∷ xs) = omega arith
