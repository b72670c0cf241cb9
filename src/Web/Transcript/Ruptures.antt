-- ===== src/Web/Transcript/Ruptures.antt =====
-- Where ruptures stand, and what they count.
use cite_delta_rag.Prelude.{
  ℕ, suc, ◌+◌, ◌≤◌, ◌<◌, ◌≡◌, ◌≢◌, ◌⊎◌, refl, ap, sym, inl, inr, ◌&&◌, Option, none, some, List, [],
  ◌∷◌, arith, All, ltb, leb, ◌==◌, ==_iff, nat_eq, if◌then◌else◌, Bool-cases, min, max,
}
use cite_delta_rag.Prelude.Int.{pos}
use cite_delta_rag.Web.Transcript.{
  TurnView, Entry, turn, ruptured, bisect_left, bisect_right, amendments_between, mark,
  transcript_loop, build_transcript,
}

abbrev pub turns_of : List Entry → List TurnView
turns_of [] = []
turns_of (turn t ∷ es) = t ∷ turns_of es
turns_of (ruptured r ∷ es) = turns_of es

-- After the date `previous`: a turn keeps the date, and a rupture changes it and tells how.
abbrev pub IsMarked : List ℕ → Option ℕ → List Entry → Type 0
IsMarked dates previous [] = Unit {0}
IsMarked dates previous (turn t ∷ es) =
    ((previous ≡ none) ⊎ (previous ≡ some t.as_of)) × IsMarked dates (some t.as_of) es
IsMarked dates previous (ruptured r ∷ es) =
    ((p : ℕ) × (previous ≡ some p)
      × (p ≢ r.as_of)
      × (r.earlier ≡ ltb r.as_of p)
      × (r.amendments_between ≡ amendments_between p r.as_of dates))
    × IsMarked dates (some r.as_of) es

loop-IsMarked :
    (dates : List ℕ) (previous : Option ℕ) (ts : List TurnView)
    → (turns_of (transcript_loop dates previous ts) ≡ ts)
      × IsMarked dates previous (transcript_loop dates previous ts)
unfolding transcript_loop mark
loop-IsMarked dates previous [] = (refl, tt)
loop-IsMarked dates none (t ∷ ts) =
    let (same, marked) = loop-IsMarked dates (some t.as_of) ts in
    (ap (◌∷◌ t) same, (inl refl, marked))
loop-IsMarked dates (some p) (t ∷ ts) =
    let (same, marked) = loop-IsMarked dates (some t.as_of) ts in
    elim (Bool-cases (t.as_of == p)) [
      | inl e ↦ rw e (ap (◌∷◌ t) same, (inr (ap some (sym ((==_iff t.as_of p).0 e))), marked))
      | inr e ↦ rw e (
        ap (◌∷◌ t) same,
        ((p, refl, (λ h. absurd (ground (arith, e, h))), refl, refl), (inr refl, marked)),
      )
    ]

-- The transcript has the turns in their order, no turn changes the date of the one before it without
-- a rupture between, and a rupture stands only where the date changes, with the direction of the
-- change and the amendments between the two dates.
pub transcript-IsMarked :
    (turns : List TurnView) (dates : List ℕ)
    → (turns_of (build_transcript turns dates) ≡ turns)
      × IsMarked dates none (build_transcript turns dates)
unfolding build_transcript
transcript-IsMarked turns dates = loop-IsMarked dates none turns

abbrev pub Ascending : List ℕ → Type 0
Ascending [] = Unit {0}
Ascending (d ∷ ds) = All (λ e. d ≤ e) ds × Ascending ds

-- The dates strictly between two.
abbrev pub count_between : ℕ → ℕ → List ℕ → ℕ
count_between lo hi [] = 0
count_between lo hi (d ∷ ds) =
    let rest = count_between lo hi ds in if ltb lo d && ltb d hi then suc rest else rest

bisect_left_zero : (x : ℕ) (ds : List ℕ) → All (λ e. x ≤ e) ds → bisect_left ds x ≡ 0
unfolding bisect_left
bisect_left_zero x [] h = refl
bisect_left_zero x (d ∷ ds) h = ground (arith, h.0)

count_between_zero : (lo hi : ℕ) (ds : List ℕ) → All (λ e. hi ≤ e) ds → count_between lo hi ds ≡ 0
count_between_zero lo hi [] h = refl
count_between_zero lo hi (d ∷ ds) h = ground (arith, h.0, count_between_zero lo hi ds h.1)

All-le : (a b : ℕ) (ds : List ℕ) → a ≤ b → All (λ e. b ≤ e) ds → All (λ e. a ≤ e) ds
All-le a b [] h k = tt
All-le a b (d ∷ ds) h k = (omega (arith, h, k.0), All-le a b ds h k.1)

bisect_right_zero : (x : ℕ) (ds : List ℕ) → All (λ e. x < e) ds → bisect_right ds x ≡ 0
unfolding bisect_right
bisect_right_zero x [] h = refl
bisect_right_zero x (d ∷ ds) h = ground (arith, h.0)

All-lt : (a b : ℕ) (ds : List ℕ) → a < b → All (λ e. b ≤ e) ds → All (λ e. a < e) ds
All-lt a b [] h k = tt
All-lt a b (d ∷ ds) h k = (omega (arith, h, k.0), All-lt a b ds h k.1)

bisect_counts :
    (lo hi : ℕ) (ds : List ℕ)
    → lo < hi
    → Ascending ds
    → bisect_left ds hi ≡ bisect_right ds lo + count_between lo hi ds
unfolding bisect_left bisect_right
bisect_counts lo hi [] h s = refl
bisect_counts lo hi (d ∷ ds) h s = elim (Bool-cases (ltb d hi)) [
  | inr e ↦
      ground (arith, e, count_between_zero lo hi ds (All-le hi d ds (ground (arith, e)) s.0), h)
  | inl e ↦ elim (Bool-cases (leb d lo)) [
    | inl f ↦ ground (arith, e, f, bisect_counts lo hi ds h s.1)
    | inr f ↦ ground (
      arith,
      e,
      f,
      bisect_counts lo hi ds h s.1,
      bisect_right_zero lo ds (All-lt lo d ds (ground (arith, f)) s.0),
    )
  ]
]

-- Between two different dates, in either order, `amendments_between` counts the amendments strictly
-- between them, if their dates are sorted.
pub amendments_between_counts :
    (a b : ℕ) (dates : List ℕ)
    → Ascending dates
    → a ≢ b
    → amendments_between a b dates ≡ pos (count_between (min a b) (max a b) dates)
unfolding amendments_between
amendments_between_counts a b dates s h = elim (Bool-cases (leb a b)) [
  | inl e ↦
      let lt : a < b = ground (arith, e, h) in
      let counts = bisect_counts a b dates lt s in ground (arith, e, counts, lt)
  | inr e ↦
      let lt : b < a = ground (arith, e) in
      let counts = bisect_counts b a dates lt s in ground (arith, e, counts, lt)
]
