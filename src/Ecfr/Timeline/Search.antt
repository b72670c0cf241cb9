-- ===== src/Ecfr/Timeline/Search.antt =====
-- The search among the intervals that were closed from sorted versions.
use cite_delta_rag.Prelude.{
  ℕ, ◌≤◌, ◌<◌, ◌≡◌, refl, ◌⊎◌, inl, inr, true, String, Option, none, some, List, [], ◌∷◌, arith,
  tests, ltb, ltb→lt, ap, Bool-cases, All, In, In-All,
}
use native.Mathlib.Nat.{le_refl}
use cite_delta_rag.Ecfr.Models.{VersionRecord, SectionInterval, contains}
use cite_delta_rag.Ecfr.Timeline.{insert_version, sort_versions, close, find_covering}

abbrev pub Ascending : List VersionRecord → Type 0
Ascending [] = Unit {0}
Ascending (r ∷ rs) = All (λ x. r.effective_from ≤ x.effective_from) rs × Ascending rs

All-insert :
    (P : VersionRecord → Type 0) (r : VersionRecord) (rs : List VersionRecord)
    → P r
    → All P rs
    → All P (insert_version r rs)
unfolding insert_version
All-insert P r [] h hs = (h, tt)
All-insert P r (x ∷ xs) h hs = ground (arith, All-insert P r xs h hs.1)

All-le_trans :
    (m n : ℕ) (rs : List VersionRecord)
    → m ≤ n
    → All (λ x. n ≤ x.effective_from) rs
    → All (λ x. m ≤ x.effective_from) rs
All-le_trans m n [] h hs = tt
All-le_trans m n (x ∷ xs) h hs = (omega arith, All-le_trans m n xs h hs.1)

insert-Ascending :
    (r : VersionRecord) (rs : List VersionRecord) → Ascending rs → Ascending (insert_version r rs)
unfolding insert_version
insert-Ascending r [] h = (tt, tt)
insert-Ascending r (x ∷ xs) h = ground (
  arith,
  insert-Ascending r xs h.1,
  λ (le : x.effective_from ≤ r.effective_from).
      All-insert (λ z. x.effective_from ≤ z.effective_from) r xs le h.0,
  All-le_trans r.effective_from x.effective_from xs,
)

pub sort-Ascending : (rs : List VersionRecord) → Ascending (sort_versions rs)
unfolding sort_versions
sort-Ascending [] = tt
sort-Ascending (r ∷ rs) = insert-Ascending r (sort_versions rs) (sort-Ascending rs)

In-insert :
    (r x : VersionRecord) (rs : List VersionRecord) → In x (insert_version r rs) → (x ≡ r) ⊎ In x rs
unfolding insert_version
In-insert r x [] m = m
In-insert r x (y ∷ ys) m = ground (arith, In-insert r x ys)

insert-In :
    (r x : VersionRecord) (rs : List VersionRecord) → (x ≡ r) ⊎ In x rs → In x (insert_version r rs)
unfolding insert_version
insert-In r x [] m = m
insert-In r x (y ∷ ys) m = ground (arith, insert-In r x ys)

pub In-sort : (x : VersionRecord) (rs : List VersionRecord) → In x (sort_versions rs) → In x rs
unfolding sort_versions
In-sort x [] m = m
In-sort x (r ∷ rs) m = ground (arith, In-insert r x (sort_versions rs), In-sort x rs)

pub sort-In : (x : VersionRecord) (rs : List VersionRecord) → In x rs → In x (sort_versions rs)
unfolding sort_versions
sort-In x [] m = m
sort-In x (r ∷ rs) m = ground (arith, insert-In r x (sort_versions rs), sort-In x rs)

-- The latest version at `day`: it has begun, and none that begins later has.
abbrev pub Latest : ℕ → List VersionRecord → VersionRecord → Type 0
Latest day rs r =
    In r rs
    × (r.effective_from ≤ day)
    × ((x : VersionRecord) → In x rs → x.effective_from ≤ day → x.effective_from ≤ r.effective_from)

abbrev pub MadeFrom : VersionRecord → SectionInterval → Type 0
MadeFrom r iv =
    (iv.effective_from ≡ r.effective_from)
    × (iv.issue_date ≡ r.issue_date)
    × (iv.removed ≡ r.removed)

abbrev pub Covers : ℕ → String → List VersionRecord → Option SectionInterval → Type 0
Covers day section rs none = All (λ x. day < x.effective_from) rs
Covers day section rs (some iv) =
    (iv.section ≡ section)
    × (contains iv day ≡ true)
    × ((r : VersionRecord) × Latest day rs r × MadeFrom r iv)

later_first :
    (day : ℕ) (r : VersionRecord) (rs : List VersionRecord)
    → day < r.effective_from
    → Ascending (r ∷ rs)
    → All (λ x. day < x.effective_from) (r ∷ rs)
later_first day r [] h a = (h, tt)
later_first day r (x ∷ xs) h a = (h, later_first day x xs (omega arith) a.1)

find_covering-later :
    (day : ℕ) (section : String) (rs : List VersionRecord)
    → All (λ x. day < x.effective_from) rs
    → find_covering day (close section rs) ≡ none
unfolding find_covering close
find_covering-later day section [] h = refl
find_covering-later day section (r ∷ []) h = ground arith
find_covering-later day section (r ∷ n ∷ rs) h =
    ground (arith, find_covering-later day section (n ∷ rs) h.1)

Covers-cons :
    (day : ℕ) (section : String) (r n : VersionRecord) (rs : List VersionRecord)
    (o : Option SectionInterval)
    → r.effective_from ≤ n.effective_from
    → n.effective_from ≤ day
    → Covers day section (n ∷ rs) o
    → Covers day section (r ∷ n ∷ rs) o
Covers-cons day section r n rs none le began h = absurd (omega arith)
Covers-cons day section r n rs (some iv) le began (same, inside, (v, (place, started, top), made)) =
    (
      same,
      inside,
      (
        v,
        (
          inr place,
          started,
          λ x m b. elim m [
            | inl e ↦
                omega
                  (arith, ap (λ (y : VersionRecord). y.effective_from) e, top n (inl refl) began)
            | inr later ↦ top x later b
          ],
        ),
        made,
      ),
    )

only_first :
    (day : ℕ) (r n : VersionRecord) (rs : List VersionRecord)
    → day < n.effective_from
    → Ascending (r ∷ n ∷ rs)
    → (x : VersionRecord) → In x (r ∷ n ∷ rs)
    → x.effective_from ≤ day
    → x.effective_from ≤ r.effective_from
only_first day r n rs h a x (inl e) b =
    omega (arith, ap (λ (y : VersionRecord). y.effective_from) e)
only_first day r n rs h a x (inr m) b =
    absurd (
      omega (arith, In-All (λ y. day < y.effective_from) (n ∷ rs) x (later_first day n rs h a.1) m))

-- The search finds the latest version that has begun, and nothing only if none has.
pub find-Covers :
    (day : ℕ) (section : String) (rs : List VersionRecord)
    → Ascending rs
    → Covers day section rs (find_covering day (close section rs))
unfolding find_covering close
find-Covers day section [] a = tt
find-Covers day section (r ∷ []) a = elim (Bool-cases (ltb day r.effective_from)) [
  | inl e ↦ rw (e, find_covering) (omega (tests, ltb→lt day r.effective_from e), tt)
  | inr e ↦ rw e (
    refl,
    rw (e, contains),
    (
      r,
      (
        inl refl,
        ground arith,
        λ x m b. elim m [
          | inl d ↦ omega (arith, ap (λ (y : VersionRecord). y.effective_from) d)
          | inr m' ↦ absurd m'
        ],
      ),
      (refl, refl, refl),
    ),
  )
]
find-Covers day section (r ∷ n ∷ rs) a = elim (Bool-cases (ltb day r.effective_from)) [
  | inl e ↦
      let later = later_first day r (n ∷ rs) (ltb→lt day r.effective_from e) a in
      rw (e, find_covering-later day section (n ∷ rs) later.1) later
  | inr e ↦ elim (Bool-cases (ltb day n.effective_from)) [
    | inl f ↦
        rw (e, f)
          (
            refl,
            rw (e, f, contains),
            (
              r,
              (inl refl, ground arith, only_first day r n rs (ltb→lt day n.effective_from f) a),
              (refl, refl, refl),
            ),
          )
    | inr f ↦
        rw (e, f)
          (Covers-cons day section r n rs _ a.0.0 (ground arith)
            (find-Covers day section (n ∷ rs) a.1))
  ]
]

close_from :
    (k : ℕ) (section : String) (rs : List VersionRecord) (iv : SectionInterval)
    → All (λ x. k ≤ x.effective_from) rs
    → In iv (close section rs)
    → k ≤ iv.effective_from
unfolding close
close_from k section [] iv h m = absurd m
close_from k section (r ∷ []) iv h (inl e) =
    omega (arith, ap (λ (y : SectionInterval). y.effective_from) e)
close_from k section (r ∷ []) iv h (inr m) = absurd m
close_from k section (r ∷ n ∷ rs) iv h (inl e) =
    omega (arith, ap (λ (y : SectionInterval). y.effective_from) e)
close_from k section (r ∷ n ∷ rs) iv h (inr m) = close_from k section (n ∷ rs) iv h.1 m

-- No day lies in two of the intervals: the one that contains it is the one that the search finds.
pub find_unique :
    (day : ℕ) (section : String) (rs : List VersionRecord) (iv : SectionInterval)
    → Ascending rs
    → In iv (close section rs)
    → contains iv day ≡ true
    → find_covering day (close section rs) ≡ some iv
unfolding find_covering close
find_unique day section [] iv a m h = absurd m
find_unique day section (r ∷ []) iv a (inl e) h = ground arith
find_unique day section (r ∷ []) iv a (inr m) h = absurd m
find_unique day section (r ∷ n ∷ rs) iv a (inl e) h = ground arith
find_unique day section (r ∷ n ∷ rs) iv a (inr m) h = ground (
  arith,
  a.0.0,
  close_from n.effective_from section (n ∷ rs) iv (le_refl n.effective_from, a.1.0) m,
  find_unique day section (n ∷ rs) iv a.1 m h,
)
