-- ===== src/Ecfr/Timeline/Kept.antt =====
-- The versions that the first loop keeps: of each section and date the one issued first.
use cite_delta_rag.Prelude.{
  ℕ, ◌≤◌, ◌≡◌, ◌≢◌, refl, sym, ap, subst, ◌∙◌, ◌⊎◌, inl, inr, ◌&&◌, String, Option, none, some,
  List, [], ◌∷◌, arith, ◌==◌, ==_iff, nat_eq, string_eq, if◌then◌else◌, In, Distinct, Bool-cases,
  Option-cases,
}
use cite_delta_rag.Prelude.Dict.{
  Dict, get-put, Distinct-keys-put, values-In, In-get, get-In, In-values,
}
use cite_delta_rag.Prelude.Dict
use cite_delta_rag.Ecfr.Models.{VersionRecord}
use cite_delta_rag.Ecfr.Timeline.{Versions, is_better, keep_version, versions_of, group}

module _ (section : String) (day : ℕ) where
  -- The loop as it concerns one section and date.
  best : Option VersionRecord → List VersionRecord → Option VersionRecord
  unfolding is_better
  best acc [] = acc
  best acc (r ∷ rs) =
      best
        (if (r.section == section) && (r.effective_from == day) && is_better acc r
          then some r
          else acc)
        rs

  get-step :
      (by_section : Dict String Versions) (r : VersionRecord)
      → Dict.get
          (versions_of
            (Dict.put by_section r.section (keep_version (versions_of by_section r.section) r))
            section)
          day
        ≡ (let acc = Dict.get (versions_of by_section section) day in
            if (r.section == section) && (r.effective_from == day) && is_better acc r
            then some r
            else acc)
  unfolding keep_version
  get-step by_section r = ground (
    arith,
    get-put by_section r.section section (keep_version (versions_of by_section r.section) r),
    get-put (versions_of by_section r.section) r.effective_from day r,
    ==_iff r.section section,
    ==_iff r.effective_from day,
  )

  get-group :
      (by_section : Dict String Versions) (rs : List VersionRecord)
      → Dict.get (versions_of (group by_section rs) section) day
        ≡ best (Dict.get (versions_of by_section section) day) rs
  unfolding group best
  get-group by_section [] = refl
  get-group by_section (r ∷ rs) =
      get-group (Dict.put by_section r.section (keep_version (versions_of by_section r.section) r))
        rs
      ∙ ap (λ acc. best acc rs) (get-step by_section r)

  abbrev Issued : VersionRecord → VersionRecord → Type 0
  Issued x y = y.section ≡ section → y.effective_from ≡ day → x.issue_date ≤ y.issue_date

  abbrev next_best : Option VersionRecord → VersionRecord → Option VersionRecord
  next_best acc r =
      if (r.section == section) && (r.effective_from == day) && is_better acc r then some r else acc

  -- A record of the section and date is kept, unless an earlier issue was.
  next_first :
      (acc : Option VersionRecord) (r x : VersionRecord)
      → r.section ≡ section
      → r.effective_from ≡ day
      → ((a : VersionRecord) → next_best acc r ≡ some a → x.issue_date ≤ a.issue_date)
      → x.issue_date ≤ r.issue_date
  unfolding is_better
  next_first none r x s d old =
      ground (arith, old r, ==_iff r.section section, ==_iff r.effective_from day)
  next_first (some a) r x s d old =
      ground (arith, old r, old a, ==_iff r.section section, ==_iff r.effective_from day)

  next_ne_none :
      (acc : Option VersionRecord) (r : VersionRecord)
      → r.section ≡ section
      → r.effective_from ≡ day
      → next_best acc r ≢ none
  unfolding is_better
  next_ne_none none r s d e = ground (arith, ==_iff r.section section, ==_iff r.effective_from day)
  next_ne_none (some a) r s d e = ground arith

  best-some :
      (acc : Option VersionRecord) (rs : List VersionRecord) (x : VersionRecord)
      → best acc rs ≡ some x
      → ((acc ≡ some x) ⊎ (In x rs × (x.section ≡ section) × (x.effective_from ≡ day)))
        × ((y : VersionRecord) → In y rs → Issued x y)
        × ((a : VersionRecord) → acc ≡ some a → x.issue_date ≤ a.issue_date)
  unfolding best
  best-some acc [] x h = (inl h, λ y m. absurd m, λ a e. ground arith)
  best-some acc (r ∷ rs) x h =
      let (from, first, old) = best-some (next_best acc r) rs x h in
      (
        ground (arith, ==_iff r.section section, ==_iff r.effective_from day),
        λ y m s d. elim m [
          | inl e ↦ omega (
            arith,
            next_first acc r x (sym (ap (λ z. z.section) e) ∙ s)
                (sym (ap (λ z. z.effective_from) e) ∙ d) old,
            ap (λ (z : VersionRecord). z.issue_date) e,
          )
          | inr later ↦ first y later s d
        ],
        λ a e. ground (arith, old a, old r),
      )

  best-none :
      (acc : Option VersionRecord) (rs : List VersionRecord)
      → best acc rs ≡ none
      → (acc ≡ none)
        × ((y : VersionRecord) → In y rs → y.section ≡ section → y.effective_from ≢ day)
  unfolding best
  best-none acc [] h = (h, λ y m. absurd m)
  best-none acc (r ∷ rs) h =
      let (start, rest) = best-none (next_best acc r) rs h in
      (
        ground arith,
        λ y m s d. elim m [
          | inl e ↦
              next_ne_none acc r (sym (ap (λ z. z.section) e) ∙ s)
                (sym (ap (λ z. z.effective_from) e) ∙ d) start
          | inr later ↦ rest y later s d
        ],
      )

abbrev HasDates : Versions → Type 0
HasDates vs = Distinct (Dict.keys vs)

keep-HasDates : (vs : Versions) (r : VersionRecord) → HasDates vs → HasDates (keep_version vs r)
unfolding keep_version
keep-HasDates vs r d = elim (Bool-cases (is_better (Dict.get vs r.effective_from) r)) [
  | inl e ↦ rw (e, keep_version) (Distinct-keys-put vs r.effective_from r d)
  | inr e ↦ rw (e, keep_version) d
]

-- The versions of each section are one for each date.
group-HasDates :
    (rs : List VersionRecord) (by_section : Dict String Versions)
    → ((section : String) → HasDates (versions_of by_section section))
    → (section : String) → HasDates (versions_of (group by_section rs) section)
unfolding group
group-HasDates [] by_section d section = d section
group-HasDates (r ∷ rs) by_section d section =
    let v = keep_version (versions_of by_section r.section) r in
    group-HasDates rs (Dict.put by_section r.section v)
      (λ s. elim (Bool-cases (r.section == s)) [
        | inl e ↦
            subst HasDates
              (let p : v ≡ versions_of (Dict.put by_section r.section v) s =
                  ground (arith, get-put by_section r.section s v, e) in
                p)
              (keep-HasDates (versions_of by_section r.section) r (d r.section))
        | inr e ↦
            subst HasDates
              (let p : versions_of by_section s ≡ versions_of (Dict.put by_section r.section v) s =
                  ground (arith, get-put by_section r.section s v, e) in
                p)
              (d s)
      ])
      section

get-group_start :
    (rs : List VersionRecord) (section : String) (day : ℕ)
    → Dict.get (versions_of (group [] rs) section) day ≡ best section day none rs
unfolding Dict.get
get-group_start rs section day = get-group section day [] rs

start-HasDates : (section : String) → HasDates (versions_of [] section)
unfolding Dict.get
start-HasDates section = tt

-- A kept version of a section is a record of the section, and the first that was issued for its date.
pub kept_first :
    (rs : List VersionRecord) (section : String) (x : VersionRecord)
    → In x (Dict.values (versions_of (group [] rs) section))
    → In x rs
      × (x.section ≡ section)
      × ((y : VersionRecord)
          → In y rs
          → y.section ≡ section
          → y.effective_from ≡ x.effective_from
          → x.issue_date ≤ y.issue_date)
kept_first rs section x m =
    let vs = versions_of (group [] rs) section in
    let (k, place) = values-In vs x m in
    let got = In-get vs k x (group-HasDates rs [] start-HasDates section) place in
    let (from, first, _) =
      best-some section k none rs x (sym (get-group_start rs section k) ∙ got) in
    elim from [
      | inl e ↦ absurd (cc e)
      | inr (mem, same, day) ↦ (mem, same, λ y my s d. first y my s (d ∙ day))
    ]

-- Every record's date has a kept version.
pub kept_all :
    (rs : List VersionRecord) (y : VersionRecord)
    → In y rs
    → (x : VersionRecord) × In x (Dict.values (versions_of (group [] rs) y.section))
      × (x.effective_from ≡ y.effective_from)
kept_all rs y m =
    let vs = versions_of (group [] rs) y.section in
    elim (Option-cases (best y.section y.effective_from none rs)) [
      | inl e ↦ absurd ((best-none y.section y.effective_from none rs e).1 y m refl refl)
      | inr (x, e) ↦
          let got =
            get-In vs y.effective_from x (get-group_start rs y.section y.effective_from ∙ e) in
          let (from, _, _) = best-some y.section y.effective_from none rs x e in
          (
            x,
            In-values vs y.effective_from x got,
            elim from [ inl f ↦ absurd (cc f) | inr (_, _, day) ↦ day ],
          )
    ]
