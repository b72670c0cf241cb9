-- ===== src/Index/Ivf/Places.antt =====
-- Rows and cells by their places, for what `build` of index/ivf.py gives.
use cite_delta_rag.Prelude.{
  ℕ, zero, suc, ◌+◌, ◌-◌, ◌≤◌, ◌<◌, ◌≡◌, refl, sym, ap, ◌∙◌, Bool, true, false, some, List, [], ◌∷◌,
  ◌++◌, map, ltb, leb, nat_eq, arith, length, get_elem?, In, All, Bool-cases, inl, inr, subst,
}
use mathlib.Core.List.{append_assoc, append-nil, map-append}
use cite_delta_rag.Prelude.Counting.{count_if}
use cite_delta_rag.Prelude.Sorting.{Ordered}
use cite_delta_rag.Index.Vector.{range}
use cite_delta_rag.Index.Brute.{distance_at}
use cite_delta_rag.Index.Hnsw.Layer.Fuel.{length-range}
use cite_delta_rag.Index.Ivf.{arange, span, spans, offset_at}

range-arange : (lo d : ℕ) → range (lo + d) ≡ range lo ++ map (λ i. lo + i) (range d)
unfolding range
range-arange lo zero = let e : lo + 0 ≡ lo = omega arith in ap range e ∙ sym (append-nil (range lo))
range-arange lo (suc d) =
    let e : lo + suc d ≡ suc (lo + d) = omega arith in
    ap range e
    ∙ rw
        (
          range-arange lo d,
          map-append (λ i. lo + i) (range d) (d ∷ []),
          append_assoc (range lo) (map (λ i. lo + i) (range d)) ((lo + d) ∷ []),
        )
        refl

spans-append :
    (offsets cells more : List ℕ)
    → spans offsets (cells ++ more) ≡ spans offsets cells ++ spans offsets more
unfolding spans
spans-append offsets [] more = refl
spans-append offsets (c ∷ cells) more =
    rw
      (
        spans-append offsets cells more,
        append_assoc (span offsets c) (spans offsets cells) (spans offsets more),
      )
      refl

-- Cells that lie end to end hold the rows up to the last offset.
pub spans-range :
    (offsets : List ℕ) (n : ℕ)
    → offset_at offsets 0 ≡ 0
    → ((c : ℕ) → c < n → offset_at offsets c ≤ offset_at offsets (suc c))
    → spans offsets (range n) ≡ range (offset_at offsets n)
unfolding range spans span arange
spans-range offsets zero z mono = rw (z) refl
spans-range offsets (suc n) z mono =
    let lo = offset_at offsets n in
    let hi = offset_at offsets (suc n) in
    let ih = spans-range offsets n z (λ c h. mono c (omega (arith, h))) in
    let e : lo + (hi - lo) ≡ hi = omega (arith, mono n (omega arith)) in
    spans-append offsets (range n) (n ∷ [])
    ∙ rw (ih, append-nil (span offsets n)) (sym (range-arange lo (hi - lo)) ∙ ap range e)

get_elem?-append :
    {A : Type 0} (xs : List A) (x : A) (i : ℕ)
    → i < length xs
    → get_elem? (xs ++ (x ∷ [])) i ≡ get_elem? xs i
get_elem?-append [] x i h = absurd (omega (arith, h))
get_elem?-append (y ∷ ys) x zero h = refl
get_elem?-append (y ∷ ys) x (suc i) h = get_elem?-append ys x i (omega (arith, h))

get_elem?-last :
    {A : Type 0} (xs : List A) (x : A) → get_elem? (xs ++ (x ∷ [])) (length xs) ≡ some x
get_elem?-last [] x = refl
get_elem?-last (y ∷ ys) x = get_elem?-last ys x

pub length-map : {A B : Type 0} (f : A → B) (xs : List A) → length (map f xs) ≡ length xs
length-map f [] = refl
length-map f (x ∷ xs) = omega (arith, length-map f xs)

pub get_elem?-map-range : (f : ℕ → ℕ) (n c : ℕ) → c < n → get_elem? (map f (range n)) c ≡ some (f c)
unfolding range
get_elem?-map-range f zero c h = absurd (omega (arith, h))
get_elem?-map-range f (suc n) c h =
    let size = length-map f (range n) in
    let same = length-range n in
    let last : f n ∷ [] ≡ map f (n ∷ []) = refl in
    rw (map-append f (range n) (n ∷ []), sym last)
      (elim (Bool-cases (ltb c n)) [
        | inl e ↦
            get_elem?-append (map f (range n)) (f n) c (ground (arith, e, size, same))
            ∙ get_elem?-map-range f n c (ground (arith, e))
        | inr e ↦
            let at : length (map f (range n)) ≡ c = ground (arith, e, h, size, same) in
            let top : n ≡ c = ground (arith, e, h) in
            subst (λ j. get_elem? (map f (range n) ++ (f n ∷ [])) j ≡ some (f n)) at
              (get_elem?-last (map f (range n)) (f n))
            ∙ ap (λ j. some (f j)) top
      ])

none_below :
    (x c : ℕ) (s : List ℕ)
    → All (λ y. leb x y ≡ true) s
    → ltb x c ≡ false
    → count_if (λ a. ltb a c) s ≡ 0
none_below x c [] a e = refl
none_below x c (y ∷ s) a e = ground (arith, none_below x c s a.1 e, a.0, e)

least_at : (x i : ℕ) (s : List ℕ) → All (λ y. leb x y ≡ true) s → i < length s → x ≤ distance_at s i
least_at x i [] a h = absurd (omega (arith, h))
least_at x zero (y ∷ s) a h = ground (arith, a.0)
least_at x (suc i) (y ∷ s) a h = least_at x i s a.1 (omega (arith, h))

-- In an ordered list, the elements below `c` are those at the first places.
pub place_below :
    (s : List ℕ) (i c : ℕ)
    → Ordered leb s
    → i < length s
    → ltb i (count_if (λ a. ltb a c) s) ≡ ltb (distance_at s i) c
place_below [] i c o h = absurd (omega (arith, h))
place_below (x ∷ s) zero c o h = ground (arith, none_below x c s o.0)
place_below (x ∷ s) (suc i) c o h =
    let here : i < length s = omega (arith, h) in
    ground (arith, place_below s i c o.1 here, none_below x c s o.0, least_at x i s o.0 here)

pub All-map :
    {A B : Type 0} (P : A → Type 0) (Q : B → Type 0) (f : A → B) (xs : List A)
    → ((a : A) → P a → Q (f a))
    → All P xs
    → All Q (map f xs)
All-map P Q f [] h a = tt
All-map P Q f (x ∷ xs) h a = (h x a.0, All-map P Q f xs h a.1)

pub Ordered-map :
    {A B : Type 0} (first : A → A → Bool) (follows : B → B → Bool) (f : A → B) (xs : List A)
    → ((a b : A) → first a b ≡ true → follows (f a) (f b) ≡ true)
    → Ordered first xs
    → Ordered follows (map f xs)
Ordered-map first follows f [] h o = tt
Ordered-map first follows f (x ∷ xs) h o = (
  All-map (λ y. first x y ≡ true) (λ y. follows (f x) y ≡ true) f xs (h x) o.0,
  Ordered-map first follows f xs h o.1,
)

pub In-arange :
    (lo d i : ℕ) (xs : List ℕ)
    → ((j : ℕ) → In j xs → j < d)
    → In i (map (λ j. lo + j) xs)
    → (lo ≤ i) × (i < lo + d)
In-arange lo d i [] h m = absurd m
In-arange lo d i (x ∷ xs) h (inl e) = (omega (arith, e), omega (arith, e, h x (inl refl)))
In-arange lo d i (x ∷ xs) h (inr m) = In-arange lo d i xs (λ j at. h j (inr at)) m

pub every-count_if :
    (p : ℕ → Bool) (xs : List ℕ) → All (λ a. p a ≡ true) xs → count_if p xs ≡ length xs
every-count_if p [] a = refl
every-count_if p (x ∷ xs) a = ground (arith, every-count_if p xs a.1, a.0)

pub All-In : {A : Type 0} (P : A → Type 0) (xs : List A) → ((a : A) → In a xs → P a) → All P xs
All-In P [] h = tt
All-In P (x ∷ xs) h = (h x (inl refl), All-In P xs (λ a m. h a (inr m)))
