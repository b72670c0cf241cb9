-- ===== src/Prelude/Lists.antt =====
-- Lists measured and indexed by native numbers, predicates over lists, and selection by a test.
use Prim.Native.Nat.{ℕ, zero, suc, ◌+◌, ◌≤◌}
use mathlib.Core.Path.{◌≡◌, refl, ap, sym, subst}
use mathlib.Core.Bool.{Bool, true, false}
use mathlib.Core.Logic.{◌⊎◌, inl, inr}
use mathlib.Core.List.{List, [], ◌∷◌, ◌++◌}
use mathlib.Core.Option.{Option, none, some}
use native.Mathlib.Omega.{arith}
use cite_delta_rag.Prelude.Tests.{if◌then◌else◌}

module _ {ℓ} {A : Type ℓ} where
  abbrev pub length : List A → ℕ
  length [] = 0
  length (x ∷ xs) = suc (length xs)

  abbrev pub get_elem? : List A → ℕ → Option A
  get_elem? [] i = none
  get_elem? (x ∷ xs) zero = some x
  get_elem? (x ∷ xs) (suc i) = get_elem? xs i

  abbrev pub take : ℕ → List A → List A
  take zero xs = []
  take (suc n) [] = []
  take (suc n) (x ∷ xs) = x ∷ take n xs

  abbrev pub drop : ℕ → List A → List A
  drop zero xs = xs
  drop (suc n) [] = []
  drop (suc n) (x ∷ xs) = drop n xs

  pub length-append : (xs ys : List A) → length (xs ++ ys) ≡ length xs + length ys
  length-append [] ys = omega arith
  length-append (x ∷ xs) ys = omega (arith, length-append xs ys)

  pub length-take-le : (n : ℕ) (xs : List A) → length (take n xs) ≤ n
  length-take-le zero xs = omega arith
  length-take-le (suc n) [] = omega arith
  length-take-le (suc n) (x ∷ xs) = omega (arith, length-take-le n xs)

  pub drop-append : (xs ys : List A) → drop (length xs) (xs ++ ys) ≡ ys
  drop-append [] ys = refl
  drop-append (x ∷ xs) ys = drop-append xs ys

  pub take-append : (xs ys : List A) → take (length xs) (xs ++ ys) ≡ xs
  take-append [] ys = refl
  take-append (x ∷ xs) ys = ap (◌∷◌ x) (take-append xs ys)

  -- The list comprehension `[x for x in xs if p(x)]`.
  abbrev pub select : (A → Bool) → List A → List A
  select p [] = []
  select p (x ∷ xs) = let rest = select p xs in if p x then x ∷ rest else rest

  abbrev pub any : (A → Bool) → List A → Bool
  any p [] = false
  any p (x ∷ xs) = let rest = any p xs in if p x then true else rest

  abbrev pub All {κ} : (A → Type κ) → List A → Type κ
  All P [] = Unit {κ}
  All P (x ∷ xs) = P x × All P xs

module _ {A : Type 0} where
  -- Membership with its place: the first alternative is the head.
  abbrev pub In : A → List A → Type 0
  In a [] = ⊥
  In a (x ∷ xs) = (a ≡ x) ⊎ In a xs

  pub In-select : (p : A → Bool) (xs : List A) (a : A) → In a (select p xs) → In a xs × (p a ≡ true)
  In-select p [] a h = absurd h
  In-select p (x ∷ xs) a h = ground (arith, In-select p xs a)

  pub select-In : (p : A → Bool) (xs : List A) (a : A) → In a xs → p a ≡ true → In a (select p xs)
  select-In p [] a h e = absurd h
  select-In p (x ∷ xs) a h e = ground (arith, select-In p xs a)

  pub In-append : (xs ys : List A) (a : A) → In a (xs ++ ys) → In a xs ⊎ In a ys
  In-append [] ys a h = inr h
  In-append (x ∷ xs) ys a h = ground (arith, In-append xs ys a)

  pub append-In : (xs ys : List A) (a : A) → In a xs ⊎ In a ys → In a (xs ++ ys)
  append-In [] ys a h = ground arith
  append-In (x ∷ xs) ys a h = ground (arith, append-In xs ys a)

  pub In-take : (n : ℕ) (xs : List A) (a : A) → In a (take n xs) → In a xs
  In-take zero xs a h = absurd h
  In-take (suc n) [] a h = absurd h
  In-take (suc n) (x ∷ xs) a h = ground (arith, In-take n xs a)

  pub All-In {κ} : (P : A → Type κ) (xs : List A) → ((a : A) → In a xs → P a) → All P xs
  All-In P [] h = tt
  All-In P (x ∷ xs) h = (h x (inl refl), All-In P xs (λ a i. h a (inr i)))

  pub In-All {κ} : (P : A → Type κ) (xs : List A) (a : A) → All P xs → In a xs → P a
  In-All P [] a h i = absurd i
  In-All P (x ∷ xs) a h (inl e) = subst P (sym e) h.0
  In-All P (x ∷ xs) a h (inr i) = In-All P xs a h.1 i
