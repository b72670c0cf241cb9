-- ===== src/Prelude/Counting.antt =====
-- How many elements of a list meet a test; lists that are rearrangements of each other.
use Prim.Native.Nat.{ℕ, zero, suc, ◌+◌, ◌≤◌, ◌<◌}
use mathlib.Core.Path.{◌≡◌, refl}
use mathlib.Core.Bool.{Bool, true, false}
use mathlib.Core.Logic.{inl, inr}
use mathlib.Core.List.{List, [], ◌∷◌, ◌++◌}
use native.Mathlib.Omega.{arith}
use cite_delta_rag.Prelude.Tests.{if◌then◌else◌}
use cite_delta_rag.Prelude.Lists.{In, select, length, take, drop}
use cite_delta_rag.Prelude.Classes.{Eq, ◌==◌, ==_iff, ==_refl}

module _ {ℓ} {A : Type ℓ} where
  abbrev pub count_if : (A → Bool) → List A → ℕ
  count_if p [] = 0
  count_if p (x ∷ xs) = let rest = count_if p xs in if p x then suc rest else rest

  pub count_if-append :
      (p : A → Bool) (xs ys : List A) → count_if p (xs ++ ys) ≡ count_if p xs + count_if p ys
  count_if-append p [] ys = omega arith
  count_if-append p (x ∷ xs) ys = ground (arith, count_if-append p xs ys)

  pub count_if_split :
      (p : A → Bool) (n : ℕ) (xs : List A)
      → count_if p xs ≡ count_if p (take n xs) + count_if p (drop n xs)
  count_if_split p zero xs = omega arith
  count_if_split p (suc n) [] = omega arith
  count_if_split p (suc n) (x ∷ xs) = ground (arith, count_if_split p n xs)

  pub count_if_le : (p : A → Bool) (xs : List A) → count_if p xs ≤ length xs
  count_if_le p [] = omega arith
  count_if_le p (x ∷ xs) = ground (arith, count_if_le p xs)

  pub count_if_all : (xs : List A) → count_if (λ x. true) xs ≡ length xs
  count_if_all [] = refl
  count_if_all (x ∷ xs) = omega (arith, count_if_all xs)

  pub count_if-select : (p : A → Bool) (xs : List A) → length (select p xs) ≡ count_if p xs
  count_if-select p [] = refl
  count_if-select p (x ∷ xs) = ground (arith, count_if-select p xs)

  -- Each test is met as often in one list as in the other.
  abbrev pub Rearranges : List A → List A → Type ℓ
  Rearranges xs ys = (p : A → Bool) → count_if p xs ≡ count_if p ys

module _ {A : Type 0} where
  pub count_if_zero :
      (p : A → Bool) (xs : List A) (a : A) → count_if p xs ≡ 0 → In a xs → p a ≡ false
  count_if_zero p [] a h m = absurd m
  count_if_zero p (x ∷ xs) a h m = ground (arith, count_if_zero p xs a)

  pub none-count_if :
      (p : A → Bool) (xs : List A) → ((a : A) → In a xs → p a ≡ false) → count_if p xs ≡ 0
  none-count_if p [] h = refl
  none-count_if p (x ∷ xs) h =
      ground (arith, h x (inl refl), none-count_if p xs (λ a m. h a (inr m)))

  pub In-count_if : (p : A → Bool) (xs : List A) (a : A) → In a xs → p a ≡ true → 1 ≤ count_if p xs
  In-count_if p [] a m h = absurd m
  In-count_if p (x ∷ xs) a m h = ground (arith, In-count_if p xs a)

  -- A list with an element that fails the test has fewer that meet it than elements.
  pub count_if_lt :
      (p : A → Bool) (xs : List A) (a : A) → In a xs → p a ≡ false → count_if p xs < length xs
  count_if_lt p [] a m h = absurd m
  count_if_lt p (x ∷ xs) a m h = ground (arith, count_if_lt p xs a, count_if_le p xs)

  pub Rearranges-In : ⦃e : Eq A⦄ (xs ys : List A) (a : A) → Rearranges xs ys → In a xs → In a ys
  Rearranges-In xs ys a r m =
      let some_there = In-count_if (λ x. x == a) xs a m (==_refl a) in
      member ys (omega (arith, some_there, r (λ x. x == a)))
    where
      member : (zs : List A) → 1 ≤ count_if (λ x. x == a) zs → In a zs
      member [] h = absurd (omega (arith, h))
      member (z ∷ zs) h = ground (arith, ==_iff z a, member zs)
