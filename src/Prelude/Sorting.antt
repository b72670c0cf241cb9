-- ===== src/Prelude/Sorting.antt =====
-- Insertion sort by a test that says which of two comes first, and what a limit keeps of a sorted list.
use cite_delta_rag.Prelude.Tests.{if◌then◌else◌, Bool-cases}
use cite_delta_rag.Prelude.Lists.{In, take, All, In-All}
use Prim.Native.Nat.{ℕ, zero, suc}
use mathlib.Core.Path.{◌≡◌, sym, subst}
use mathlib.Core.Bool.{Bool, true, false}
use mathlib.Core.Logic.{◌⊎◌, inl, inr}
use mathlib.Core.List.{List, [], ◌∷◌}
use native.Mathlib.Omega.{arith}

module _ {A : Type 0} where
  unfoldable pub insert_by : (A → A → Bool) → A → List A → List A
  insert_by first j [] = j ∷ []
  insert_by first j (x ∷ xs) = if first j x then j ∷ x ∷ xs else x ∷ insert_by first j xs

  unfoldable pub sort_by : (A → A → Bool) → List A → List A
  unfolding insert_by
  sort_by first [] = []
  sort_by first (j ∷ js) = insert_by first j (sort_by first js)

module _ {A : Type 0} (first : A → A → Bool) where
  pub In-insert_by : (j x : A) (js : List A) → In x (insert_by first j js) → (x ≡ j) ⊎ In x js
  unfolding insert_by
  In-insert_by j x [] m = m
  In-insert_by j x (y ∷ ys) m = ground (arith, In-insert_by j x ys)

  pub insert_by-In : (j x : A) (js : List A) → (x ≡ j) ⊎ In x js → In x (insert_by first j js)
  unfolding insert_by
  insert_by-In j x [] m = m
  insert_by-In j x (y ∷ ys) m = ground (arith, insert_by-In j x ys)

  pub In-sort_by : (x : A) (js : List A) → In x (sort_by first js) → In x js
  unfolding sort_by
  In-sort_by x [] m = m
  In-sort_by x (j ∷ js) m = ground (arith, In-insert_by j x (sort_by first js), In-sort_by x js)

  pub sort_by-In : (x : A) (js : List A) → In x js → In x (sort_by first js)
  unfolding sort_by
  sort_by-In x [] m = m
  sort_by-In x (j ∷ js) m = ground (arith, insert_by-In j x (sort_by first js), sort_by-In x js)

  abbrev pub Ordered : List A → Type 0
  Ordered [] = Unit {0}
  Ordered (j ∷ js) = All (λ x. first j x ≡ true) js × Ordered js

  -- What the limit cuts off does not come before what it keeps.
  pub take-first :
      (limit : ℕ) (js : List A) (a b : A)
      → Ordered js
      → In a (take limit js)
      → In b js
      → (In b (take limit js)) ⊎ (first a b ≡ true)
  take-first zero js a b o ma mb = absurd ma
  take-first (suc n) [] a b o ma mb = absurd ma
  take-first (suc n) (j ∷ js) a b o ma (inl e) = inl (inl e)
  take-first (suc n) (j ∷ js) a b o (inl e) (inr mb) =
      inr (subst (λ x. first x b ≡ true) (sym e) (In-All (λ x. first j x ≡ true) js b o.0 mb))
  take-first (suc n) (j ∷ js) a b o (inr ma) (inr mb) = elim (take-first n js a b o.1 ma mb) [
    | inl m ↦ inl (inr m)
    | inr f ↦ inr f
  ]

module _ {A : Type 0} (first : A → A → Bool)
    (total : (a b : A) → first a b ≡ false → first b a ≡ true)
    (trans : (a b c : A) → first a b ≡ true → first b c ≡ true → first a c ≡ true) where
  All-first :
      (j x : A) (js : List A)
      → first j x ≡ true
      → All (λ y. first x y ≡ true) js
      → All (λ y. first j y ≡ true) js
  All-first j x [] h hs = tt
  All-first j x (y ∷ ys) h hs = (trans j x y h hs.0, All-first j x ys h hs.1)

  All-insert_by :
      (P : A → Type 0) (j : A) (js : List A) → P j → All P js → All P (insert_by first j js)
  unfolding insert_by
  All-insert_by P j [] h hs = (h, tt)
  All-insert_by P j (x ∷ xs) h hs = ground (arith, All-insert_by P j xs h hs.1)

  pub insert_by-Ordered :
      (j : A) (js : List A) → Ordered first js → Ordered first (insert_by first j js)
  unfolding insert_by
  insert_by-Ordered j [] o = (tt, tt)
  insert_by-Ordered j (x ∷ xs) o = elim (Bool-cases (first j x)) [
    | inl e ↦ rw (e, insert_by) ((e, All-first j x xs e o.0), o)
    | inr e ↦
        rw (e, insert_by)
          (All-insert_by (λ y. first x y ≡ true) j xs (total j x e) o.0, insert_by-Ordered j xs o.1)
  ]

  pub sort_by-Ordered : (js : List A) → Ordered first (sort_by first js)
  unfolding sort_by
  sort_by-Ordered [] = tt
  sort_by-Ordered (j ∷ js) = insert_by-Ordered j (sort_by first js) (sort_by-Ordered js)
