-- ===== src/Prelude/Classes.antt =====
-- Types with a Boolean equality, as an instance argument: the keys of dictionaries and sets.
use Prim.Native.Nat.{ℕ}
use Prim.Native.String.{String}
use mathlib.Core.Path.{◌≡◌, refl}
use mathlib.Core.Bool.{Bool, true, false, ◌||◌}
use mathlib.Core.Logic.{◌↔◌}
use mathlib.Core.List.{List, [], ◌∷◌, ◌++◌}
use native.Mathlib.Omega.{arith}
use text.Mathlib.Text.{◌==◌ as string_beq}
use text.Mathlib.TextEquality.{eq_iff}
use cite_delta_rag.Prelude.Tests.{nat_beq, nat_beq_iff}
use cite_delta_rag.Prelude.Lists.{any, In}

pub record Eq {ℓ} (A : Type ℓ) : Type ℓ where
  pub same : A → A → Bool
  pub same_iff : (x y : A) → (same x y ≡ true) ↔ (x ≡ y)

infix 50 ◌==◌
abbrev pub ◌==◌ {ℓ} : {A : Type ℓ} ⦃e : Eq A⦄ → A → A → Bool
◌==◌ ⦃e⦄ = e.same

-- `a == b` as a fact, for lemmas that are generic in the type of keys.
pub ==_iff {ℓ} : {A : Type ℓ} ⦃e : Eq A⦄ (a b : A) → ((a == b) ≡ true) ↔ (a ≡ b)
==_iff ⦃e⦄ a b = e.same_iff a b

pub ==_refl {ℓ} : {A : Type ℓ} ⦃e : Eq A⦄ (a : A) → (a == a) ≡ true
==_refl a = (==_iff a a).1 refl

instance abbrev pub string_eq : Eq String
string_eq = record { same = string_beq; same_iff = eq_iff }

instance abbrev pub nat_eq : Eq ℕ
nat_eq = record { same = nat_beq; same_iff = nat_beq_iff }

-- `a in xs`
abbrev pub elem {ℓ} : {A : Type ℓ} ⦃e : Eq A⦄ → A → List A → Bool
elem a xs = any (λ x. x == a) xs

pub elem→In : {A : Type 0} ⦃e : Eq A⦄ (a : A) (xs : List A) → elem a xs ≡ true → In a xs
elem→In a [] h = cc
elem→In a (x ∷ xs) h = ground (arith, ==_iff x a, elem→In a xs)

pub In→elem : {A : Type 0} ⦃e : Eq A⦄ (a : A) (xs : List A) → In a xs → elem a xs ≡ true
In→elem a [] h = absurd h
In→elem a (x ∷ xs) h = ground (arith, ==_iff x a, In→elem a xs)

pub elem-append {ℓ} :
    {A : Type ℓ} ⦃e : Eq A⦄ (a : A) (xs ys : List A) → elem a (xs ++ ys) ≡ (elem a xs || elem a ys)
elem-append a [] ys = refl
elem-append a (x ∷ xs) ys = ground (arith, elem-append a xs ys)

-- No element stands twice.
abbrev pub Distinct {ℓ} : {A : Type ℓ} ⦃e : Eq A⦄ → List A → Type 0
Distinct [] = Unit {0}
Distinct (x ∷ xs) = (elem x xs ≡ false) × Distinct xs

pub Distinct-append_one {ℓ} :
    {A : Type ℓ} ⦃e : Eq A⦄ (xs : List A) (a : A)
    → Distinct xs
    → elem a xs ≡ false
    → Distinct (xs ++ (a ∷ []))
Distinct-append_one [] a d h = (refl, tt)
Distinct-append_one (x ∷ xs) a d h = (
  ground (arith, elem-append x xs (a ∷ []), ==_iff x a, ==_iff a x),
  Distinct-append_one xs a d.1 (ground arith),
)
