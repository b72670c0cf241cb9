-- ===== src/Prelude/Dict.antt =====
-- Python's `dict`: pairs in insertion order, one for each key. Setting a key that is there keeps
-- its place.
use mathlib.Core.Path.{◌≡◌, refl, ap}
use mathlib.Core.Bool.{true}
use mathlib.Core.Logic.{inl, inr}
use mathlib.Core.Option.{Option, none, some}
use mathlib.Core.List.{List, [], ◌∷◌}
use native.Mathlib.Omega.{arith}
use cite_delta_rag.Prelude.Tests.{if◌then◌else◌}
use cite_delta_rag.Prelude.Classes.{Eq, ◌==◌, ==_iff, elem, Distinct, In→elem}
use cite_delta_rag.Prelude.Lists.{In}

abbrev pub Dict {ℓ κ} : Type ℓ → Type κ → Type (ℓ ⊔ κ)
Dict K V = List (K × V)

module _ {ℓ κ} {K : Type ℓ} {V : Type κ} where
  -- `d.keys()`
  abbrev pub keys : Dict K V → List K
  keys [] = []
  keys ((j, w) ∷ d) = j ∷ keys d

  -- `d.values()`
  abbrev pub values : Dict K V → List V
  values [] = []
  values ((j, w) ∷ d) = w ∷ values d

module _ {ℓ κ} {K : Type ℓ} {V : Type κ} ⦃e : Eq K⦄ where
  -- `d.get(k)`
  unfoldable pub get : Dict K V → K → Option V
  get [] k = none
  get ((j, v) ∷ d) k = if j == k then some v else get d k

  -- `d[k] = v`
  unfoldable pub put : Dict K V → K → V → Dict K V
  put [] k v = (k, v) ∷ []
  put ((j, w) ∷ d) k v = if j == k then (j, v) ∷ d else (j, w) ∷ put d k v

  pub get-put :
      (d : Dict K V) (k j : K) (v : V) → get (put d k v) j ≡ (if k == j then some v else get d j)
  unfolding get put
  get-put [] k j v = refl
  get-put ((i, w) ∷ d) k j v = ground (arith, ==_iff k j, ==_iff i k, ==_iff i j, get-put d k j v)

  -- `d.get(k, default)`
  abbrev pub get_or : Dict K V → K → V → V
  get_or d k v = elim (get d k) [ none ↦ v | some w ↦ w ]

  elem-keys-put :
      (d : Dict K V) (k j : K) (v : V)
      → elem j (keys (put d k v)) ≡ (if k == j then true else elem j (keys d))
  unfolding put
  elem-keys-put [] k j v = ground arith
  elem-keys-put ((i, w) ∷ d) k j v =
      ground (arith, elem-keys-put d k j v, ==_iff k j, ==_iff i k, ==_iff i j)

  -- Setting an item keeps the keys apart.
  pub Distinct-keys-put :
      (d : Dict K V) (k : K) (v : V) → Distinct (keys d) → Distinct (keys (put d k v))
  unfolding put
  Distinct-keys-put [] k v h = (refl, tt)
  Distinct-keys-put ((i, w) ∷ d) k v h =
      ground (arith, Distinct-keys-put d k v h.1, elem-keys-put d k i v, ==_iff i k, ==_iff k i)

module _ {K V : Type 0} ⦃e : Eq K⦄ where
  -- A value that is got stands in the dictionary.
  pub get-In : (d : Dict K V) (k : K) (v : V) → get d k ≡ some v → In (k, v) d
  unfolding get
  get-In [] k v h = absurd (ground arith)
  get-In ((j, w) ∷ d) k v h = ground (arith, get-In d k v, ==_iff j k)

  In-keys : (d : Dict K V) (k : K) (v : V) → In (k, v) d → In k (keys d)
  In-keys [] k v h = h
  In-keys ((j, w) ∷ d) k v (inl e) = inl (ap (λ p. p.0) e)
  In-keys ((j, w) ∷ d) k v (inr m) = inr (In-keys d k v m)

  -- Where the keys are apart, a pair that stands there is what its key gives.
  pub In-get : (d : Dict K V) (k : K) (v : V) → Distinct (keys d) → In (k, v) d → get d k ≡ some v
  unfolding get
  In-get [] k v h m = absurd m
  In-get ((j, w) ∷ d) k v h m =
      ground (arith, In-get d k v h.1, In→elem k (keys d), In-keys d k v, ==_iff j k)

  -- The values of a dictionary, by key.
  pub values-In : (d : Dict K V) (v : V) → In v (values d) → (k : K) × In (k, v) d
  values-In [] v m = absurd m
  values-In ((j, w) ∷ d) v (inl e) = (j, inl (ap (λ u. (j, u)) e))
  values-In ((j, w) ∷ d) v (inr m) = let (k, place) = values-In d v m in (k, inr place)

  pub In-values : (d : Dict K V) (k : K) (v : V) → In (k, v) d → In v (values d)
  In-values [] k v m = absurd m
  In-values ((j, w) ∷ d) k v (inl e) = inl (ap (λ p. p.1) e)
  In-values ((j, w) ∷ d) k v (inr m) = inr (In-values d k v m)
