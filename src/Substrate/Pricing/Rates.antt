-- ===== src/Substrate/Pricing/Rates.antt =====
-- Which rate applies, and how far rounding moves a price.
use cite_delta_rag.Prelude.{
  ℕ, ◌+◌, ◌*◌, ◌≤◌, ◌≡◌, refl, inl, inr, String, Bool, true, false, not, ◌||◌, Option, none, some,
  List, [], ◌∷◌, arith, leb, ◌==◌, ==_iff, string_eq, if◌then◌else◌, In, Option-cases,
}
use cite_delta_rag.Substrate.Pricing.{
  TokenUsage, Rate, covers, before_expiry, rates, find_rate, rate_for, exact_cost, quantize,
  price_at, price,
}

ends_by : Option ℕ → ℕ → Bool
ends_by none day = false
ends_by (some end) day = leb end day

-- No day is covered by both, or they are of different models.
unfoldable apart : Rate → Rate → Bool
unfolding ends_by
apart r s =
    not (r.model == s.model)
    || ends_by r.effective_to s.effective_from
    || ends_by s.effective_to r.effective_from

apart_all : Rate → List Rate → Bool
unfolding apart
apart_all r [] = true
apart_all r (s ∷ ss) = let rest = apart_all r ss in if apart r s then rest else false

none_overlap : List Rate → Bool
unfolding apart_all
none_overlap [] = true
none_overlap (r ∷ rs) = let rest = none_overlap rs in if apart_all r rs then rest else false

apart-covers :
    (r s : Rate) (day : ℕ)
    → apart r s ≡ true
    → r.model ≡ s.model
    → covers s day ≡ true
    → covers r day ≡ false
unfolding apart covers before_expiry ends_by
apart-covers r s day h e c = ground (arith, ==_iff r.model s.model)

apart_all-In : (r s : Rate) (ss : List Rate) → apart_all r ss ≡ true → In s ss → apart r s ≡ true
unfolding apart_all
apart_all-In r s [] h m = absurd m
apart_all-In r s (t ∷ ts) h (inl e) = ground (arith, e)
apart_all-In r s (t ∷ ts) h (inr m) = ground (arith, apart_all-In r s ts, m)

find_rate-In :
    (rs : List Rate) (s : Rate) (model : String) (day : ℕ)
    → none_overlap rs ≡ true
    → In s rs
    → s.model ≡ model
    → covers s day ≡ true
    → find_rate rs model day ≡ some s
unfolding find_rate none_overlap
find_rate-In [] s model day h m e c = absurd m
find_rate-In (r ∷ rs) s model day h (inl same) e c = ground (arith, same, ==_iff r.model model)
find_rate-In (r ∷ rs) s model day h (inr m) e c = ground (
  arith,
  apart-covers r s day,
  apart_all-In r s rs,
  find_rate-In rs s model day,
  ==_iff r.model model,
)

rates-none_overlap : none_overlap rates ≡ true
unfolding none_overlap
rates-none_overlap = refl

-- The rates of the table do not overlap: any rate that is the model's and covers the day is the one
-- that `rate_for` finds.
pub rate_for_unique :
    (s : Rate) (model : String) (day : ℕ)
    → In s rates
    → s.model ≡ model
    → covers s day ≡ true
    → rate_for model day ≡ some s
unfolding rate_for
rate_for_unique s model day m e c = find_rate-In rates s model day rates-none_overlap m e c

quantize-near : (n : ℕ) → (quantize n * 10_000 ≤ n + 5_000) × (n ≤ quantize n * 10_000 + 5_000)
unfolding quantize
quantize-near n = (ground arith, ground arith)

-- A price is within half a millionth of a dollar of the exact cost at the rate that `rate_for` finds.
pub price_near :
    (u : TokenUsage) (model : String) (day p : ℕ)
    → price u model day ≡ some p
    → (r : Rate) × (rate_for model day ≡ some r)
      × (p * 10_000 ≤ exact_cost u r + 5_000)
      × (exact_cost u r ≤ p * 10_000 + 5_000)
unfolding price price_at
price_near u model day p h = elim (Option-cases (rate_for model day)) [
  | inl e ↦ absurd (ground (arith, e))
  | inr (r, e) ↦
      let same : quantize (exact_cost u r) ≡ p = ground (arith, e) in
      let (low, high) = quantize-near (exact_cost u r) in
      (r, e, omega (arith, low, same), omega (arith, high, same))
]
