-- ===== src/Substrate/Pricing/Ledger.antt =====
-- What a ledger's totals are.
use cite_delta_rag.Prelude.{
  ℕ, ◌+◌, ◌≡◌, String, none, some, List, [], ◌∷◌, arith, ◌==◌, ==_iff, string_eq, if◌then◌else◌,
}
use cite_delta_rag.Prelude.Dict.{get-put}
use cite_delta_rag.Prelude.Dict
use cite_delta_rag.Substrate.Pricing.{CostLedger, record_cost, sum_values, total}

-- A ledger after calls in order, and what was spent, in all and by a run.
abbrev pub record_all : CostLedger → List (String × ℕ) → CostLedger
record_all ledger [] = ledger
record_all ledger ((run_id, cost) ∷ calls) = record_all (record_cost ledger run_id cost).0 calls

abbrev pub spent : List (String × ℕ) → ℕ
spent [] = 0
spent ((run_id, cost) ∷ calls) = cost + spent calls

abbrev pub spent_by : String → List (String × ℕ) → ℕ
spent_by r [] = 0
spent_by r ((run_id, cost) ∷ calls) =
    let rest = spent_by r calls in if run_id == r then cost + rest else rest

sum-put :
    (d : CostLedger) (r : String) (cost : ℕ)
    → sum_values (Dict.put d r (Dict.get_or d r 0 + cost)) ≡ cost + sum_values d
unfolding sum_values Dict.put Dict.get
sum-put [] r cost = omega arith
sum-put ((j, v) ∷ d) r cost = ground (arith, sum-put d r cost)

totals-record_all :
    (ledger : CostLedger) (calls : List (String × ℕ)) (r : String)
    → (total (record_all ledger calls) none ≡ total ledger none + spent calls)
      × (total (record_all ledger calls) (some r) ≡ total ledger (some r) + spent_by r calls)
unfolding total record_cost
totals-record_all ledger [] r = (omega arith, omega arith)
totals-record_all ledger ((j, cost) ∷ calls) r =
    let (all, own) = totals-record_all (record_cost ledger j cost).0 calls r in
    (
      omega (arith, all, sum-put ledger j cost),
      ground (arith, own, get-put ledger j r (Dict.get_or ledger j 0 + cost), ==_iff j r),
    )

-- From an empty ledger the total is what all calls cost, and a run's total what its calls cost.
pub ledger_totals :
    (calls : List (String × ℕ)) (r : String)
    → (total (record_all [] calls) none ≡ spent calls)
      × (total (record_all [] calls) (some r) ≡ spent_by r calls)
ledger_totals calls r =
    let (all, own) = totals-record_all [] calls r in
    (unfold total sum_values in omega (arith, all), unfold total Dict.get in omega (arith, own))
