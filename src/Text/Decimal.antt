-- ===== src/Text/Decimal.antt =====
-- `str(n)` of an integer.
use cite_delta_rag.Prelude.{ℕ, zero, suc, ◌+◌, ◌/◌, ◌%◌, List, [], ◌∷◌, ◌++◌, ltb, if◌then◌else◌}
use cite_delta_rag.Prelude.Int.{ℤ, pos, negsuc}

-- The digits of `n` by `n // 10`; a number has no more digits than its value.
unfoldable pub digits_of : ℕ → ℕ → List ℕ
digits_of zero n = (48 + n % 10) ∷ []
digits_of (suc fuel) n =
    let more = digits_of fuel (n / 10) ++ ((48 + n % 10) ∷ []) in
    if ltb n 10 then (48 + n) ∷ [] else more

unfoldable pub show : ℤ → List ℕ
unfolding digits_of
show (pos n) = digits_of n n
show (negsuc n) = 45 ∷ digits_of (suc n) (suc n)
