-- ===== src/Prelude/Int.antt =====
-- Python's signed integers over the native numbers, under the library's names.
use Prim.Native.Nat.{ℕ, suc, ◌+◌, ◌-◌, ◌≤◌, ◌<◌}
use mathlib.Core.Path.{◌≡◌}
use mathlib.Core.Bool.{Bool}
use native.Mathlib.Omega.{arith}
use cite_delta_rag.Prelude.Tests.{ltb, leb, nat_beq, if◌then◌else◌}
use cite_delta_rag.Prelude.Classes.{Eq}
use mathlib.Core.Bool.{true, false}
use mathlib.Core.Logic.{◌↔◌}

-- `negsuc n` is -(n + 1).
pub data ℤ : Type 0 where
  pos : ℕ → ℤ
  negsuc : ℕ → ℤ

abbrev pub pos_part : ℤ → ℕ
pos_part (pos n) = n
pos_part (negsuc n) = 0

abbrev pub neg_part : ℤ → ℕ
neg_part (pos n) = 0
neg_part (negsuc n) = suc n

-- a - b, as an integer.
abbrev pub sub_ℕ : ℕ → ℕ → ℤ
sub_ℕ a b = if leb b a then pos (a - b) else negsuc (b - a - 1)

abbrev pub ltb_ℤ : ℤ → ℤ → Bool
ltb_ℤ a b = ltb (pos_part a + neg_part b) (pos_part b + neg_part a)

infix 50 ◌<ℤ◌
abbrev pub ◌<ℤ◌ : ℤ → ℤ → Type 0
a <ℤ b = pos_part a + neg_part b < pos_part b + neg_part a

pub sub_ℕ-pos : (a b : ℕ) → b ≤ a → sub_ℕ a b ≡ pos (a - b)
sub_ℕ-pos a b h = ground arith

unfoldable pub beq_ℤ : ℤ → ℤ → Bool
beq_ℤ (pos a) (pos b) = nat_beq a b
beq_ℤ (negsuc a) (negsuc b) = nat_beq a b
beq_ℤ _ _ = false

pub beq_ℤ_iff : (a b : ℤ) → (beq_ℤ a b ≡ true) ↔ (a ≡ b)
unfolding beq_ℤ
beq_ℤ_iff a b = ground arith

instance abbrev pub int_eq : Eq ℤ
int_eq = record { same = beq_ℤ; same_iff = beq_ℤ_iff }
