-- ===== src/Prelude/Int.antt =====
-- Go's signed integers, over the native numbers; `negsuc n` is -(n + 1). The ranges of int32 and
-- int are not enforced: the sources only compare, copy and print these values.
use showroom_msp_private_llm.Prelude.{ℕ, suc, ◌+◌, ◌≤◌, ◌≡◌, Bool, true, false, arith, ltb}

pub data ℤ : Type 0 where
  pos : ℕ → ℤ
  negsuc : ℕ → ℤ

-- `a < b`
abbrev pub ltb_ℤ : ℤ → ℤ → Bool
ltb_ℤ (pos a) (pos b) = ltb a b
ltb_ℤ (pos a) (negsuc b) = false
ltb_ℤ (negsuc a) (pos b) = true
ltb_ℤ (negsuc a) (negsuc b) = ltb b a

abbrev pub pos_part : ℤ → ℕ
pos_part (pos n) = n
pos_part (negsuc n) = 0

abbrev pub neg_part : ℤ → ℕ
neg_part (pos n) = 0
neg_part (negsuc n) = suc n

infix 50 ◌≤ℤ◌
abbrev pub ◌≤ℤ◌ : ℤ → ℤ → Type 0
a ≤ℤ b = pos_part a + neg_part b ≤ pos_part b + neg_part a

pub le_of_not_ltb : (a b : ℤ) → ltb_ℤ b a ≡ false → a ≤ℤ b
le_of_not_ltb (pos a) (pos b) h = ground arith
le_of_not_ltb (pos a) (negsuc b) h = cc
le_of_not_ltb (negsuc a) (pos b) h = ground arith
le_of_not_ltb (negsuc a) (negsuc b) h = ground arith

pub not_ltb_of_le : (a b : ℤ) → a ≤ℤ b → ltb_ℤ b a ≡ false
not_ltb_of_le (pos a) (pos b) h = ground arith
not_ltb_of_le (pos a) (negsuc b) h = ground arith
not_ltb_of_le (negsuc a) (pos b) h = ground arith
not_ltb_of_le (negsuc a) (negsuc b) h = ground arith
