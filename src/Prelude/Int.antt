-- ===== src/Prelude/Int.antt =====
-- Signed amounts: integers over the native numbers.
use hivemind_backend.Prelude.{◌&&◌, ◌≤◌, false, Bool, ltb}
use Prim.Native.Nat.{◌%◌, ◌^◌, ℕ, suc, ◌+◌, ◌-◌, ◌≤◌, ◌<◌}
use mathlib.Core.Path.{◌≡◌}
use native.Mathlib.Omega.{arith}
use hivemind_backend.Prelude.Tests.{leb, if◌then◌else◌}

-- `negsuc n` is -(n + 1).
pub data ℤ : Type 0 where
  pos : ℕ → ℤ
  negsuc : ℕ → ℤ

abbrev pub pos_part : ℤ → ℕ
pos_part (pos n) = n
pos_part (negsuc n) = 0

abbrev pub neg_part : ℤ → ℕ
neg_part (pos n) = 0
neg_part (negsuc n) = suc n

-- `a > 0`
abbrev pub is_positive : ℤ → Bool
is_positive (pos n) = ltb 0 n
is_positive (negsuc n) = false

abbrev pub sub_ℕ : ℕ → ℕ → ℤ
sub_ℕ a b = if leb b a then pos (a - b) else negsuc (b - a - 1)

infixl 65 ◌+ℤ◌
unfoldable pub ◌+ℤ◌ : ℤ → ℤ → ℤ
a +ℤ b = sub_ℕ (pos_part a + pos_part b) (neg_part a + neg_part b)

unfoldable pub neg : ℤ → ℤ
neg a = sub_ℕ (neg_part a) (pos_part a)

pub +ℤ_parts :
    (a b : ℤ)
    → pos_part (a +ℤ b) + neg_part a + neg_part b ≡ neg_part (a +ℤ b) + pos_part a + pos_part b
unfolding ◌+ℤ◌
+ℤ_parts a b = ground arith

pub neg_parts : (a : ℤ) → pos_part (neg a) + pos_part a ≡ neg_part (neg a) + neg_part a
unfolding neg
neg_parts a = ground arith

pub eq_of_parts : (a b : ℤ) → pos_part a + neg_part b ≡ pos_part b + neg_part a → a ≡ b
eq_of_parts a b h = ground arith

pub neg_cancel : (n : ℕ) (b : ℤ) → (neg (pos n) +ℤ b) +ℤ pos n ≡ b
unfolding ◌+ℤ◌ neg
neg_cancel n b = ground arith

pub +ℤ_zero : (b : ℤ) → b +ℤ pos 0 ≡ b
unfolding ◌+ℤ◌
+ℤ_zero b = ground arith

-- `a + b > c` on `int64`, for a, b and c that are not below 0: a sum of 2^63 or more wraps to a number
-- below 0.
unfoldable pub sum_exceeds : ℕ → ℕ → ℕ → Bool
sum_exceeds a b c = let s = (a + b) % 2 ^ 64 in ltb s (2 ^ 63) && ltb c s

pub sum_exceeds-fits : (a b c : ℕ) → a + b < 2 ^ 63 → sum_exceeds a b c ≡ false → a + b ≤ c
unfolding sum_exceeds
sum_exceeds-fits a b c fits h = ground arith

pub sum_exceeds-wraps : (a b c : ℕ) → 2 ^ 63 ≤ a + b → a + b < 2 ^ 64 → sum_exceeds a b c ≡ false
unfolding sum_exceeds
sum_exceeds-wraps a b c over fits = ground arith

pub sum_exceeds-below : (a b c : ℕ) → a + b ≤ c → c < 2 ^ 63 → sum_exceeds a b c ≡ false
unfolding sum_exceeds
sum_exceeds-below a b c h fits = ground arith

-- What is taken off without going below 0.
pub neg_within : (n : ℕ) (b : ℤ) → n ≤ pos_part b → 0 < n → neg_part (neg (pos n) +ℤ b) ≡ 0
unfolding ◌+ℤ◌ neg
neg_within n b h positive = ground arith

pub ruleset int_laws = (arith, +ℤ_parts, neg_parts, eq_of_parts)
