-- ===== src/Prelude/Int.antt =====
-- Signed integers over the native numbers, as two parts that `omega` reads, with the truncating
-- division of C by a positive constant.
use Prim.Native.Nat.{ℕ, suc, ◌+◌, ◌-◌, ◌*◌, ◌/◌, ◌%◌, ◌<◌}
use mathlib.Core.Path.{◌≡◌, refl}
use mathlib.Core.Logic.{◌⊎◌, inl, inr}
use mathlib.Core.Bool.{Bool}
use native.Mathlib.Omega.{arith}
use ceres_standard_library.Prelude.Tests.{ltb, leb, if◌then◌else◌}

-- `negsuc n` is -(n + 1).
pub data ℤ : Type 0 where
  pos : ℕ → ℤ
  negsuc : ℕ → ℤ

abbrev pub pos_part : ℤ → ℕ
pos_part (pos n) = n
pos_part (negsuc n) = 0

abbrev pub neg_part : ℤ → ℕ
neg_part (pos n) = 0
neg_part (negsuc n) = suc n

abbrev pub sub_ℕ : ℕ → ℕ → ℤ
sub_ℕ a b = if leb b a then pos (a - b) else negsuc (b - a - 1)

infixl 65 ◌+ℤ◌ ◌-ℤ◌
unfoldable pub ◌+ℤ◌ : ℤ → ℤ → ℤ
a +ℤ b = sub_ℕ (pos_part a + pos_part b) (neg_part a + neg_part b)

unfoldable pub ◌-ℤ◌ : ℤ → ℤ → ℤ
a -ℤ b = sub_ℕ (pos_part a + neg_part b) (neg_part a + pos_part b)

abbrev pub ltb_ℤ : ℤ → ℤ → Bool
ltb_ℤ a b = ltb (pos_part a + neg_part b) (pos_part b + neg_part a)

-- a * n, for a constant n
unfoldable pub times : ℤ → ℕ → ℤ
times a n = sub_ℕ (pos_part a * n) (neg_part a * n)

-- a / n and a % n as C has them: towards zero, the remainder with the sign of a
unfoldable pub quotient : ℤ → ℕ → ℤ
quotient a n = sub_ℕ (pos_part a / n) (neg_part a / n)

unfoldable pub remainder : ℤ → ℕ → ℤ
remainder a n = sub_ℕ (pos_part a % n) (neg_part a % n)

pub eq_of_parts : (a b : ℤ) → pos_part a + neg_part b ≡ pos_part b + neg_part a → a ≡ b
eq_of_parts a b h = ground arith

pub +ℤ_parts :
    (a b : ℤ)
    → pos_part (a +ℤ b) + neg_part a + neg_part b ≡ neg_part (a +ℤ b) + pos_part a + pos_part b
unfolding ◌+ℤ◌
+ℤ_parts a b = ground arith

pub -ℤ_parts :
    (a b : ℤ)
    → pos_part (a -ℤ b) + neg_part a + pos_part b ≡ neg_part (a -ℤ b) + pos_part a + neg_part b
unfolding ◌-ℤ◌
-ℤ_parts a b = ground arith

-- no integer has two parts
pub one_part : (a : ℤ) → (pos_part a ≡ 0) ⊎ (neg_part a ≡ 0)
one_part (pos n) = inr refl
one_part (negsuc n) = inl refl

pub times_parts :
    (a : ℤ) (n : ℕ) → pos_part (times a n) + neg_part a * n ≡ neg_part (times a n) + pos_part a * n
unfolding times
times_parts a n = ground arith

-- `(int)` of a natural number: its low 32 bits in two's complement
abbrev pub to_int : ℕ → ℤ
to_int n =
    if ltb (n % 4294967296) 2147483648
    then pos (n % 4294967296)
    else negsuc (4294967295 - n % 4294967296)

pub to_int_small : (n : ℕ) → n < 2147483648 → to_int n ≡ pos n
to_int_small n h = ground arith
