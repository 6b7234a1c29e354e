-- ===== src/Prelude/Bits.antt =====
-- What the bit operations of C compute, as arithmetic: masks of low bits, disjoint fields, and
-- tables over one byte.
use Prim.Native.Nat.{ℕ, zero, suc, ◌+◌, ◌-◌, ◌*◌, ◌/◌, ◌%◌, ◌^◌, ◌≤◌, ◌<◌, min, max}
use Prim.Native.Nat.{bit_and, bit_or, bit_xor, bitwise, digits, differ}
use Prim.Native.Nat.{bit_and-bitwise, bit_or-bitwise, bit_xor-bitwise}
use mathlib.Core.Path.{◌≡◌, refl, ap}
use mathlib.Core.Bool.{Bool, true, ◌&&◌}
use native.Mathlib.Nat.{le_refl, pow-suc, one-le-pow}
use native.Mathlib.Omega.{arith}

-- A claim about all bytes is checked value by value.
unfoldable pub all_below : ℕ → (ℕ → Bool) → Bool
all_below zero p = true
all_below (suc n) p = p n && all_below n p

pub all_below_lem : (n : ℕ) (p : ℕ → Bool) (x : ℕ) → all_below n p ≡ true → x < n → p x ≡ true
unfolding all_below
all_below_lem zero p x h lt = absurd (omega arith)
all_below_lem (suc n) p x h lt = ground (arith, all_below_lem n p x)

-- The digit recursion behind the native operations does not depend on its fuel.
module _ (z : ℕ → ℕ) (f : ℕ → ℕ → ℕ) where
  enough_fuel : (n m a b : ℕ) → a ≤ n → a ≤ m → digits z f n a b ≡ digits z f m a b
  enough_fuel zero zero a b p q = refl
  enough_fuel zero (suc m) zero b p q = refl
  enough_fuel zero (suc m) (suc a) b p q = absurd (omega arith)
  enough_fuel (suc n) zero zero b p q = refl
  enough_fuel (suc n) zero (suc a) b p q = absurd (omega arith)
  enough_fuel (suc n) (suc m) zero b p q = refl
  enough_fuel (suc n) (suc m) (suc a) b p q =
      ap (λ (t : ℕ). t * 2 + f (suc a % 2) (b % 2))
        (enough_fuel n m (suc a / 2) (b / 2) (omega arith) (omega arith))

  lowest_digit :
      (a b : ℕ)
      → bitwise z f (suc a) b ≡ bitwise z f (suc a / 2) (b / 2) * 2 + f (suc a % 2) (b % 2)
  lowest_digit a b =
      ap (λ (t : ℕ). t * 2 + f (suc a % 2) (b % 2))
        (enough_fuel a (suc a / 2) (suc a / 2) (b / 2) (omega arith) (le_refl _))

pub or_digit : (a b : ℕ) → bit_or a b ≡ bit_or (a / 2) (b / 2) * 2 + max (a % 2) (b % 2)
or_digit zero b = simp bit_or-bitwise (omega arith)
or_digit (suc a) b = simp bit_or-bitwise (lowest_digit (λ y. y) max a b)

pub and_digit : (a b : ℕ) → bit_and a b ≡ bit_and (a / 2) (b / 2) * 2 + min (a % 2) (b % 2)
and_digit zero b = simp bit_and-bitwise (omega arith)
and_digit (suc a) b = simp bit_and-bitwise (lowest_digit (λ y. 0) min a b)

differ_lem : (x y : ℕ) → x < 2 → y < 2 → differ x y ≡ (x + y) % 2
differ_lem zero y p q = omega arith
differ_lem (suc zero) zero p q = refl
differ_lem (suc zero) (suc zero) p q = refl
differ_lem (suc zero) (suc (suc y)) p q = absurd (omega arith)
differ_lem (suc (suc x)) y p q = absurd (omega arith)

pub xor_digit : (a b : ℕ) → bit_xor a b ≡ bit_xor (a / 2) (b / 2) * 2 + (a % 2 + b % 2) % 2
xor_digit zero b = simp bit_xor-bitwise (omega arith)
xor_digit (suc a) b = simp bit_xor-bitwise (
    omega (
      arith,
      lowest_digit (λ y. y) differ a b,
      differ_lem (suc a % 2) (b % 2) (omega arith) (omega arith),
    ))

or_zero_fuel : (n a : ℕ) → a ≤ n → bit_or a 0 ≡ a
or_zero_fuel n zero h = refl
or_zero_fuel zero (suc a) h = absurd (omega arith)
or_zero_fuel (suc n) (suc a) h =
    omega (arith, or_digit (suc a) 0, or_zero_fuel n (suc a / 2) (omega arith))

and_zero_fuel : (n a : ℕ) → a ≤ n → bit_and a 0 ≡ 0
and_zero_fuel n zero h = refl
and_zero_fuel zero (suc a) h = absurd (omega arith)
and_zero_fuel (suc n) (suc a) h =
    omega (arith, and_digit (suc a) 0, and_zero_fuel n (suc a / 2) (omega arith))

shift_suc : (q k : ℕ) → q * 2 ^ suc k ≡ 2 * (q * 2 ^ k)
shift_suc q k = omega (arith, ap (λ (t : ℕ). q * t) (pow-suc 2 k))

-- `(q << k) | r` is a sum when `r` has at most `k` bits.
pub or_as_sum : (k q r : ℕ) → r < 2 ^ k → bit_or (q * 2 ^ k) r ≡ q * 2 ^ k + r
or_as_sum zero q r h = ground (arith, or_zero_fuel q q (le_refl q))
or_as_sum (suc k) q r h = ground (
  arith,
  or_digit (q * 2 ^ suc k) r,
  shift_suc q k,
  pow-suc 2 k,
  or_as_sum k q (r / 2) (omega (arith, pow-suc 2 k)),
)

low_part : (k q r : ℕ) → r < 2 ^ k → bit_and (q * 2 ^ k + r) (2 ^ k - 1) ≡ r
low_part zero q r h = ground (arith, and_zero_fuel (q * 1 + r) (q * 1 + r) (le_refl (q * 1 + r)))
low_part (suc k) q r h = ground (
  arith,
  and_digit (q * 2 ^ suc k + r) (2 ^ suc k - 1),
  shift_suc q k,
  pow-suc 2 k,
  low_part k q (r / 2) (omega (arith, pow-suc 2 k)),
)

-- A mask of `k` low bits is the remainder by `2 ^ k`.
pub and_low_mask : (k a : ℕ) → bit_and a (2 ^ k - 1) ≡ a % 2 ^ k
and_low_mask k a = ground (arith, one-le-pow k 2, low_part k (a / 2 ^ k) (a % 2 ^ k))
