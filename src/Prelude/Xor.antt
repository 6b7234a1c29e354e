-- ===== src/Prelude/Xor.antt =====
-- The laws of exclusive or on numbers of any width.
use Prim.Native.Nat.{ℕ, zero, suc, ◌+◌, ◌*◌, ◌/◌, ◌%◌, ◌^◌, ◌≤◌, ◌<◌, bit_xor, bit_xor-bitwise}
use mathlib.Core.Path.{◌≡◌, refl, ap, sym, subst, ◌∙◌}
use native.Mathlib.Nat.{le_refl, pow-succ'}
use native.Mathlib.Omega.{arith}
use ceres_standard_library.Prelude.Bits.{xor_digit}

pub xor_half : (a b : ℕ) → bit_xor a b / 2 ≡ bit_xor (a / 2) (b / 2)
xor_half a b = omega (arith, xor_digit a b)

pub xor_low : (a b : ℕ) → bit_xor a b % 2 ≡ (a % 2 + b % 2) % 2
xor_low a b = omega (arith, xor_digit a b)

pub zero_xor : (b : ℕ) → bit_xor 0 b ≡ b
zero_xor b = bit_xor-bitwise 0 b

comm_fuel : (n a b : ℕ) → a + b ≤ n → bit_xor a b ≡ bit_xor b a
comm_fuel zero zero zero h = refl
comm_fuel zero zero (suc b) h = absurd (omega arith)
comm_fuel zero (suc a) b h = absurd (omega arith)
comm_fuel (suc n) a b h =
    omega (arith, xor_digit a b, xor_digit b a, comm_fuel n (a / 2) (b / 2) (omega arith))

pub xor_comm : (a b : ℕ) → bit_xor a b ≡ bit_xor b a
xor_comm a b = comm_fuel (a + b) a b (le_refl _)

assoc_fuel : (n a b c : ℕ) → a + b + c ≤ n → bit_xor (bit_xor a b) c ≡ bit_xor a (bit_xor b c)
assoc_fuel zero zero b c h = ap (λ (t : ℕ). bit_xor t c) (zero_xor b) ∙ sym (zero_xor (bit_xor b c))
assoc_fuel zero (suc a) b c h = absurd (omega arith)
assoc_fuel (suc n) a b c h =
    let left = xor_digit (bit_xor a b) c in
    let right = xor_digit a (bit_xor b c) in
    let halves : bit_xor (bit_xor a b / 2) (c / 2) ≡ bit_xor (a / 2) (bit_xor b c / 2) =
      rw (xor_half a b, xor_half b c) (assoc_fuel n (a / 2) (b / 2) (c / 2) (omega arith)) in
    omega (arith, left, right, halves, xor_low a b, xor_low b c)

pub xor_assoc : (a b c : ℕ) → bit_xor (bit_xor a b) c ≡ bit_xor a (bit_xor b c)
xor_assoc a b c = assoc_fuel (a + b + c) a b c (le_refl _)

-- numbers of `k` bits
pub xor_lt : (k a b : ℕ) → a < 2 ^ k → b < 2 ^ k → bit_xor a b < 2 ^ k
xor_lt zero zero zero p q = omega arith
xor_lt zero zero (suc b) p q = absurd (omega arith)
xor_lt zero (suc a) b p q = absurd (omega arith)
xor_lt (suc k) a b p q =
    let two : 2 ^ suc k ≡ 2 * 2 ^ k = pow-succ' 2 k in
    omega (arith, xor_digit a b, xor_lt k (a / 2) (b / 2) (omega arith) (omega arith))

xor_zero : (a : ℕ) → bit_xor a 0 ≡ a
xor_zero a = xor_comm a 0 ∙ zero_xor a

xor_eq_fuel : (n a b : ℕ) → a + b ≤ n → bit_xor a b ≡ 0 → a ≡ b
xor_eq_fuel zero a b h same = omega arith
xor_eq_fuel (suc n) zero zero h same = refl
xor_eq_fuel (suc n) a b h same =
    let digit = xor_digit a b in
    omega (arith, digit, xor_eq_fuel n (a / 2) (b / 2) (omega arith) (omega (arith, digit)))

pub eq_of_xor : (a b : ℕ) → bit_xor a b ≡ 0 → a ≡ b
eq_of_xor a b = xor_eq_fuel (a + b) a b (le_refl _)

-- high and low parts do not meet
pub xor_as_sum : (k q r : ℕ) → r < 2 ^ k → bit_xor (q * 2 ^ k) r ≡ q * 2 ^ k + r
xor_as_sum zero q zero h = xor_zero (q * 2 ^ 0) ∙ omega arith
xor_as_sum zero q (suc r) h = absurd (omega arith)
xor_as_sum (suc k) q r h =
    let two : q * 2 ^ suc k ≡ 2 * (q * 2 ^ k) =
      omega (arith, ap (λ (t : ℕ). q * t) (pow-succ' 2 k)) in
    let two' : 2 ^ suc k ≡ 2 * 2 ^ k = pow-succ' 2 k in
    let half : q * 2 ^ suc k / 2 ≡ q * 2 ^ k = omega arith in
    let digit : bit_xor (q * 2 ^ suc k) r
        ≡ bit_xor (q * 2 ^ k) (r / 2) * 2 + (q * 2 ^ suc k % 2 + r % 2) % 2 =
      subst
        (λ (t : ℕ).
          bit_xor (q * 2 ^ suc k) r ≡ bit_xor t (r / 2) * 2 + (q * 2 ^ suc k % 2 + r % 2) % 2)
        half (xor_digit (q * 2 ^ suc k) r) in
    omega (arith, digit, xor_as_sum k q (r / 2) (omega arith))

-- shifting both operands
pub xor_double : (a b : ℕ) → bit_xor (a * 2) (b * 2) ≡ bit_xor a b * 2
xor_double a b =
    let ha : a * 2 / 2 ≡ a = omega arith in
    let hb : b * 2 / 2 ≡ b = omega arith in
    let half : bit_xor (a * 2) (b * 2) / 2 ≡ bit_xor a b =
      rw (xor_half (a * 2) (b * 2), ha, hb) refl in
    omega (arith, xor_low (a * 2) (b * 2), half)
