-- ===== src/Fixed.antt =====
-- src/ceres/fixed.c: 16.16 fixed point. A `fixed_t` is a 32-bit word in two's complement: it is
-- negative from 2^31 on.
pub mod Division
pub mod Root
mod Tests
use ceres_standard_library.Prelude.{
  ℕ, zero, suc, ◌+◌, ◌-◌, ◌*◌, ◌/◌, ◌%◌, ◌^◌, bit_or, Bool, true, false, not, ◌&&◌, ◌||◌, ltb, leb,
  ◌==◌, if◌then◌else◌, u32, add32, sub32, ◌<<◌, ◌>>◌,
}

-- One round of the long division on (rem, frac). The last bit of `frac` is clear after the shift,
-- so `frac |= 1` adds 1.
pub div_round : ℕ → ℕ × ℕ → ℕ × ℕ
div_round b (rem, frac) =
    let carry = rem >> 31 in
    let rem' = rem << 1 in
    let frac' = frac << 1 in
    if not (carry == 0) || leb b rem' then (sub32 rem' b, frac' + 1) else (rem', frac')

pub div_rounds : ℕ → ℕ → ℕ × ℕ → ℕ × ℕ
div_rounds zero b state = state
div_rounds (suc left) b state = div_rounds left b (div_round b state)

pub div_magnitude : ℕ → ℕ → ℕ
div_magnitude a b =
    let whole = a / b in
    let (rem, frac) = div_rounds 16 b (a % b, 0) in
    if leb 0x10000 whole then 0xFFFF_FFFF else (whole * 0x10000) % 0x1_0000_0000 + frac

pub fix_min : ℕ
fix_min = 0x8000_0000

pub fix_max : ℕ
fix_max = 0x7FFF_FFFF

abbrev pub is_negative : ℕ → Bool
is_negative a = leb 0x8000_0000 a

abbrev pub magnitude : ℕ → ℕ
magnitude a = if is_negative a then sub32 0 a else a

pub fx_div : ℕ → ℕ → ℕ
unfolding div_magnitude fix_min fix_max
fx_div a b =
    let negative = not (is_negative a) && is_negative b || is_negative a && not (is_negative b) in
    let q = div_magnitude (magnitude a) (magnitude b) in
    if b == 0
    then if is_negative a then fix_min else fix_max
    else if ltb 0x7FFF_FFFF q
    then if negative then fix_min else fix_max
    else if negative
    then sub32 0 q
    else q

-- One round of the square root, given the two bits of the radicand: (rem, root). The last bits are
-- clear after the shifts, so the `|` of the source add.
pub sqrt_round : ℕ → ℕ × ℕ → ℕ × ℕ
sqrt_round pair (rem, root) =
    let rem' = (rem << 2) + pair in
    let trial = (root << 2) + 1 in
    let root' = root << 1 in if leb trial rem' then (rem' - trial, root' + 1) else (rem', root')

-- the first rounds take their bits from the top of `x`
pub sqrt_high : ℕ → ℕ → ℕ × ℕ → ℕ × ℕ
sqrt_high zero x state = state
sqrt_high (suc left) x state = sqrt_high left (x << 2) (sqrt_round (x >> 30) state)

pub sqrt_low : ℕ → ℕ × ℕ → ℕ × ℕ
sqrt_low zero state = state
sqrt_low (suc left) state = sqrt_low left (sqrt_round 0 state)

pub fx_sqrt : ℕ → ℕ
unfolding sqrt_high sqrt_low
fx_sqrt a =
    let (rem, root) = sqrt_low 8 (sqrt_high 16 a (0, 0)) in
    if a == 0 || is_negative a then 0 else root
