-- ===== src/Fixed/Division.antt =====
-- The long division of div_magnitude is the exact division.
use ceres_standard_library.Prelude.{
  ℕ, zero, suc, ◌+◌, ◌-◌, ◌*◌, ◌/◌, ◌%◌, ◌^◌, ◌<◌, ◌≤◌, ◌≡◌, arith, dec_lt, ◌∙◌, ◌⊎◌, inl, inr,
}
use native.Mathlib.Nat.{mod-lt}
use native.Mathlib.Omega.{div_any}
use native.Mathlib.Numerals.{unary_clauses}
use ceres_standard_library.Fixed.{div_round, div_rounds, div_magnitude}

round_low :
    (b rem frac : ℕ)
    → b < 0x1_0000_0000
    → frac < 0x8000
    → rem * 2 < b
    → div_round b (rem, frac) ≡ (rem * 2, frac * 2)
unfolding div_round
round_low b rem frac word small low = ground arith

round_high :
    (b rem frac : ℕ)
    → rem < b
    → b < 0x1_0000_0000
    → frac < 0x8000
    → b ≤ rem * 2
    → div_round b (rem, frac) ≡ (rem * 2 - b, frac * 2 + 1)
unfolding div_round
round_high b rem frac less word small high = ground arith

-- The rounds that are left multiply what is to be divided by two each.
Divided : (n b rem frac : ℕ) → ℕ × ℕ → Type 0
Divided n b rem frac (r, f) = (r < b) × (f < 0x10000) × ((frac * b + rem) * 2 ^ n ≡ f * b + r)

pow_suc : (n : ℕ) → 2 ^ suc n ≡ 2 * 2 ^ n
pow_suc n = simp unary_clauses (omega arith)

pow_pos : (n : ℕ) → 1 ≤ 2 ^ n
pow_pos zero = omega arith
pow_pos (suc n) = let two : 2 ^ suc n ≡ 2 * 2 ^ n = pow_suc n in omega (arith, pow_pos n)

-- what doubling the remainder does to the number that is divided
double_sum :
    (n b rem frac x : ℕ) → x ≡ (frac * b + rem) * 2 → (frac * b + rem) * 2 ^ suc n ≡ x * 2 ^ n
double_sum n b rem frac x h =
    let two : 2 ^ suc n ≡ 2 * 2 ^ n = pow_suc n in rw (two, h) (grind arith)

low_step :
    (n b rem frac : ℕ) (s : ℕ × ℕ)
    → Divided n b (rem * 2) (frac * 2) s
    → Divided (suc n) b rem frac s
unfolding Divided
low_step n b rem frac (r, f) (less, word, sum) =
    (less, word, double_sum n b rem frac (frac * 2 * b + rem * 2) (grind arith) ∙ sum)

high_step :
    (n b rem frac : ℕ) (s : ℕ × ℕ)
    → b ≤ rem * 2
    → Divided n b (rem * 2 - b) (frac * 2 + 1) s
    → Divided (suc n) b rem frac s
unfolding Divided
high_step n b rem frac (r, f) high (less, word, sum) =
    (less, word, double_sum n b rem frac ((frac * 2 + 1) * b + (rem * 2 - b)) (grind arith) ∙ sum)

-- the bits found so far leave room for those to come
room_high :
    (n frac : ℕ)
    → (frac + 1) * 2 ^ suc n ≤ 0x10000
    → (frac < 0x8000) × ((frac * 2 + 1 + 1) * 2 ^ n ≤ 0x10000)
room_high n frac small =
    let two : 2 ^ suc n ≡ 2 * 2 ^ n = pow_suc n in
    let more : (frac + 1) * 2 ^ suc n ≡ (frac * 2 + 1 + 1) * 2 ^ n = rw two (grind arith) in
    (grind (arith, pow_pos n, two), rw (← more) small)

room_low : (n frac : ℕ) → (frac * 2 + 1 + 1) * 2 ^ n ≤ 0x10000 → (frac * 2 + 1) * 2 ^ n ≤ 0x10000
room_low n frac small =
    let more : (frac * 2 + 1 + 1) * 2 ^ n ≡ (frac * 2 + 1) * 2 ^ n + 2 ^ n = grind arith in
    omega arith

div_rounds_lem :
    (n b rem frac : ℕ)
    → rem < b
    → b < 0x1_0000_0000
    → (frac + 1) * 2 ^ n ≤ 0x10000
    → Divided n b rem frac (div_rounds n b (rem, frac))
unfolding div_rounds Divided
div_rounds_lem zero b rem frac less word small = (less, omega arith, grind arith)
div_rounds_lem (suc n) b rem frac less word small = elim (dec_lt (rem * 2) b) [
  | yes low ↦
      let (bound, next) = room_high n frac small in
      rw (div_rounds, round_low b rem frac word bound low)
        (low_step n b rem frac _
          (div_rounds_lem n b (rem * 2) (frac * 2) low word (room_low n frac next)))
  | no high ↦
      let (bound, next) = room_high n frac small in
      rw (div_rounds, round_high b rem frac less word bound (omega arith))
        (high_step n b rem frac _ (omega arith)
          (div_rounds_lem n b (rem * 2 - b) (frac * 2 + 1) (omega arith) word next))
]

mod_less : (a b : ℕ) → 0 < b → a % b < b
mod_less a b pos = mod-lt a pos

div_add_mod : (a b : ℕ) → a ≡ a / b * b + a % b
div_add_mod a b = grind (arith, div_any a b)

magnitude_fits :
    (a b : ℕ)
    → a / b < 0x10000
    → div_magnitude a b ≡ a / b * 0x10000 + (div_rounds 16 b (a % b, 0)).1
unfolding div_magnitude
magnitude_fits a b fits = ground arith

exact :
    (a b r w : ℕ) (s : ℕ × ℕ) (m : ℕ)
    → a ≡ w * b + r
    → m ≡ w * 0x10000 + s.1
    → Divided 16 b r 0 s
    → a * 0x10000 ≡ m * b + s.0
unfolding Divided
exact a b r w (rem, f) m whole value (less, word, sum) =
    let shifted : r * 0x10000 ≡ f * b + rem = grind (arith) in
    rw (whole, value) (grind (arith, shifted))

-- For a divisor that is a 32-bit word but not 0, the magnitude of a quotient that fits is the quotient of a * 2^16 rounded down, exactly; of one
-- that does not it is 2^32 - 1.
pub div_magnitude_lem :
    (a b : ℕ)
    → 0 < b
    → b < 0x1_0000_0000
    → ((a / b < 0x10000) × (r : ℕ) × (r < b) × (a * 0x10000 ≡ div_magnitude a b * b + r))
      ⊎ ((0x10000 ≤ a / b) × (div_magnitude a b ≡ 0xFFFF_FFFF))
unfolding div_magnitude Divided
div_magnitude_lem a b pos word = elim (dec_lt (a / b) 0x10000) [
  | yes fits ↦
      let divided = div_rounds_lem 16 b (a % b) 0 (mod_less a b pos) word (omega arith) in
      inl (
        fits,
        (div_rounds 16 b (a % b, 0)).0,
        divided.0,
        exact a b (a % b) (a / b) _ _ (div_add_mod a b) (magnitude_fits a b fits) divided,
      )
  | no large ↦ inr (omega arith, ground arith)
]
