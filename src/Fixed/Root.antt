-- ===== src/Fixed/Root.antt =====
-- The digit-by-digit square root of fx_sqrt is the integer square root.
use native.Mathlib.Nat.{pow-succ', mul-le-mul_right, one-le-pow}
use mathlib.Core.Path.{subst}
use ceres_standard_library.Prelude.{
  ℕ, zero, suc, ◌+◌, ◌-◌, ◌*◌, ◌/◌, ◌%◌, ◌^◌, ◌<◌, ◌≤◌, ◌≡◌, arith, dec_lt, ◌∙◌, ◌⊎◌, inl, inr,
}
use ceres_standard_library.Fixed.{sqrt_round, sqrt_high, sqrt_low, fx_sqrt}

-- `root` is the square root of the part `r` of the radicand seen so far, and `rem` what is left.
record IsRoot (r : ℕ) (state : ℕ × ℕ) : Type 0 where
  splits : r ≡ state.1 * state.1 + state.0
  least : state.0 ≤ 2 * state.1

round_low :
    (pair rem root : ℕ)
    → root < 0x100_0000
    → rem ≤ 2 * root
    → pair < 4
    → rem * 4 + pair < root * 4 + 1
    → sqrt_round pair (rem, root) ≡ (rem * 4 + pair, root * 2)
unfolding sqrt_round
round_low pair rem root small least bits low = ground arith

round_high :
    (pair rem root : ℕ)
    → root < 0x100_0000
    → rem ≤ 2 * root
    → pair < 4
    → root * 4 + 1 ≤ rem * 4 + pair
    → sqrt_round pair (rem, root) ≡ (rem * 4 + pair - (root * 4 + 1), root * 2 + 1)
unfolding sqrt_round
round_high pair rem root small least bits high = ground arith

-- A round takes in two more bits, and doubles the root at most with one added.
round_lem :
    (pair r rem root : ℕ)
    → root < 0x100_0000
    → pair < 4
    → IsRoot r (rem, root)
    → IsRoot (r * 4 + pair) (sqrt_round pair (rem, root))
      × ((sqrt_round pair (rem, root)).1 ≤ root * 2 + 1)
round_lem pair r rem root small bits v =
    let square : root * 2 * (root * 2) ≡ 4 * (root * root) = grind arith in
    elim (dec_lt (rem * 4 + pair) (root * 4 + 1)) [
      | yes low ↦
          rw (round_low pair rem root small v.least bits low)
            (record { splits = omega (arith, v.splits); least = omega arith }, omega arith)
      | no high ↦
          let odd : (root * 2 + 1) * (root * 2 + 1) ≡ root * 2 * (root * 2) + root * 4 + 1 =
            grind arith in
          rw (round_high pair rem root small v.least bits (omega arith)) (
            record { splits = omega (arith, v.splits); least = omega (arith, v.least) },
            omega arith,
          )
    ]

pow_suc : (b n : ℕ) → b ^ suc n ≡ b * b ^ n
pow_suc b n = pow-succ' b n

-- room for the bits to come, after one that at most doubles the root and adds one
room :
    (limit n root root' : ℕ)
    → (root + 1) * 2 ^ suc n ≤ limit
    → root' ≤ root * 2 + 1
    → (root' + 1) * 2 ^ n ≤ limit
room limit n root root' small next =
    let two : 2 ^ suc n ≡ 2 * 2 ^ n = pow_suc 2 n in
    let more : (root + 1) * 2 ^ suc n ≡ (root * 2 + 2) * 2 ^ n = rw two (grind arith) in
    let scaled : (root' + 1) * 2 ^ n ≤ (root * 2 + 2) * 2 ^ n =
      mul-le-mul_right (2 ^ n) (omega arith) in
    omega arith

fits : (limit n root : ℕ) → (root + 1) * 2 ^ suc n ≤ limit → root < limit
fits limit n root small =
    let pos : 1 ≤ 2 ^ suc n = one-le-pow (suc n) 2 (omega arith) in grind arith

-- The rounds on the bits of `x`: what was taken in and what is left of `x` are shifted by two bits
-- in each.
sqrt_high_lem :
    (left x r : ℕ) (s : ℕ × ℕ)
    → x < 0x1_0000_0000
    → (s.1 + 1) * 2 ^ left ≤ 0x1_0000
    → IsRoot r s
    → (r' : ℕ) × (x' : ℕ) × IsRoot r' (sqrt_high left x s)
      × (x' < 0x1_0000_0000)
      × (r' * 0x1_0000_0000 + x' ≡ (r * 0x1_0000_0000 + x) * 4 ^ left)
      × ((sqrt_high left x s).1 < 0x1_0000)
unfolding sqrt_high
sqrt_high_lem zero x r s word small v = (r, x, v, word, omega arith, omega arith)
sqrt_high_lem (suc left) x r s word small v =
    let (v', next) =
      round_lem (x / 2 ^ 30) r s.0 s.1 (omega (arith, fits 0x1_0000 left s.1 small)) (omega arith)
        v in
    let (r', x', root, rest, total, bound) =
      sqrt_high_lem left ((x * 2 ^ 2) % 0x1_0000_0000) (r * 4 + x / 2 ^ 30)
        (sqrt_round (x / 2 ^ 30) s) (omega arith) (room 0x1_0000 left s.1 _ small next) v' in
    let step : (r * 4 + x / 2 ^ 30) * 0x1_0000_0000 + (x * 2 ^ 2) % 0x1_0000_0000
        ≡ 4 * (r * 0x1_0000_0000 + x) =
      omega arith in
    (r', x', root, rest, total ∙ rw (step, pow_suc 4 left) (grind arith), bound)

sqrt_low_lem :
    (left r : ℕ) (s : ℕ × ℕ)
    → (s.1 + 1) * 2 ^ left ≤ 0x100_0000
    → IsRoot r s
    → IsRoot (r * 4 ^ left) (sqrt_low left s)
unfolding sqrt_low
sqrt_low_lem zero r s small v = subst (λ (n : ℕ). IsRoot n s) (omega arith) v
sqrt_low_lem (suc left) r s small v =
    let (v', next) = round_lem 0 r s.0 s.1 (fits 0x100_0000 left s.1 small) (omega arith) v in
    let same : (r * 4 + 0) * 4 ^ left ≡ r * 4 ^ suc left = rw (pow_suc 4 left) (grind arith) in
    subst (λ (n : ℕ). IsRoot n (sqrt_low left (sqrt_round 0 s))) same
      (sqrt_low_lem left (r * 4 + 0) (sqrt_round 0 s) (room 0x100_0000 left s.1 _ small next) v')

start : IsRoot 0 (0, 0)
start = record { splits = omega arith; least = omega arith }

all_rounds :
    (a : ℕ) → a < 0x1_0000_0000 → IsRoot (a * 0x1_0000) (sqrt_low 8 (sqrt_high 16 a (0, 0)))
all_rounds a word =
    let (r, x, root, rest, total, bound) = sqrt_high_lem 16 a 0 (0, 0) word (omega arith) start in
    let same : r ≡ a = omega arith in
    sqrt_low_lem 8 a (sqrt_high 16 a (0, 0)) (omega arith)
      (subst (λ (n : ℕ). IsRoot n (sqrt_high 16 a (0, 0))) same root)

IsRoot-bounds : (r : ℕ) (s : ℕ × ℕ) → IsRoot r s → (s.1 * s.1 ≤ r) × (r < (s.1 + 1) * (s.1 + 1))
IsRoot-bounds r s v =
    let next : (s.1 + 1) * (s.1 + 1) ≡ s.1 * s.1 + 2 * s.1 + 1 = grind arith in
    (omega (arith, v.splits), omega (arith, v.splits, v.least))

fx_sqrt-rounds :
    (a : ℕ) → 0 < a → a < 0x8000_0000 → fx_sqrt a ≡ (sqrt_low 8 (sqrt_high 16 a (0, 0))).1
unfolding fx_sqrt
fx_sqrt-rounds a pos small = ground arith

fx_sqrt_zero : (a : ℕ) → (a ≡ 0) ⊎ (0x8000_0000 ≤ a) → fx_sqrt a ≡ 0
unfolding fx_sqrt
fx_sqrt_zero a h = ground arith

-- The root of a positive 16.16 number is the largest whose square is not above it, in the scale of
-- the squares; that of zero or of a negative one, which has the sign bit, is 0.
pub fx_sqrt_lem :
    (a : ℕ)
    → a < 0x1_0000_0000
    → ((0 < a)
        × (a < 0x8000_0000)
        × (fx_sqrt a * fx_sqrt a ≤ a * 0x1_0000)
        × (a * 0x1_0000 < (fx_sqrt a + 1) * (fx_sqrt a + 1)))
      ⊎ (((a ≡ 0) ⊎ (0x8000_0000 ≤ a)) × (fx_sqrt a ≡ 0))
fx_sqrt_lem a word = elim (dec_lt a 0x8000_0000) [
  | no negative ↦ inr (inr (omega arith), fx_sqrt_zero a (inr (omega arith)))
  | yes small ↦ elim (dec_lt 0 a) [
    | no none_left ↦ inr (inl (omega arith), fx_sqrt_zero a (inl (omega arith)))
    | yes pos ↦
        let (below, above) = IsRoot-bounds (a * 0x1_0000) _ (all_rounds a word) in
        inl (rw (fx_sqrt-rounds a pos small) (pos, small, below, above))
  ]
]
