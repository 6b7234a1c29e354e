-- ===== src/Prelude/Finite.antt =====
-- Checks over finitely many indices, and a concrete count of leading zeros, for runs at an input.
use Prim.Native.Nat.{ℕ, zero, suc, ◌-◌, ◌^◌, ◌≤◌, ◌<◌}
use mathlib.Core.Path.{◌≡◌, subst}
use native.Mathlib.Omega.{arith}
use native.Mathlib.Decide.{dec_lt}
use ceres_standard_library.Prelude.Tests.{leb, if◌then◌else◌, Bool-cases, leb→le}
use mathlib.Core.Logic.{inl, inr}

module _ {ℓ} {A : Type ℓ} where
  abbrev pub Agree : ℕ → (ℕ → A) → (ℕ → A) → Type ℓ
  Agree zero f g = Unit
  Agree (suc n) f g = (f n ≡ g n) × Agree n f g

module _ {A : Type 0} where
  pub agree_lem : (n : ℕ) (f g : ℕ → A) → Agree n f g → (i : ℕ) → i < n → f i ≡ g i
  agree_lem zero f g h i lt = absurd (omega arith)
  agree_lem (suc n) f g h i lt = elim (dec_lt i n) [
    | yes less ↦ agree_lem n f g h.1 i less
    | no last ↦ let same : n ≡ i = omega arith in subst (λ (j : ℕ). f j ≡ g j) same h.0
  ]

-- the largest power of two up to `x`, looked for from `2 ^ k` down
unfoldable pub top_bit : ℕ → ℕ → ℕ
top_bit zero x = 0
top_bit (suc k) x = if leb (2 ^ suc k) x then suc k else top_bit k x

pub top_bit_bounds :
    (k x : ℕ)
    → 0 < x
    → x < 2 ^ suc k
    → (top_bit k x ≤ k) × (2 ^ top_bit k x ≤ x) × (x < 2 ^ suc (top_bit k x))
unfolding top_bit
top_bit_bounds zero x pos small = (omega arith, omega arith, small)
top_bit_bounds (suc k) x pos small = elim (Bool-cases (leb (2 ^ suc k) x)) [
  | inl large ↦ rw large (omega arith, leb→le _ _ large, small)
  | inr less ↦ let (a, b, c) = top_bit_bounds k x pos (ground arith) in rw less (omega arith, b, c)
]

unfoldable pub leading_zeros : ℕ → ℕ
unfolding top_bit
leading_zeros x = 31 - top_bit 31 x
