-- ===== src/Prelude/Growth.antt =====
-- When a container that doubles its object cannot hold one element more.
use Prim.Native.Nat.{ℕ, ◌*◌, ◌/◌, ◌<◌}
use native.Mathlib.Nat.{le-div_iff_mul-le}
use mathlib.Core.Path.{◌≡◌}
use mathlib.Core.Logic.{◌⊎◌}
use native.Mathlib.Decide.{dec_lt}
use mathlib.Core.Bool.{Bool, false}
use native.Mathlib.Omega.{arith}
use ceres_standard_library.Prelude.Tests.{◌==◌, if◌then◌else◌}
use ceres_standard_library.Prelude.Word.{u32_max, mul32}

-- a full container whose doubled object is larger than 32 bits can count, or is refused
abbrev pub doubled_cap : ℕ → ℕ
doubled_cap n = if n == 0 then 4 else n * 2

abbrev pub CannotGrow : (ℕ → Bool) → ℕ → ℕ → ℕ → Type 0
CannotGrow given len size elem =
    (len ≡ size) × ((u32_max < doubled_cap size * elem) ⊎ (given (doubled_cap size * elem) ≡ false))

pub too_large : (cap elem : ℕ) → 0 < elem → u32_max / elem < cap → u32_max < cap * elem
too_large cap elem pos h = elim (dec_lt u32_max (cap * elem)) [
  | yes large ↦ large
  | no fits ↦
      absurd
        (omega (arith, (le-div_iff_mul-le {k = elem} {x = cap} {y = u32_max} pos).1 (omega arith)))
]

pub wraps-too_large : (cap elem : ℕ) → 0 < elem → mul32 cap 2 < cap → u32_max < cap * 2 * elem
wraps-too_large cap elem pos h = grind arith
