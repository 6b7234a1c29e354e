-- ===== src/Fixed/Tests.antt =====
-- Runs of src/ceres/fixed.c.
use ceres_standard_library.Prelude.{ℕ, ◌+◌, ◌*◌, ◌/◌, ◌<◌, ◌≤◌, ◌≡◌, ◌⊎◌, refl, arith}
use ceres_standard_library.Fixed.{div_magnitude, div_round, div_rounds, fx_div, fx_sqrt, sqrt_round}
use ceres_standard_library.Fixed.Division.{div_magnitude_lem}
use ceres_standard_library.Fixed.Root.{fx_sqrt_lem}

runs :
    (fx_div 0x18000 0x20000 ≡ 0xC000)
    × (fx_div 0xFFFF0000 0x20000 ≡ 0xFFFF8000)
    × (fx_sqrt 0x20000 ≡ 0x16A09)
    × (fx_div 0x10000 0 ≡ 0x7FFFFFFF)
unfolding fx_div fx_sqrt div_rounds div_round sqrt_round
runs = (refl, refl, refl, refl)

div_magnitude_lem_example :
    ((0x18000 / 0x30000 < 0x10000)
      × (r : ℕ) × (r < 0x30000)
      × (0x18000 * 0x10000 ≡ div_magnitude 0x18000 0x30000 * 0x30000 + r))
    ⊎ ((0x10000 ≤ 0x18000 / 0x30000) × (div_magnitude 0x18000 0x30000 ≡ 0xFFFF_FFFF))
div_magnitude_lem_example = div_magnitude_lem 0x18000 0x30000 (omega arith) (omega arith)

fx_sqrt_lem_example :
    ((0 < 0x20000)
      × (0x20000 < 0x8000_0000)
      × (fx_sqrt 0x20000 * fx_sqrt 0x20000 ≤ 0x20000 * 0x1_0000)
      × (0x20000 * 0x1_0000 < (fx_sqrt 0x20000 + 1) * (fx_sqrt 0x20000 + 1)))
    ⊎ (((◌≡◌ {A = ℕ} 0x20000 0) ⊎ (0x8000_0000 ≤ 0x20000)) × (fx_sqrt 0x20000 ≡ 0))
fx_sqrt_lem_example = fx_sqrt_lem 0x20000 (omega arith)
