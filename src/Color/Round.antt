-- ===== src/Color/Round.antt =====
-- The rounded division by 255 of src/ceres/color.c.
use ceres_standard_library.Prelude.{ℕ, ◌+◌, ◌/◌, ◌≤◌, ◌≡◌, arith}
use ceres_standard_library.Color.{div255r}

-- `div255r` is division by 255 rounded to nearest, on every value that two channels can make.
pub div255r_lem : (x : ℕ) → x ≤ 65025 → div255r x ≡ (x + 127) / 255
unfolding div255r
div255r_lem x h = omega arith
