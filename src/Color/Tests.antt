-- ===== src/Color/Tests.antt =====
-- Runs of src/ceres/color.c.
use ceres_standard_library.Prelude.{◌+◌, ◌/◌, ◌≡◌, arith}
use ceres_standard_library.Color.{div255r}
use ceres_standard_library.Color.Round.{div255r_lem}

div255r_lem_example : div255r 32640 ≡ (32640 + 127) / 255
div255r_lem_example = div255r_lem 32640 (omega arith)
