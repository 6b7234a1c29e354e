-- ===== src/Utoa/Tests.antt =====
-- Runs of utoa and itoa and an instance of the theorem.
use ceres_standard_library.Prelude.{
  ℕ, ◌<◌, ◌≡◌, refl, arith, none, some, List, [], ◌∷◌, ◌++◌, map, length,
}
use ceres_standard_library.Prelude.Int.{pos, negsuc}
use ceres_standard_library.Prelude.Cells.{Cells, blank}
use ceres_standard_library.Prelude.Store.{put_cell, Wrote}
use ceres_standard_library.Utoa.{digits_loop, copy_back, digits, utoa, itoa}
use ceres_standard_library.Utoa.Digits.{read}
use ceres_standard_library.Utoa.Text.{IsBase, IsNumeral, digit_value, utoa_lem}

-- "ff", "0", and -10 in base 10 and, as an unsigned number, in base 16
runs :
    (utoa 255 (blank 3) 0 (pos 16) ≡ some (some 102 ∷ some 102 ∷ some 0 ∷ []))
    × (utoa 0 (blank 2) 0 (pos 99) ≡ some (some 48 ∷ some 0 ∷ []))
    × (itoa (negsuc 9) (blank 4) (pos 10) ≡ some (some 45 ∷ some 49 ∷ some 48 ∷ some 0 ∷ []))
    × (itoa (negsuc 9) (blank 8) (pos 16) ≡ none)
unfolding digits_loop copy_back digits utoa itoa put_cell
runs = (refl, refl, refl, refl)

utoa_lem_example :
    (b : ℕ) × (cs : List ℕ) × (buf' : Cells ℕ) × IsBase (pos 10) b
    × (utoa 1234567 (blank 40) 2 (pos 10) ≡ some buf')
    × Wrote (blank 40) 2 (cs ++ 0 ∷ []) buf'
    × (0 < length cs)
    × IsNumeral b cs
    × (read b 0 (map digit_value cs) ≡ 1234567)
utoa_lem_example = utoa_lem 1234567 (blank 40) 2 (pos 10) (omega arith) (omega arith)
