-- ===== src/Bsearch.antt =====
-- src/stdlib.c: bsearch. The array is the list of its elements, and the address that is returned the
-- index of the element; `cmp` is the comparison with the key put in.
mod Finds
mod Tests
use ceres_standard_library.Prelude.{
  ℕ, zero, suc, ◌+◌, ◌-◌, ◌/◌, Bool, true, false, Option, none, some, List, length, ltb, get_elem?,
  ◌==◌,
}
use ceres_standard_library.Prelude.Int.{ℤ, pos, negsuc}
use ceres_standard_library.Prelude.Store.{◌>>=◌}

-- `c == 0`, `c < 0` or else
pub data Side : Type 0 where
  hit left right : Side

abbrev pub side : ℤ → Side
side (pos zero) = hit
side (pos (suc n)) = right
side (negsuc n) = left

module _ {A : Type 0} (cmp : A → ℤ) where
  -- the loop between `lo` and `hi`: the inner `none` is a null result, the outer one a read outside
  unfoldable pub bsearch_loop : ℕ → List A → ℕ → ℕ → Option (Option ℕ)
  bsearch_loop zero base lo hi = none
  bsearch_loop (suc fuel) base lo hi = elim (ltb lo hi) [
    | false ↦ some none
    | true ↦
        let mid = lo + (hi - lo) / 2 in
        do
          item ← get_elem? base mid
          elim (side (cmp item)) [
            | hit ↦ some (some mid)
            | left ↦ bsearch_loop fuel base lo mid
            | right ↦ bsearch_loop fuel base (mid + 1) hi
          ]
  ]

  -- a round more than there are elements
  unfoldable pub bsearch : List A → ℕ → Option (Option ℕ)
  bsearch base n = bsearch_loop (suc n) base 0 n
