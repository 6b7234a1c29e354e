-- ===== src/Sort.antt =====
-- src/ceres/sort.c: the stable merge sort. An element of `size` bytes is one value of `A`; `none` is
-- an access outside an object or to an element never written. `given` says whether `malloc` gave an
-- object for that many bytes.
pub mod Order
pub mod Place
pub mod Insertion
pub mod Merged
pub mod Merge
pub mod Joins
pub mod Runs
pub mod Rounds
pub mod Passes
pub mod Refine
mod Tests
use ceres_standard_library.Prelude.{
  ℕ, zero, suc, ◌+◌, ◌-◌, ◌*◌, ◌/◌, Bool, true, false, not, ◌&&◌, ◌||◌, Option, none, some, List,
  take, drop, ◌++◌, set, ltb, ◌==◌, if◌then◌else◌, add32, mul32, u32_max,
}
use ceres_standard_library.Prelude.Int.{ℤ, pos, ltb_ℤ}
use ceres_standard_library.Prelude.Cells.{Cells, cell, blank, memmove}
use ceres_standard_library.Prelude.Store.{◌>>=◌, put_cell, memcpy}

unfoldable pub run_length : ℕ
run_length = 8

module _ {A : Type 0} where
  -- the copy of what is left behind that loop
  unfoldable pub merge_rest : Cells A → ℕ → ℕ → Cells A × ℕ × ℕ × ℕ → Option (Cells A)
  merge_rest src mid hi (dst, a, b, out) =
      if ltb a mid
      then memcpy (mid - a) dst out src a
      else if ltb b hi
      then memcpy (hi - b) dst out src b
      else some dst

module _ {A : Type 0} (cmp : A → A → ℤ) where
  -- `cmp(x, y) > 0`, the negation of the code's `cmp(x, y) <= 0`
  abbrev pub exceeds : A → A → Bool
  exceeds x y = ltb_ℤ (pos 0) (cmp x y)

  -- the inner `while` of `insertion_run`, down from `j`
  unfoldable pub hold_place : Cells A → A → ℕ → Option ℕ
  hold_place base hold zero = some 0
  hold_place base hold (suc j) = do
    y ← cell base j
    elim (exceeds y hold) [ true ↦ hold_place base hold j | false ↦ some (suc j) ]

  -- the body of its `for` at index `suc i`
  unfoldable pub insert_one : ℕ → Cells A → Option (Cells A)
  unfolding hold_place
  insert_one i base = do
    y ← cell base i
    x ← cell base (suc i)
    elim (exceeds y x) [
      | false ↦ some base
      | true ↦ do
        j ← hold_place base x (suc i)
        some (set (memmove base (suc j) j (suc i - j)) j (some x))
    ]

  -- the `for`, with `left` rounds to go
  unfoldable pub insert_from : ℕ → ℕ → Cells A → Option (Cells A)
  insert_from zero i base = some base
  insert_from (suc left) i base = do base' ← insert_one i base; insert_from left (suc i) base'

  unfoldable pub insertion_run : Cells A → ℕ → Option (Cells A)
  insertion_run base n = insert_from (n - 1) 0 base

  -- the loop of `merge`: the indices as it leaves them
  unfoldable pub merge_loop :
      ℕ → Cells A → Cells A → ℕ → ℕ → ℕ → ℕ → ℕ → Option (Cells A × ℕ × ℕ × ℕ)
  merge_loop zero dst src a mid b hi out = none
  merge_loop (suc fuel) dst src a mid b hi out = elim (ltb a mid && ltb b hi) [
    | false ↦ some (dst, a, b, out)
    | true ↦ do
      x ← cell src a
      y ← cell src b
      elim (exceeds x y) [
        | false ↦ do dst' ← put_cell dst out x; merge_loop fuel dst' src (suc a) mid b hi (suc out)
        | true ↦ do dst' ← put_cell dst out y; merge_loop fuel dst' src a mid (suc b) hi (suc out)
      ]
  ]

  unfoldable pub merge : Cells A → Cells A → ℕ → ℕ → ℕ → Option (Cells A)
  unfolding merge_loop merge_rest
  merge dst src lo mid hi = do
    x ← cell src (mid - 1)
    y ← cell src mid
    elim (exceeds x y) [
      | false ↦ memcpy (hi - lo) dst lo src lo
      | true ↦ merge_loop (suc (hi - lo)) dst src lo mid mid hi lo >>= merge_rest src mid hi
    ]

  -- the first `for` of `sort_stable`, on fuel
  unfoldable pub runs_from : ℕ → ℕ → ℕ → Cells A → Option (Cells A)
  runs_from zero lo n array = none
  runs_from (suc fuel) lo n array = elim (ltb lo n) [
    | false ↦ some array
    | true ↦ do
      part ← insertion_run (drop lo array) (if ltb (n - lo) run_length then n - lo else run_length)
      runs_from fuel (add32 lo run_length) n (take lo array ++ part)
  ]

  -- the `for` over `lo` of one pass, on fuel
  unfoldable pub pass_from : ℕ → Cells A → Cells A → ℕ → ℕ → ℕ → Option (Cells A)
  pass_from zero dst src lo width n = none
  pass_from (suc fuel) dst src lo width n = elim (ltb lo n) [
    | false ↦ some dst
    | true ↦
        let mid = if ltb (add32 lo width) n then add32 lo width else n in
        let hi = if ltb (add32 lo (mul32 2 width)) n then add32 lo (mul32 2 width) else n in
        do
          dst' ← if ltb mid hi then merge dst src lo mid hi else memcpy (hi - lo) dst lo src lo
          pass_from fuel dst' src (add32 lo (mul32 2 width)) width n
  ]

  -- the `for` over `width`, on fuel: whether `src` is the array in the end, `src` and `dst`
  unfoldable pub passes : ℕ → ℕ → ℕ → Bool → Cells A → Cells A → Option (Bool × Cells A × Cells A)
  passes zero width n in_array src dst = none
  passes (suc fuel) width n in_array src dst = elim (ltb width n) [
    | false ↦ some (in_array, src, dst)
    | true ↦ do
      dst' ← pass_from (suc n) dst src 0 width n
      passes fuel (mul32 width 2) n (not in_array) dst' src
  ]

  -- what `sort_stable` does once it has the buffer
  unfoldable pub sort_with_buffer : Cells A → ℕ → Option (Bool × Cells A)
  sort_with_buffer array n = do
    array' ← runs_from (suc n) 0 n array
    (in_array, src, dst) ← passes (suc n) run_length n true array' (blank n)
    array'' ← if in_array then some src else memcpy n dst 0 src 0
    some (true, array'')

  -- the status, 0 as `true`, and the array
  unfoldable pub sort_stable : (ℕ → Bool) → Cells A → ℕ → ℕ → Option (Bool × Cells A)
  sort_stable given array n size =
      if ltb n 2 || size == 0
      then some (true, array)
      else if ltb (u32_max / size - 1) n
      then some (false, array)
      else if not (given (n * size + size))
      then some (false, array)
      else sort_with_buffer array n
