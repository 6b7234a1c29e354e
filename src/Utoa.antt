-- ===== src/Utoa.antt =====
-- src/stdlib.c: utoa and itoa. A text is an object of characters; `none` is a store outside of one or
-- a read of a character that was never written.
mod Digits
mod Text
mod Tests
use ceres_standard_library.Prelude.{
  ℕ, zero, suc, ◌+◌, ◌-◌, ◌/◌, ◌%◌, Bool, true, false, ◌&&◌, ◌||◌, Option, none, some, ltb, ◌==◌,
  if◌then◌else◌, sub32,
}
use ceres_standard_library.Prelude.Int.{ℤ, pos, negsuc}
use ceres_standard_library.Prelude.Cells.{Cells, cell, blank}
use ceres_standard_library.Prelude.Store.{◌>>=◌, put_cell}

abbrev pub digit_char : ℕ → ℕ
digit_char d = if ltb d 10 then 48 + d else 97 + (d - 10)

-- `base` as the code corrects it
abbrev pub usable_base : ℤ → ℕ
usable_base (pos b) = if ltb b 2 || ltb 36 b then 10 else b
usable_base (negsuc b) = 10

-- the loop that fills `tmp` from `n` on, lowest digit first
unfoldable pub digits_loop : ℕ → ℕ → ℕ → Cells ℕ → ℕ → Option (Cells ℕ × ℕ)
digits_loop zero base v tmp n = none
digits_loop (suc fuel) base v tmp n = elim (v == 0) [
  | true ↦ some (tmp, n)
  | false ↦ do
    tmp' ← put_cell tmp n (digit_char (v % base))
    digits_loop fuel base (v / base) tmp' (n + 1)
]

-- the loop that copies `tmp` backwards to `buf + at`, with `left` rounds to go
unfoldable pub copy_back : ℕ → Cells ℕ → ℕ → ℕ → ℕ → Cells ℕ → Option (Cells ℕ)
copy_back zero tmp n i at buf = some buf
copy_back (suc left) tmp n i at buf = do
  c ← cell tmp (n - 1 - i)
  buf' ← put_cell buf (at + i) c
  copy_back left tmp n (i + 1) at buf'

-- `tmp` has 33 characters, and the loop one round for each
unfoldable pub digits : ℕ → ℕ → Option (Cells ℕ × ℕ)
digits v base = elim (v == 0) [
  | true ↦ do tmp ← put_cell (blank 33) 0 48; digits_loop 33 base v tmp 1
  | false ↦ digits_loop 33 base v (blank 33) 0
]

-- the text that is written at `buf + at`
unfoldable pub utoa : ℕ → Cells ℕ → ℕ → ℤ → Option (Cells ℕ)
utoa v buf at base = do
  (tmp, n) ← digits v (usable_base base)
  buf' ← copy_back n tmp n 0 at buf
  put_cell buf' (at + n) 0

abbrev is_ten : ℤ → Bool
is_ten (pos b) = b == 10
is_ten (negsuc b) = false

unfoldable pub itoa : ℤ → Cells ℕ → ℤ → Option (Cells ℕ)
itoa (pos v) buf base = utoa v buf 0 base
itoa (negsuc v) buf base = elim (is_ten base) [
  | true ↦ do buf' ← put_cell buf 0 45; utoa (suc v) buf' 1 (pos 10)
  | false ↦ utoa (sub32 0 (suc v)) buf 0 base
]
