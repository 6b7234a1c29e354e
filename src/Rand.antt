-- ===== src/Rand.antt =====
-- src/ceres/rand.c: the xorshift generator with explicit state. An `int` is its 32-bit pattern.
pub mod Live
mod Tests
use ceres_standard_library.Prelude.{
  ℕ, zero, suc, ◌%◌, bit_or, bit_xor, Bool, true, false, Option, none, some, List, get_elem?, set,
  ltb, ◌==◌, if◌then◌else◌, add32, sub32, mul32, ◌<<◌, ◌>>◌,
}

pub record Rng : Type 0 where
  pub s0 : ℕ
  pub s1 : ℕ
  pub s2 : ℕ
  pub s3 : ℕ

-- the new state first, then the number drawn
pub splitmix32 : ℕ → ℕ × ℕ
splitmix32 state =
    let state' = add32 state 0x9E3779B9 in
    let a = mul32 (bit_xor state' (state' >> 16)) 0x85EBCA6B in
    let b = mul32 (bit_xor a (a >> 13)) 0xC2B2AE35 in (state', bit_xor b (b >> 16))

pub rng_seed : ℕ → Rng
unfolding splitmix32
rng_seed seed =
    let (a, x0) = splitmix32 seed in
    let (b, x1) = splitmix32 a in
    let (c, x2) = splitmix32 b in
    let (d, x3) = splitmix32 c in
    if bit_or (bit_or (bit_or x0 x1) x2) x3 == 0
    then record { s0 = 1; s1 = x1; s2 = x2; s3 = x3 }
    else record { s0 = x0; s1 = x1; s2 = x2; s3 = x3 }

pub rng_u32 : Rng → Rng × ℕ
rng_u32 r =
    let t = bit_xor r.s0 (r.s0 << 11) in
    let drawn = bit_xor (bit_xor (bit_xor r.s3 (r.s3 >> 19)) t) (t >> 8) in
    (record { s0 = r.s1; s1 = r.s2; s2 = r.s3; s3 = drawn }, drawn)

-- `a < b` of two ints given by their patterns
pub int_lt : ℕ → ℕ → Bool
int_lt a b = ltb (add32 a 0x8000_0000) (add32 b 0x8000_0000)

-- The rejection loop: `none` when no draw of the `fuel` allowed is at the threshold or above.
pub draw_from : ℕ → Rng → ℕ → Option (Rng × ℕ)
unfolding rng_u32
draw_from zero r threshold = none
draw_from (suc fuel) r threshold =
    let (r', x) = rng_u32 r in
    elim (ltb x threshold) [ true ↦ draw_from fuel r' threshold | false ↦ some (r', x) ]

pub rng_range : ℕ → Rng → ℕ → ℕ → Option (Rng × ℕ)
unfolding draw_from int_lt
rng_range fuel r low high =
    let swap = int_lt high low in
    let lo = if swap then high else low in
    let hi = if swap then low else high in
    let span = add32 (sub32 hi lo) 1 in
    if span == 0 then some (rng_u32 r) else elim (draw_from fuel r (sub32 0 span % span)) [
      | none ↦ none
      | some (r', x) ↦ some (r', add32 lo (x % span))
    ]

pub rng_chance : ℕ → Rng → ℕ → Option (Rng × Bool)
unfolding rng_range
rng_chance fuel r percent =
    if int_lt percent 1
    then some (r, false)
    else if int_lt 99 percent
    then some (r, true)
    else elim (rng_range fuel r 0 99) [ none ↦ none | some (r', x) ↦ some (r', int_lt x percent) ]

module _ {A : Type 0} where
  -- the byte loop of the swap, an element at a time
  pub swap_at : List A → ℕ → ℕ → List A
  swap_at xs i j = elim (get_elem? xs i) [
    | none ↦ xs
    | some p ↦ elim (get_elem? xs j) [ none ↦ xs | some q ↦ set (set xs i q) j p ]
  ]

  -- the loop with `i` from `n` down to 2; the recursion is on `i` itself
  pub rng_shuffle : ℕ → Rng → List A → ℕ → Option (Rng × List A)
  unfolding rng_range swap_at
  rng_shuffle fuel r xs zero = some (r, xs)
  rng_shuffle fuel r xs (suc zero) = some (r, xs)
  rng_shuffle fuel r xs (suc (suc i)) = elim (rng_range fuel r 0 (suc i)) [
    | none ↦ none
    | some (r', j) ↦ elim (j == suc i) [
      | true ↦ rng_shuffle fuel r' xs (suc i)
      | false ↦ rng_shuffle fuel r' (swap_at xs (suc i) j) (suc i)
    ]
  ]
