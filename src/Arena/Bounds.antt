-- ===== src/Arena/Bounds.antt =====
-- What an allocation takes from the arena.
use ceres_standard_library.Prelude.{
  ℕ, ◌+◌, ◌%◌, ◌<◌, ◌≤◌, ◌≡◌, ◌⊎◌, inl, inr, refl, arith, bit_and, none, some, add32, sub32,
  u32_size, dec_lt,
}
use ceres_standard_library.Prelude.Bits.{and_low_mask}
use ceres_standard_library.Arena.{Arena, padding, arena_alloc}

-- The arena lies inside the address space and hands out no more than it has.
pub record IsValid (a : Arena) : Type 0 where
  pub in_memory : a.base + a.size < u32_size
  pub within : a.used ≤ a.size

padding_lem : (a : Arena) → IsValid a → (padding a < 8) × ((a.base + a.used + padding a) % 8 ≡ 0)
padding_lem a v = ground (
  arith,
  and_low_mask 3 (add32 a.base a.used),
  and_low_mask 3 (sub32 8 (bit_and (add32 a.base a.used) 7)),
)

alloc_full :
    (a : Arena) (n : ℕ)
    → IsValid a
    → n < u32_size
    → padding a < 8
    → a.size < a.used + padding a + n
    → arena_alloc a n ≡ (none, a)
unfolding arena_alloc
alloc_full a n v small less full = ground (arith, v.in_memory, v.within)

alloc_fits :
    (a : Arena) (n : ℕ)
    → IsValid a
    → n < u32_size
    → padding a < 8
    → a.used + padding a + n ≤ a.size
    → arena_alloc a n
      ≡ (some (a.base + a.used + padding a), record a { used = a.used + padding a + n })
unfolding arena_alloc
alloc_fits a n v small less fits = ground (arith, v.in_memory, v.within)

-- An allocation fails and changes nothing, or gives an aligned block that begins at or behind all
-- that was in use and ends exactly where the new use ends, inside the arena.
pub arena_alloc_lem :
    (a : Arena) (n : ℕ)
    → IsValid a
    → n < u32_size
    → ((arena_alloc a n ≡ (none, a)) × (a.size < a.used + padding a + n))
      ⊎ ((p : ℕ) × (a' : Arena) × (arena_alloc a n ≡ (some p, a'))
          × IsValid a'
          × (p % 8 ≡ 0)
          × (a.base + a.used ≤ p)
          × (p + n ≡ a.base + a'.used)
          × (a'.base ≡ a.base)
          × (a'.size ≡ a.size))
arena_alloc_lem a n v small =
    let (less, aligned) = padding_lem a v in
    let pad : ℕ = padding a in
    elim (dec_lt a.size (a.used + pad + n)) [
      | yes full ↦ inl (alloc_full a n v small less full, full)
      | no fits ↦ inr (
        a.base + a.used + pad,
        record a { used = a.used + pad + n },
        alloc_fits a n v small less (omega arith),
        record { in_memory = v.in_memory; within = omega arith },
        aligned,
        omega arith,
        omega arith,
        refl,
        refl,
      )
    ]
