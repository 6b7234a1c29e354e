-- ===== src/Arena/Tests.antt =====
-- Runs of the arena, and its theorem at an input.
use ceres_standard_library.Prelude.{ℕ, ◌+◌, ◌%◌, ◌<◌, ◌≤◌, ◌≡◌, ◌⊎◌, refl, arith, none, some, false}
use ceres_standard_library.Arena.{Arena, padding, arena_alloc, arena_release}
use ceres_standard_library.Arena.Bounds.{IsValid, arena_alloc_lem}

abbrev scratch : Arena
scratch = record { base = 0x1004; size = 32; used = 5; owned = false }

runs :
    ((arena_alloc scratch 10).0 ≡ some 0x1010)
    × ((arena_alloc scratch 10).1.used ≡ 22)
    × (arena_alloc scratch 21 ≡ (none, scratch))
    × ((arena_release scratch 9).used ≡ 5)
unfolding arena_alloc arena_release
runs = (refl, refl, refl, refl)

arena_alloc_lem_example :
    ((arena_alloc scratch 10 ≡ (none, scratch)) × (32 < 5 + padding scratch + 10))
    ⊎ ((p : ℕ) × (a' : Arena) × (arena_alloc scratch 10 ≡ (some p, a'))
        × IsValid a'
        × (p % 8 ≡ 0)
        × (0x1004 + 5 ≤ p)
        × (p + 10 ≡ 0x1004 + a'.used)
        × (a'.base ≡ 0x1004)
        × (a'.size ≡ 32))
arena_alloc_lem_example = arena_alloc_lem scratch 10 (omega arith) (omega arith)
