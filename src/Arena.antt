-- ===== src/Arena.antt =====
-- src/ceres/arena.c: the linear allocator. Addresses are 32-bit words, NULL is `none`; memory is a
-- function from addresses to bytes.
pub mod Bounds
mod Tests
use ceres_standard_library.Prelude.{
  ℕ, zero, suc, ◌+◌, ◌-◌, bit_and, Bool, true, false, Option, none, some, List, [], ◌∷◌, length,
  ltb, leb, ◌==◌, ◌||◌, ◌++◌, if◌then◌else◌, add32, sub32,
}

pub record Arena : Type 0 where
  pub base : ℕ
  pub size : ℕ
  pub used : ℕ
  pub owned : Bool

abbrev pub Memory : Type 0
Memory = ℕ → ℕ

pub arena_init : ℕ → ℕ → Arena
arena_init buf size = record { base = buf; size = size; used = 0; owned = false }

-- `mem` is what `malloc` returned.
pub arena_init_heap : Option ℕ → ℕ → Bool × Arena
unfolding arena_init
arena_init_heap none size = (false, record { base = 0; size = 0; used = 0; owned = false })
arena_init_heap (some mem) size = (true, record (arena_init mem size) { owned = true })

abbrev pub padding : Arena → ℕ
padding a = bit_and (sub32 8 (bit_and (add32 a.base a.used) 7)) 7

pub arena_alloc : Arena → ℕ → Option ℕ × Arena
arena_alloc a n =
    let pad = padding a in
    if ltb a.size n || ltb (sub32 a.size a.used) pad || ltb (sub32 (sub32 a.size a.used) pad) n
    then (none, a)
    else let used = add32 a.used pad in (some (add32 a.base used), record a { used = add32 used n })

-- `memcpy(p, bytes, n)`, with the bytes as a list
pub write_bytes : Memory → ℕ → List ℕ → Memory
write_bytes m p [] = m
write_bytes m p (b ∷ bytes) =
    let rest = write_bytes m (p + 1) bytes in λ q. if q == p then b else rest q

abbrev pub zeros : ℕ → List ℕ
zeros zero = []
zeros (suc n) = 0 ∷ zeros n

pub arena_alloc_zero : Memory → Arena → ℕ → Option ℕ × Arena × Memory
unfolding arena_alloc write_bytes
arena_alloc_zero m a n =
    let (p, a') = arena_alloc a n in
    elim p [ none ↦ (none, a', m) | some q ↦ (some q, a', write_bytes m q (zeros n)) ]

-- `s` is the string before its terminator.
pub arena_strdup : Memory → Arena → List ℕ → Option ℕ × Arena × Memory
unfolding arena_alloc write_bytes
arena_strdup m a s =
    let (p, a') = arena_alloc a (add32 (length s) 1) in
    elim p [ none ↦ (none, a', m) | some q ↦ (some q, a', write_bytes m q (s ++ 0 ∷ [])) ]

pub arena_mark : Arena → ℕ
arena_mark a = a.used

pub arena_release : Arena → ℕ → Arena
arena_release a mark = if leb mark a.used then record a { used = mark } else a

pub arena_reset : Arena → Arena
arena_reset a = record a { used = 0 }

pub arena_left : Arena → ℕ
arena_left a = sub32 a.size a.used

-- with the address that goes to `free`, if one does
pub arena_destroy : Arena → Option ℕ × Arena
arena_destroy a =
    (if a.owned then some a.base else none, record { base = 0; size = 0; used = 0; owned = false })
