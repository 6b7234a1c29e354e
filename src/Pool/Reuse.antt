-- ===== src/Pool/Reuse.antt =====
-- A freed block is the next one handed out.
use ceres_standard_library.Prelude.{ℕ, ◌+◌, ◌-◌, ◌*◌, ◌%◌, ◌<◌, ◌≤◌, ◌≡◌, arith, ◌∙◌, ap}
use ceres_standard_library.Pool.{Words, Pool, store, pool_alloc, pool_free}

-- a block of the pool: its address is that of the memory and a number of whole blocks
pub record IsBlock (p : Pool) (item : ℕ) : Type 0 where
  pub in_memory : p.base + p.count * p.item < 0x1_0000_0000
  pub not_null : 0 < item
  pub behind : p.base ≤ item
  pub before_end : item < p.base + p.count * p.item
  pub whole : (item - p.base) % p.item ≡ 0

freed :
    (words : Words) (p : Pool) (item : ℕ)
    → IsBlock p item
    → pool_free words p item ≡ (
      store words item p.free_list,
      record p { free_list = item; used = (p.used + 0xFFFF_FFFF) % 0x1_0000_0000 },
    )
unfolding pool_free
freed words p item v = ground (arith, v.in_memory, v.not_null, v.behind, v.before_end, v.whole)

reused :
    (words : Words) (p : Pool) (item : ℕ)
    → 0 < item
    → 0 < p.used
    → p.used < 0x1_0000_0000
    → pool_alloc
        (store words item p.free_list)
        (record p { free_list = item; used = (p.used + 0xFFFF_FFFF) % 0x1_0000_0000 })
      ≡ (item, p)
unfolding pool_alloc store
reused words p item pos busy word = ground arith

-- Freeing a block of a pool in memory that has blocks in use, and allocating one, gives the same
-- block and leaves the pool as it was.
pub pool_alloc-pool_free :
    (words : Words) (p : Pool) (item : ℕ)
    → IsBlock p item
    → 0 < p.used
    → p.used < 0x1_0000_0000
    → pool_alloc (pool_free words p item).0 (pool_free words p item).1 ≡ (item, p)
pool_alloc-pool_free words p item v busy word =
    ap (λ s. pool_alloc s.0 s.1) (freed words p item v) ∙ reused words p item v.not_null busy word
