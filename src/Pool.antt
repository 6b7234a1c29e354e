-- ===== src/Pool.antt =====
-- src/ceres/pool.c: the pool of blocks of one size. Addresses are 32-bit words and NULL is 0; the
-- memory gives the word at an address. A free block's first word is the next free block.
pub mod Reuse
mod Tests
use ceres_standard_library.Prelude.{
  ℕ, ◌+◌, ◌-◌, ◌*◌, ◌/◌, ◌%◌, bit_and, Bool, true, false, not, ◌&&◌, ◌||◌, ltb, leb, ◌==◌,
  if◌then◌else◌, add32, sub32, mul32,
}

pub record Pool : Type 0 where
  pub base : ℕ
  pub item : ℕ
  pub count : ℕ
  pub used : ℕ
  pub fresh : ℕ
  pub free_list : ℕ

abbrev pub Words : Type 0
Words = ℕ → ℕ

pub store : Words → ℕ → ℕ → Words
store words p v q = if q == p then v else words q

-- `buf` is the address of the memory
pub pool_init : ℕ → ℕ → ℕ → Pool
pool_init buf item_size count =
    let size = if ltb item_size 4 then 4 else item_size in
    record {
      base = buf;
      item = bit_and (add32 size 3) 0xFFFF_FFFC;
      count = count;
      used = 0;
      fresh = count;
      free_list = 0;
    }

-- the block, 0 for NULL, and the pool as it is left; the memory is only read
pub pool_alloc : Words → Pool → ℕ × Pool
pool_alloc words p =
    if not (p.free_list == 0)
    then (p.free_list, record p { free_list = words p.free_list; used = add32 p.used 1 })
    else if p.fresh == 0
    then (0, p)
    else (
      add32 p.base (mul32 (sub32 p.count p.fresh) p.item),
      record p { fresh = sub32 p.fresh 1; used = add32 p.used 1 },
    )

-- An address that is not a block of the pool is ignored.
pub pool_free : Words → Pool → ℕ → Words × Pool
unfolding store
pool_free words p item =
    let offset = sub32 item p.base in
    if item == 0
    then (words, p)
    else if ltb item p.base || (leb (mul32 p.count p.item) offset || not (offset % p.item == 0))
    then (words, p)
    else (store words item p.free_list, record p { free_list = item; used = sub32 p.used 1 })

pub pool_full : Pool → Bool
pool_full p = p.free_list == 0 && (p.fresh == 0)

pub pool_used : Pool → ℕ
pool_used p = p.used

pub pool_clear : Pool → Pool
pool_clear p = record p { used = 0; fresh = p.count; free_list = 0 }
