-- ===== src/Pool/Tests.antt =====
-- A pool of four blocks with two in use.
use ceres_standard_library.Prelude.{◌≡◌, refl, arith}
use ceres_standard_library.Pool.{Words, Pool, pool_alloc, pool_free}
use ceres_standard_library.Pool.Reuse.{IsBlock, pool_alloc-pool_free}

abbrev two_used : Pool
two_used = record { base = 0x1000; item = 12; count = 4; used = 2; fresh = 2; free_list = 0 }

abbrev no_words : Words
no_words a = 0

second : IsBlock two_used 0x100C
second = record {
  in_memory = omega arith;
  not_null = omega arith;
  behind = omega arith;
  before_end = omega arith;
  whole = refl;
}

pool_alloc-pool_free_example :
    pool_alloc (pool_free no_words two_used 0x100C).0 (pool_free no_words two_used 0x100C).1
    ≡ (0x100C, two_used)
pool_alloc-pool_free_example =
    pool_alloc-pool_free no_words two_used 0x100C second (omega arith) (omega arith)
