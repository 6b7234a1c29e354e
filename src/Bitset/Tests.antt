-- ===== src/Bitset/Tests.antt =====
-- A Bloom filter of 64 bits with three hashes.
use ceres_standard_library.Prelude.{ℕ, ◌≡◌, arith, List, [], ◌∷◌, true}
use ceres_standard_library.Bitset.{Bloom, bloom_add, bloom_maybe_has}
use ceres_standard_library.Bitset.Filter.{IsFilter, bloom_add_lem}

abbrev filter : Bloom
filter = record { bits = record { w = 0 ∷ 0 ∷ []; nbits = 64 }; k = 3 }

bloom_add_lem_example :
    IsFilter (bloom_add filter (97 ∷ []))
    × (bloom_maybe_has (bloom_add filter (97 ∷ [])) (97 ∷ []) ≡ true)
    × ((other : List ℕ)
        → bloom_maybe_has filter other ≡ true
        → bloom_maybe_has (bloom_add filter (97 ∷ [])) other ≡ true)
bloom_add_lem_example =
    bloom_add_lem filter (97 ∷ []) (record { some_bits = omega arith; enough = omega arith })
