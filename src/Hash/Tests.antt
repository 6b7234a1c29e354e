-- ===== src/Hash/Tests.antt =====
-- The check values of the checksums, on the text "123456789".
use ceres_standard_library.Prelude.{ℕ, ◌≡◌, refl, List, [], ◌∷◌, ◌++◌, arith}
use ceres_standard_library.Hash.Adler.{adler_by_bytes, hash_adler32-adler_by_bytes}
use ceres_standard_library.Hash.Crc.{
  crc_by_bits, AllBytes, hash_crc32-crc_by_bits, hash_crc32_update-append,
}
use ceres_standard_library.Hash.{
  hash_fnv1a, hash_djb2, hash_murmur3, hash_crc32, hash_crc32_update, hash_adler32,
}

abbrev digits : List ℕ
digits = 49 ∷ 50 ∷ 51 ∷ 52 ∷ 53 ∷ 54 ∷ 55 ∷ 56 ∷ 57 ∷ []

check_values :
    (hash_crc32 digits ≡ 0xCBF43926)
    × (hash_adler32 digits ≡ 0x091E01DE)
    × (hash_fnv1a (97 ∷ []) ≡ 0xE40C292C)
    × (hash_murmur3 [] 0 ≡ 0)
    × (hash_djb2 [] ≡ 5381)
unfolding hash_fnv1a hash_djb2 hash_murmur3 hash_crc32 hash_adler32
check_values = (refl, refl, refl, refl, refl)

digits-AllBytes : AllBytes digits
digits-AllBytes = omega arith

hash_crc32-crc_by_bits_example : hash_crc32 digits ≡ crc_by_bits digits
hash_crc32-crc_by_bits_example = hash_crc32-crc_by_bits digits digits-AllBytes

hash_crc32_update-append_example :
    hash_crc32_update (hash_crc32_update 0 digits) (48 ∷ [])
    ≡ hash_crc32_update 0 (digits ++ 48 ∷ [])
hash_crc32_update-append_example =
    hash_crc32_update-append 0 digits (48 ∷ []) (omega arith) digits-AllBytes

hash_adler32-adler_by_bytes_example : hash_adler32 digits ≡ adler_by_bytes digits
hash_adler32-adler_by_bytes_example = hash_adler32-adler_by_bytes digits digits-AllBytes
