-- ===== src/Hash.antt =====
-- src/ceres/hash.c: hashes and checksums over the bytes of an object.
pub mod Tables
pub mod Adler
pub mod Crc
mod Tests
use Tables.{crc32_table}
use ceres_standard_library.Prelude.{
  ℕ, zero, suc, ◌+◌, ◌-◌, ◌*◌, ◌/◌, ◌%◌, bit_and, bit_or, bit_xor, Bool, true, false, List, [], ◌∷◌,
  length, get_or, take, drop, ltb, ◌==◌, if◌then◌else◌, u32, u32_max, add32, mul32, ◌<<◌, ◌>>◌, min,
}

pub fnv1a_loop : List ℕ → ℕ → ℕ
fnv1a_loop [] h = h
fnv1a_loop (b ∷ bytes) h = fnv1a_loop bytes (mul32 (bit_xor h b) 16777619)

pub hash_fnv1a : List ℕ → ℕ
unfolding fnv1a_loop
hash_fnv1a bytes = fnv1a_loop bytes 0x811C9DC5

pub djb2_loop : List ℕ → ℕ → ℕ
djb2_loop [] h = h
djb2_loop (b ∷ bytes) h = djb2_loop bytes (u32 (h * 33 + b))

-- The list is the string before its terminator.
pub hash_djb2 : List ℕ → ℕ
unfolding djb2_loop
hash_djb2 s = djb2_loop s 5381

-- `bit_rotl` at a count below 32
pub bit_rotl : ℕ → ℕ → ℕ
bit_rotl x n = bit_or (x << n) (x >> (32 - n))

pub murmur_mix : ℕ → ℕ
unfolding bit_rotl
murmur_mix k = mul32 (bit_rotl (mul32 k 0xCC9E2D51) 15) 0x1B873593

pub murmur_block : List ℕ → ℕ → ℕ
murmur_block s i =
    bit_or
      (bit_or (bit_or (get_or s (4 * i) 0) (get_or s (4 * i + 1) 0 << 8))
        (get_or s (4 * i + 2) 0 << 16))
      (get_or s (4 * i + 3) 0 << 24)

pub murmur_blocks : ℕ → List ℕ → ℕ → ℕ → ℕ
unfolding murmur_mix murmur_block bit_rotl
murmur_blocks zero s i h = h
murmur_blocks (suc left) s i h =
    murmur_blocks left s (i + 1)
      (u32 (bit_rotl (bit_xor h (murmur_mix (murmur_block s i))) 13 * 5 + 0xE6546B64))

-- the `switch` on `n & 3`, whose cases fall through
pub murmur_tail : List ℕ → ℕ → ℕ → ℕ
unfolding murmur_mix
murmur_tail tail count h =
    let k3 = if count == 3 then get_or tail 2 0 << 16 else 0 in
    let k2 = if ltb 1 count then bit_xor k3 (get_or tail 1 0 << 8) else k3 in
    if count == 0 then h else bit_xor h (murmur_mix (bit_xor k2 (get_or tail 0 0)))

pub murmur_final : ℕ → ℕ
murmur_final h =
    let a = mul32 (bit_xor h (h >> 16)) 0x85EBCA6B in
    let b = mul32 (bit_xor a (a >> 13)) 0xC2B2AE35 in bit_xor b (b >> 16)

pub hash_murmur3 : List ℕ → ℕ → ℕ
unfolding murmur_blocks murmur_tail murmur_final
hash_murmur3 s seed =
    let n = length s in
    let blocks = n / 4 in
    let h = murmur_blocks blocks s 0 seed in
    murmur_final (bit_xor (murmur_tail (drop (blocks * 4) s) (bit_and n 3) h) (u32 n))

-- `~x` of a 32-bit word
abbrev pub not32 : ℕ → ℕ
not32 x = u32_max - x

pub crc_loop : List ℕ → ℕ → ℕ
crc_loop [] c = c
crc_loop (b ∷ bytes) c =
    crc_loop bytes (bit_xor (get_or crc32_table (bit_and (bit_xor c b) 255) 0) (c >> 8))

pub hash_crc32_update : ℕ → List ℕ → ℕ
unfolding crc_loop
hash_crc32_update crc bytes = not32 (crc_loop bytes (not32 crc))

pub hash_crc32 : List ℕ → ℕ
unfolding hash_crc32_update
hash_crc32 bytes = hash_crc32_update 0 bytes

-- the inner loop of `hash_adler32`: the sums and the bytes behind the chunk
pub adler_chunk : ℕ → List ℕ → ℕ → ℕ → ℕ × ℕ
adler_chunk zero bytes a b = (a, b)
adler_chunk (suc left) [] a b = (a, b)
adler_chunk (suc left) (x ∷ bytes) a b =
    let a' = add32 a x in adler_chunk left bytes a' (add32 b a')

-- A chunk takes a byte at least, so as many rounds as bytes are enough.
pub adler_loop : ℕ → List ℕ → ℕ → ℕ → ℕ × ℕ
unfolding adler_chunk
adler_loop zero bytes a b = (a, b)
adler_loop (suc fuel) [] a b = (a, b)
adler_loop (suc fuel) (x ∷ bytes) a b =
    let chunk = min (length (x ∷ bytes)) 5552 in
    let (a', b') = adler_chunk chunk (x ∷ bytes) a b in
    adler_loop fuel (drop chunk (x ∷ bytes)) (a' % 65521) (b' % 65521)

pub hash_adler32 : List ℕ → ℕ
unfolding adler_loop
hash_adler32 bytes = let (a, b) = adler_loop (length bytes) bytes 1 0 in bit_or (b << 16) a
