-- ===== src/Bitset.antt =====
-- src/ceres/ds/bitset.c, its inline functions in include/ceres/ds/bitset.h, and bloom.c. The set is
-- the list of its words. `popcount` and `ctz` are the machine's instructions.
pub mod Bits
pub mod Filter
mod Tests
use ceres_standard_library.Prelude.{
  ℕ, zero, suc, ◌+◌, ◌-◌, ◌/◌, ◌%◌, bit_and, bit_or, bit_xor, Bool, true, false, Option, none, some,
  List, get_or, set, ltb, ◌==◌, if◌then◌else◌, u32_max, add32, mul32, ◌<<◌, ◌>>◌,
}
use ceres_standard_library.Hash.{hash_fnv1a, hash_murmur3}

pub record Bitset : Type 0 where
  pub w : List ℕ
  pub nbits : ℕ

pub bitset_words : ℕ → ℕ
bitset_words nbits = nbits / 32 + (if nbits % 32 == 0 then 0 else 1)

-- `for (i = i; i < words; i++) s->w[i] = value`, with `left` words to go
pub fill : ℕ → ℕ → ℕ → List ℕ → List ℕ
fill zero i value w = w
fill (suc left) i value w = fill left (i + 1) value (set w i value)

pub bitset_clear_all : Bitset → Bitset
unfolding bitset_words fill
bitset_clear_all s = record s { w = fill (bitset_words s.nbits) 0 0 s.w }

pub bitset_init : List ℕ → ℕ → Bitset
unfolding bitset_clear_all
bitset_init words nbits = bitset_clear_all (record { w = words; nbits = nbits })

pub bitset_set_all : Bitset → Bitset
unfolding bitset_words fill
bitset_set_all s =
    let words = bitset_words s.nbits in
    let w = fill words 0 u32_max s.w in
    let tail = bit_and s.nbits 31 in
    record s { w = if tail == 0 then w else set w (words - 1) ((1 << tail) - 1) }

pub bitset_get : Bitset → ℕ → ℕ
bitset_get s i = bit_and (get_or s.w (i >> 5) 0 >> bit_and i 31) 1

pub bitset_set : Bitset → ℕ → Bitset
bitset_set s i = record s {
  w = set s.w (i >> 5) (bit_or (get_or s.w (i >> 5) 0) (1 << bit_and i 31));
}

pub bitset_clear : Bitset → ℕ → Bitset
bitset_clear s i = record s {
  w = set s.w (i >> 5) (bit_and (get_or s.w (i >> 5) 0) (u32_max - (1 << bit_and i 31)));
}

pub bitset_toggle : Bitset → ℕ → Bitset
bitset_toggle s i = record s {
  w = set s.w (i >> 5) (bit_xor (get_or s.w (i >> 5) 0) (1 << bit_and i 31));
}

module _ (popcount ctz : ℕ → ℕ) where
  -- the loops at word `i`, with `left` words to go
  pub count_from : ℕ → ℕ → List ℕ → ℕ → ℕ
  count_from zero i w n = n
  count_from (suc left) i w n = count_from left (i + 1) w (add32 n (popcount (get_or w i 0)))

  pub bitset_count : Bitset → ℕ
  unfolding count_from bitset_words
  bitset_count s = count_from (bitset_words s.nbits) 0 s.w 0

  -- -1 is `none`
  pub find_set_from : ℕ → ℕ → Bitset → Option ℕ
  find_set_from zero i s = none
  find_set_from (suc left) i s =
      let word = get_or s.w i 0 in
      let bit = add32 (mul32 i 32) (ctz word) in
      let rest = find_set_from left (i + 1) s in
      if word == 0 then rest else if ltb bit s.nbits then some bit else none

  pub bitset_find_first_set : Bitset → Option ℕ
  unfolding find_set_from bitset_words
  bitset_find_first_set s = find_set_from (bitset_words s.nbits) 0 s

  pub find_clear_from : ℕ → ℕ → Bitset → Option ℕ
  find_clear_from zero i s = none
  find_clear_from (suc left) i s =
      let word = get_or s.w i 0 in
      let bit = add32 (mul32 i 32) (ctz (u32_max - word)) in
      let rest = find_clear_from left (i + 1) s in
      if word == u32_max then rest else if ltb bit s.nbits then some bit else none

  pub bitset_find_first_clear : Bitset → Option ℕ
  unfolding find_clear_from bitset_words
  bitset_find_first_clear s = find_clear_from (bitset_words s.nbits) 0 s

-- bloom.c
pub record Bloom : Type 0 where
  pub bits : Bitset
  pub k : ℕ

pub bloom_init : List ℕ → ℕ → ℕ → Bloom
unfolding bitset_init
bloom_init words nbits k = record { bits = bitset_init words nbits; k = if k == 0 then 1 else k }

pub bloom_clear : Bloom → Bloom
unfolding bitset_clear_all
bloom_clear b = record b { bits = bitset_clear_all b.bits }

pub two_hashes : List ℕ → ℕ × ℕ
two_hashes item =
    let h1 = hash_fnv1a item in
    let h2 = hash_murmur3 item h1 in (h1, if bit_and h2 1 == 0 then add32 h2 1 else h2)

abbrev pub probe : Bloom → List ℕ → ℕ → ℕ
probe b item i = let (h1, h2) = two_hashes item in add32 h1 (mul32 i h2) % b.bits.nbits

-- the loops at round `i`, with `left` rounds to go
pub add_from : ℕ → ℕ → Bloom → List ℕ → Bitset → Bitset
add_from zero i b item s = s
add_from (suc left) i b item s = add_from left (i + 1) b item (bitset_set s (probe b item i))

pub bloom_add : Bloom → List ℕ → Bloom
unfolding add_from
bloom_add b item = if b.bits.nbits == 0 then b else record b { bits = add_from b.k 0 b item b.bits }

pub has_from : ℕ → ℕ → Bloom → List ℕ → Bool
has_from zero i b item = true
has_from (suc left) i b item =
    let rest = has_from left (i + 1) b item in
    if bitset_get b.bits (probe b item i) == 0 then false else rest

pub bloom_maybe_has : Bloom → List ℕ → Bool
unfolding has_from
bloom_maybe_has b item = if b.bits.nbits == 0 then false else has_from b.k 0 b item
