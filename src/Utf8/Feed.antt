-- ===== src/Utf8/Feed.antt =====
-- `__utf8_feed` and `utf8_encode` as arithmetic.
use ceres_standard_library.Prelude.{
  ℕ, ◌+◌, ◌-◌, ◌*◌, ◌/◌, ◌%◌, ◌≤◌, ◌<◌, ◌≡◌, ◌⊎◌, arith, bit_and, bit_or, [], ◌∷◌, ◌<<◌,
}
use ceres_standard_library.Prelude.Bits.{or_as_sum, and_low_mask}
use ceres_standard_library.Utf8.{
  Mbstate, complete, more, low_limit, high_limit, feed_next, feed, utf8_encode,
}

-- a Unicode scalar value
abbrev pub IsScalar : ℕ → Type 0
IsScalar cp = (cp ≤ 0x10FFFF) × ((cp < 0xD800) ⊎ (0xE000 ≤ cp))

pub join_bits :
    (bits b : ℕ) → bits < 0x400_0000 → bit_or (bits << 6) (bit_and b 0x3F) ≡ bits * 64 + b % 64
join_bits bits b h = ground (arith, and_low_mask 6 b, or_as_sum 6 bits (b % 64) (omega arith))

pub feed_middle :
    (st : Mbstate) (b : ℕ)
    → st.bits < 0x400_0000
    → 2 ≤ st.need
    → low_limit st.lead ≤ b
    → b ≤ high_limit st.lead
    → feed st b ≡ (record { need = st.need - 1; bits = st.bits * 64 + b % 64; lead = 0 }, more)
unfolding feed_next
feed_middle st b hb hn lo hi = unfold feed in ground (arith, join_bits st.bits b)

pub feed_last :
    (st : Mbstate) (b : ℕ)
    → st.bits < 0x400_0000
    → st.need ≡ 1
    → low_limit st.lead ≤ b
    → b ≤ high_limit st.lead
    → feed st b ≡ (record { need = 0; bits = 0; lead = 0 }, complete (st.bits * 64 + b % 64))
feed_last st b hb hn lo hi = unfold feed in ground (arith, join_bits st.bits b)

pub encode_one : (cp : ℕ) → cp < 0x80 → utf8_encode cp ≡ cp ∷ []
unfolding utf8_encode
encode_one cp h = ground arith

pub encode_two :
    (cp : ℕ) → 0x80 ≤ cp → cp < 0x800 → utf8_encode cp ≡ (0xC0 + cp / 64) ∷ (0x80 + cp % 64) ∷ []
unfolding utf8_encode
encode_two cp lo hi = ground (
  arith,
  or_as_sum 6 3 (cp / 64) (omega arith),
  and_low_mask 6 cp,
  or_as_sum 6 2 (cp % 64) (omega arith),
)

pub encode_three :
    (cp : ℕ)
    → 0x800 ≤ cp
    → cp < 0x10000
    → (cp < 0xD800) ⊎ (0xE000 ≤ cp)
    → utf8_encode cp ≡ (0xE0 + cp / 4096) ∷ (0x80 + cp / 64 % 64) ∷ (0x80 + cp % 64) ∷ []
unfolding utf8_encode
encode_three cp lo hi s = ground (
  arith,
  or_as_sum 4 14 (cp / 4096) (omega arith),
  and_low_mask 6 (cp / 64),
  or_as_sum 6 2 (cp / 64 % 64) (omega arith),
  and_low_mask 6 cp,
  or_as_sum 6 2 (cp % 64) (omega arith),
)

pub encode_four :
    (cp : ℕ)
    → 0x10000 ≤ cp
    → cp ≤ 0x10FFFF
    → utf8_encode cp
      ≡ (0xF0 + cp / 262144)
        ∷ (0x80 + cp / 4096 % 64)
        ∷ (0x80 + cp / 64 % 64)
        ∷ (0x80 + cp % 64)
        ∷ []
unfolding utf8_encode
encode_four cp lo hi = ground (
  arith,
  or_as_sum 3 30 (cp / 262144) (omega arith),
  and_low_mask 6 (cp / 4096),
  or_as_sum 6 2 (cp / 4096 % 64) (omega arith),
  and_low_mask 6 (cp / 64),
  or_as_sum 6 2 (cp / 64 % 64) (omega arith),
  and_low_mask 6 cp,
  or_as_sum 6 2 (cp % 64) (omega arith),
)
