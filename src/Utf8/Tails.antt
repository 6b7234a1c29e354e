-- ===== src/Utf8/Tails.antt =====
-- Which bytes the loop of `utf8_decode` read before it returned a character.
use ceres_standard_library.Prelude.{
  ℕ, zero, suc, ◌+◌, ◌-◌, ◌*◌, ◌%◌, ◌≤◌, ◌<◌, ◌≡◌, ◌⊎◌, refl, arith, List, [], ◌∷◌, ap,
}
use ceres_standard_library.Prelude.Bits.{and_low_mask}
use ceres_standard_library.Utf8.{
  Mbstate, low_limit, high_limit, feed_first, feed_next, feed, char, initial, decode_loop,
}
use ceres_standard_library.Utf8.Feed.{join_bits}

-- Three tails: what the loop has read when one, two or three bytes were still needed.
abbrev pub ReadsOne : ℕ → ℕ → ℕ → List ℕ → ℕ → ℕ → Type 0
ReadsOne lo hi bits s cp used =
    (b : ℕ) × (rest : List ℕ) × (s ≡ b ∷ rest)
    × (lo ≤ b)
    × (b ≤ hi)
    × (cp ≡ bits * 64 + b % 64)
    × (used ≡ 1)

abbrev pub ReadsTwo : ℕ → ℕ → ℕ → List ℕ → ℕ → ℕ → Type 0
ReadsTwo lo hi bits s cp used =
    (b : ℕ) × (c : ℕ) × (rest : List ℕ) × (s ≡ b ∷ c ∷ rest)
    × (lo ≤ b)
    × (b ≤ hi)
    × (0x80 ≤ c)
    × (c ≤ 0xBF)
    × (cp ≡ (bits * 64 + b % 64) * 64 + c % 64)
    × (used ≡ 2)

abbrev pub ReadsThree : ℕ → ℕ → ℕ → List ℕ → ℕ → ℕ → Type 0
ReadsThree lo hi bits s cp used =
    (b : ℕ) × (c : ℕ) × (d : ℕ) × (rest : List ℕ) × (s ≡ b ∷ c ∷ d ∷ rest)
    × (lo ≤ b)
    × (b ≤ hi)
    × (0x80 ≤ c)
    × (c ≤ 0xBF)
    × (0x80 ≤ d)
    × (d ≤ 0xBF)
    × (cp ≡ ((bits * 64 + b % 64) * 64 + c % 64) * 64 + d % 64)
    × (used ≡ 3)

middle :
    (lead bits need rounds : ℕ) (b : ℕ) (s : List ℕ) (i cp k : ℕ)
    → bits < 0x400_0000
    → 2 ≤ need
    → decode_loop (suc rounds) (record { need = need; bits = bits; lead = lead }) (b ∷ s) i
      ≡ char cp k
    → (low_limit lead ≤ b)
      × (b ≤ high_limit lead)
      × (decode_loop rounds
            (record { need = need - 1; bits = bits * 64 + b % 64; lead = 0 })
            s
            (i + 1)
          ≡ char cp k)
unfolding decode_loop feed feed_next
middle lead bits need rounds b s i cp k small two h = (
  ground (arith, join_bits bits b small),
  ground (arith, join_bits bits b small),
  ground (arith, join_bits bits b small),
)

pub tail_one :
    (lead bits rounds : ℕ) (s : List ℕ) (i cp k : ℕ)
    → bits < 0x400_0000
    → decode_loop rounds (record { need = 1; bits = bits; lead = lead }) s i ≡ char cp k
    → ReadsOne (low_limit lead) (high_limit lead) bits s cp (k - i)
unfolding decode_loop feed feed_next
tail_one lead bits zero s i cp k small h = cc
tail_one lead bits (suc r) [] i cp k small h = cc
tail_one lead bits (suc r) (b ∷ s) i cp k small h = (
  b,
  s,
  refl,
  ground (arith, join_bits bits b small),
  ground (arith, join_bits bits b small),
  ground (arith, join_bits bits b small),
  ground (arith, join_bits bits b small),
)

pub limits_middle : (low_limit 0 ≡ 0x80) × (high_limit 0 ≡ 0xBF)
unfolding low_limit high_limit
limits_middle = (refl, refl)

pub tail_two :
    (lead bits rounds : ℕ) (s : List ℕ) (i cp k : ℕ)
    → bits < 0x10_0000
    → decode_loop rounds (record { need = 2; bits = bits; lead = lead }) s i ≡ char cp k
    → ReadsTwo (low_limit lead) (high_limit lead) bits s cp (k - i)
tail_two lead bits zero s i cp k small h = unfold decode_loop in cc
tail_two lead bits (suc r) [] i cp k small h = unfold decode_loop in cc
tail_two lead bits (suc r) (b ∷ s) i cp k small h =
    let (lo, hi, rest) = middle lead bits 2 r b s i cp k (omega arith) (omega arith) h in
    let (c, t, e, lo', hi', value, used) =
      tail_one 0 (bits * 64 + b % 64) r s (i + 1) cp k (omega arith) rest in
    (
      b,
      c,
      t,
      ap (λ (u : List ℕ). b ∷ u) e,
      lo,
      hi,
      omega (arith, limits_middle),
      omega (arith, limits_middle),
      value,
      omega arith,
    )

pub tail_three :
    (lead bits rounds : ℕ) (s : List ℕ) (i cp k : ℕ)
    → bits < 0x4000
    → decode_loop rounds (record { need = 3; bits = bits; lead = lead }) s i ≡ char cp k
    → ReadsThree (low_limit lead) (high_limit lead) bits s cp (k - i)
tail_three lead bits zero s i cp k small h = unfold decode_loop in cc
tail_three lead bits (suc r) [] i cp k small h = unfold decode_loop in cc
tail_three lead bits (suc r) (b ∷ s) i cp k small h =
    let (lo, hi, rest) = middle lead bits 3 r b s i cp k (omega arith) (omega arith) h in
    let (c, d, t, e, lo', hi', lo'', hi'', value, used) =
      tail_two 0 (bits * 64 + b % 64) r s (i + 1) cp k (omega arith) rest in
    (
      b,
      c,
      d,
      t,
      ap (λ (u : List ℕ). b ∷ u) e,
      lo,
      hi,
      omega (arith, limits_middle),
      omega (arith, limits_middle),
      lo'',
      hi'',
      value,
      omega arith,
    )

-- What the first byte says, when the loop does not give up on it.
pub first :
    (rounds b : ℕ) (s : List ℕ) (cp k : ℕ)
    → decode_loop (suc rounds) initial (b ∷ s) 0 ≡ char cp k
    → ((b < 0x80) × (cp ≡ b) × (k ≡ 1))
      ⊎ ((0xC2 ≤ b)
          × (b ≤ 0xDF)
          × (decode_loop rounds (record { need = 1; bits = b - 0xC0; lead = b }) s 1 ≡ char cp k))
      ⊎ ((0xE0 ≤ b)
          × (b ≤ 0xEF)
          × (decode_loop rounds (record { need = 2; bits = b - 0xE0; lead = b }) s 1 ≡ char cp k))
      ⊎ ((0xF0 ≤ b)
          × (b ≤ 0xF4)
          × (decode_loop rounds (record { need = 3; bits = b - 0xF0; lead = b }) s 1 ≡ char cp k))
unfolding decode_loop feed feed_first
first rounds b s cp k h = ground (arith, and_low_mask 5 b, and_low_mask 4 b, and_low_mask 3 b)

pub used-le :
    (rounds : ℕ) (st : Mbstate) (s : List ℕ) (i cp k : ℕ)
    → decode_loop rounds st s i ≡ char cp k
    → k ≤ i + rounds
unfolding decode_loop
used-le zero st s i cp k h = cc
used-le (suc r) st [] i cp k h = cc
used-le (suc r) st (b ∷ s) i cp k h = ground (arith, used-le r (feed st b).0 s (i + 1) cp k)
