-- ===== src/Utf8/Inversion.antt =====
-- What `utf8_decode` read when it returned a character.
use ceres_standard_library.Prelude.{
  ℕ, zero, suc, ◌+◌, ◌-◌, ◌*◌, ◌%◌, ◌≤◌, ◌<◌, ◌≡◌, inl, inr, arith, min, List, [], ◌∷◌, ◌++◌,
  length, drop,
}
use ceres_standard_library.Utf8.{
  low_limit, high_limit, char, initial, decode_loop, utf8_decode, utf8_encode,
}
use ceres_standard_library.Utf8.Feed.{IsScalar, encode_one, encode_two, encode_three, encode_four}
use ceres_standard_library.Utf8.Tails.{
  ReadsOne, ReadsTwo, ReadsThree, tail_one, tail_two, tail_three, first, used-le,
}

-- The character, its encoding and its length, once the bytes are known.
pub record Canonical (s : List ℕ) (cp k : ℕ) : Type 0 where
  pub scalar : IsScalar cp
  pub bytes : s ≡ utf8_encode cp ++ drop k s
  pub width : k ≡ length (utf8_encode cp)

one-Canonical : (b : ℕ) (t : List ℕ) → b < 0x80 → Canonical (b ∷ t) b 1
one-Canonical b t h = record {
  scalar = ground arith;
  bytes = rw (encode_one b h);
  width = rw (encode_one b h);
}

two-Canonical :
    (a b : ℕ) (t : List ℕ)
    → 0xC2 ≤ a
    → a ≤ 0xDF
    → 0x80 ≤ b
    → b ≤ 0xBF
    → Canonical (a ∷ b ∷ t) ((a - 0xC0) * 64 + b % 64) 2
two-Canonical a b t a1 a2 b1 b2 =
    let e = encode_two ((a - 0xC0) * 64 + b % 64) (omega arith) (omega arith) in
    record { scalar = ground arith; bytes = rw e (ground arith); width = rw e }

limits_two : (a : ℕ) → a < 0xE0 → (low_limit a ≡ 0x80) × (high_limit a ≡ 0xBF)
unfolding low_limit high_limit
limits_two a h = ground arith

three-Canonical :
    (a b c : ℕ) (t : List ℕ)
    → 0xE0 ≤ a
    → a ≤ 0xEF
    → low_limit a ≤ b
    → b ≤ high_limit a
    → 0x80 ≤ c
    → c ≤ 0xBF
    → Canonical (a ∷ b ∷ c ∷ t) (((a - 0xE0) * 64 + b % 64) * 64 + c % 64) 3
unfolding low_limit high_limit
three-Canonical a b c t a1 a2 b1 b2 c1 c2 =
    let e =
      encode_three (((a - 0xE0) * 64 + b % 64) * 64 + c % 64) (ground arith) (ground arith)
        (ground arith) in
    record { scalar = ground arith; bytes = rw e (ground arith); width = rw e }

four-Canonical :
    (a b c d : ℕ) (t : List ℕ)
    → 0xF0 ≤ a
    → a ≤ 0xF4
    → low_limit a ≤ b
    → b ≤ high_limit a
    → 0x80 ≤ c
    → c ≤ 0xBF
    → 0x80 ≤ d
    → d ≤ 0xBF
    → Canonical (a ∷ b ∷ c ∷ d ∷ t) ((((a - 0xF0) * 64 + b % 64) * 64 + c % 64) * 64 + d % 64) 4
unfolding low_limit high_limit
four-Canonical a b c d t a1 a2 b1 b2 c1 c2 d1 d2 =
    let e =
      encode_four ((((a - 0xF0) * 64 + b % 64) * 64 + c % 64) * 64 + d % 64) (ground arith)
        (ground arith) in
    record { scalar = ground arith; bytes = rw e (ground arith); width = rw e }

from_two :
    (a : ℕ) (s : List ℕ) (cp k : ℕ)
    → 0xC2 ≤ a
    → a ≤ 0xDF
    → ReadsOne (low_limit a) (high_limit a) (a - 0xC0) s cp (k - 1)
    → Canonical (a ∷ s) cp k
from_two a s cp k lo hi (b, t, e, b1, b2, value, used) =
    let k2 : k ≡ 2 = omega arith in
    rw (e, value, k2)
      (two-Canonical a b t lo hi (omega (arith, limits_two a)) (omega (arith, limits_two a)))

from_three :
    (a : ℕ) (s : List ℕ) (cp k : ℕ)
    → 0xE0 ≤ a
    → a ≤ 0xEF
    → ReadsTwo (low_limit a) (high_limit a) (a - 0xE0) s cp (k - 1)
    → Canonical (a ∷ s) cp k
from_three a s cp k lo hi (b, c, t, e, b1, b2, c1, c2, value, used) =
    let k3 : k ≡ 3 = omega arith in rw (e, value, k3) (three-Canonical a b c t lo hi b1 b2 c1 c2)

from_four :
    (a : ℕ) (s : List ℕ) (cp k : ℕ)
    → 0xF0 ≤ a
    → a ≤ 0xF4
    → ReadsThree (low_limit a) (high_limit a) (a - 0xF0) s cp (k - 1)
    → Canonical (a ∷ s) cp k
from_four a s cp k lo hi (b, c, d, t, e, b1, b2, c1, c2, d1, d2, value, used) =
    let k4 : k ≡ 4 = omega arith in
    rw (e, value, k4) (four-Canonical a b c d t lo hi b1 b2 c1 c2 d1 d2)

loop-Canonical :
    (rounds : ℕ) (s : List ℕ) (cp k : ℕ)
    → decode_loop rounds initial s 0 ≡ char cp k
    → Canonical s cp k
loop-Canonical zero s cp k h = unfold decode_loop in cc
loop-Canonical (suc r) [] cp k h = unfold decode_loop in cc
loop-Canonical (suc r) (a ∷ s) cp k h = elim (first r a s cp k h) [
  | inl (small, value, used) ↦ rw (value, used) (one-Canonical a s small)
  | inr (inl (lo, hi, g)) ↦
      from_two a s cp k lo hi (tail_one a (a - 0xC0) r s 1 cp k (omega arith) g)
  | inr (inr (inl (lo, hi, g))) ↦
      from_three a s cp k lo hi (tail_two a (a - 0xE0) r s 1 cp k (omega arith) g)
  | inr (inr (inr (lo, hi, g))) ↦
      from_four a s cp k lo hi (tail_three a (a - 0xF0) r s 1 cp k (omega arith) g)
]

loop_of_decode :
    (s : List ℕ) (n cp k : ℕ)
    → utf8_decode s n ≡ char cp k
    → decode_loop (min n 4) initial s 0 ≡ char cp k
unfolding utf8_decode
loop_of_decode s n cp k h = ground arith

-- What `utf8_decode` accepts is a Unicode scalar value in its own encoding, no longer than `n`: it
-- takes no overlong form, no surrogate, nothing above U+10FFFF and no byte past the `n` given.
pub decode-Canonical :
    (s : List ℕ) (n cp k : ℕ) → utf8_decode s n ≡ char cp k → Canonical s cp k × (k ≤ n)
decode-Canonical s n cp k h =
    let g = loop_of_decode s n cp k h in
    (loop-Canonical (min n 4) s cp k g, omega (arith, used-le (min n 4) initial s 0 cp k g))
