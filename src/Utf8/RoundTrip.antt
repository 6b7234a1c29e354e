-- ===== src/Utf8/RoundTrip.antt =====
-- `utf8_decode` and `utf8_encode` are inverse to each other.
use ceres_standard_library.Prelude.{
  ℕ, zero, suc, ◌+◌, ◌-◌, ◌*◌, ◌/◌, ◌%◌, ◌≤◌, ◌<◌, ◌≡◌, ◌⊎◌, inl, inr, refl, arith, min, List, ◌∷◌,
  ◌++◌, ◌∙◌, length, ltb, ◌==◌, if◌then◌else◌, ap, sym, Bool-cases,
}
use ceres_standard_library.Prelude.Bits.{and_low_mask}
use ceres_standard_library.Utf8.{
  Mbstate, complete, more, low_limit, high_limit, feed_first, feed, char, initial, decode_loop,
  utf8_decode, utf8_encode,
}
use ceres_standard_library.Utf8.Feed.{
  IsScalar, encode_one, encode_two, encode_three, encode_four, feed_middle, feed_last,
}

decode_loop-more :
    (rounds : ℕ) (st st' : Mbstate) (b : ℕ) (s : List ℕ) (i : ℕ)
    → 0 < rounds
    → feed st b ≡ (st', more)
    → decode_loop rounds st (b ∷ s) i ≡ decode_loop (rounds - 1) st' s (i + 1)
unfolding decode_loop
decode_loop-more zero st st' b s i h e = absurd (omega arith)
decode_loop-more (suc r) st st' b s i h e = ground arith

decode_loop-complete :
    (rounds : ℕ) (st st' : Mbstate) (b c : ℕ) (s : List ℕ) (i : ℕ)
    → 0 < rounds
    → feed st b ≡ (st', complete c)
    → decode_loop rounds st (b ∷ s) i ≡ char c (i + 1)
unfolding decode_loop
decode_loop-complete zero st st' b c s i h e = absurd (omega arith)
decode_loop-complete (suc r) st st' b c s i h e = ground arith

decode-loop : (s : List ℕ) (n : ℕ) → 0 < n → utf8_decode s n ≡ decode_loop (min n 4) initial s 0
unfolding utf8_decode
decode-loop s n h = ground arith

-- the lead bytes
first_one : (b : ℕ) → b < 0x80 → feed initial b ≡ (initial, complete b)
unfolding feed feed_first
first_one b h = ground arith

abbrev started : ℕ → ℕ → ℕ → Mbstate
started need bits lead = record { need = need; bits = bits; lead = lead }

first_two : (b : ℕ) → 0xC2 ≤ b → b ≤ 0xDF → feed initial b ≡ (started 1 (b - 0xC0) b, more)
unfolding feed feed_first
first_two b lo hi = ground (arith, and_low_mask 5 b)

first_three : (b : ℕ) → 0xE0 ≤ b → b ≤ 0xEF → feed initial b ≡ (started 2 (b - 0xE0) b, more)
unfolding feed feed_first
first_three b lo hi = ground (arith, and_low_mask 4 b)

first_four : (b : ℕ) → 0xF0 ≤ b → b ≤ 0xF4 → feed initial b ≡ (started 3 (b - 0xF0) b, more)
unfolding feed feed_first
first_four b lo hi = ground (arith, and_low_mask 3 b)

limits_middle : (low_limit 0 ≡ 0x80) × (high_limit 0 ≡ 0xBF)
unfolding low_limit high_limit
limits_middle = (refl, refl)

limits_two : (a : ℕ) → a < 0xE0 → (low_limit a ≡ 0x80) × (high_limit a ≡ 0xBF)
unfolding low_limit high_limit
limits_two a h = ground arith

decode_one : (a : ℕ) (s : List ℕ) (n : ℕ) → a < 0x80 → 0 < n → utf8_decode (a ∷ s) n ≡ char a 1
decode_one a s n h hn =
    decode-loop (a ∷ s) n hn
    ∙ decode_loop-complete (min n 4) initial initial a a s 0 (omega arith) (first_one a h)

decode_two :
    (a b : ℕ) (s : List ℕ) (n : ℕ)
    → 0xC2 ≤ a
    → a ≤ 0xDF
    → 0x80 ≤ b
    → b ≤ 0xBF
    → 2 ≤ n
    → utf8_decode (a ∷ b ∷ s) n ≡ char ((a - 0xC0) * 64 + b % 64) 2
decode_two a b s n a1 a2 b1 b2 hn =
    decode-loop (a ∷ b ∷ s) n (omega arith)
    ∙ decode_loop-more (min n 4) initial (started 1 (a - 0xC0) a) a (b ∷ s) 0 (omega arith)
        (first_two a a1 a2)
    ∙ decode_loop-complete (min n 4 - 1) (started 1 (a - 0xC0) a) initial b
        ((a - 0xC0) * 64 + b % 64) s 1 (omega arith)
        (feed_last (started 1 (a - 0xC0) a) b (omega arith) refl (omega (arith, limits_two a))
          (omega (arith, limits_two a)))

decode_three :
    (a b c : ℕ) (s : List ℕ) (n : ℕ)
    → 0xE0 ≤ a
    → a ≤ 0xEF
    → low_limit a ≤ b
    → b ≤ high_limit a
    → 0x80 ≤ c
    → c ≤ 0xBF
    → 3 ≤ n
    → utf8_decode (a ∷ b ∷ c ∷ s) n ≡ char (((a - 0xE0) * 64 + b % 64) * 64 + c % 64) 3
decode_three a b c s n a1 a2 b1 b2 c1 c2 hn =
    decode-loop (a ∷ b ∷ c ∷ s) n (omega arith)
    ∙ decode_loop-more (min n 4) initial (started 2 (a - 0xE0) a) a (b ∷ c ∷ s) 0 (omega arith)
        (first_three a a1 a2)
    ∙ decode_loop-more (min n 4 - 1) (started 2 (a - 0xE0) a)
        (started 1 ((a - 0xE0) * 64 + b % 64) 0) b (c ∷ s) 1 (omega arith)
        (feed_middle (started 2 (a - 0xE0) a) b (omega arith) (omega arith) b1 b2)
    ∙ decode_loop-complete (min n 4 - 1 - 1) (started 1 ((a - 0xE0) * 64 + b % 64) 0) initial c
        (((a - 0xE0) * 64 + b % 64) * 64 + c % 64) s 2 (omega arith)
        (feed_last (started 1 ((a - 0xE0) * 64 + b % 64) 0) c (omega arith) refl
          (omega (arith, limits_middle)) (omega (arith, limits_middle)))

decode_four :
    (a b c d : ℕ) (s : List ℕ) (n : ℕ)
    → 0xF0 ≤ a
    → a ≤ 0xF4
    → low_limit a ≤ b
    → b ≤ high_limit a
    → 0x80 ≤ c
    → c ≤ 0xBF
    → 0x80 ≤ d
    → d ≤ 0xBF
    → 4 ≤ n
    → utf8_decode (a ∷ b ∷ c ∷ d ∷ s) n
      ≡ char ((((a - 0xF0) * 64 + b % 64) * 64 + c % 64) * 64 + d % 64) 4
decode_four a b c d s n a1 a2 b1 b2 c1 c2 d1 d2 hn =
    let bits2 : ℕ = (a - 0xF0) * 64 + b % 64 in
    let bits3 : ℕ = bits2 * 64 + c % 64 in
    decode-loop (a ∷ b ∷ c ∷ d ∷ s) n (omega arith)
    ∙ decode_loop-more (min n 4) initial (started 3 (a - 0xF0) a) a (b ∷ c ∷ d ∷ s) 0 (omega arith)
        (first_four a a1 a2)
    ∙ decode_loop-more (min n 4 - 1) (started 3 (a - 0xF0) a) (started 2 bits2 0) b (c ∷ d ∷ s) 1
        (omega arith) (feed_middle (started 3 (a - 0xF0) a) b (omega arith) (omega arith) b1 b2)
    ∙ decode_loop-more (min n 4 - 1 - 1) (started 2 bits2 0) (started 1 bits3 0) c (d ∷ s) 2
        (omega arith)
        (feed_middle (started 2 bits2 0) c (omega arith) (omega arith)
          (omega (arith, limits_middle)) (omega (arith, limits_middle)))
    ∙ decode_loop-complete (min n 4 - 1 - 1 - 1) (started 1 bits3 0) initial d (bits3 * 64 + d % 64)
        s 3 (omega arith)
        (feed_last (started 1 bits3 0) d (omega arith) refl (omega (arith, limits_middle))
          (omega (arith, limits_middle)))

limits_three :
    (a : ℕ)
    → 0xE0 ≤ a
    → a ≤ 0xEF
    → (low_limit a ≡ (if a == 0xE0 then 0xA0 else 0x80))
      × (high_limit a ≡ (if a == 0xED then 0x9F else 0xBF))
unfolding low_limit high_limit
limits_three a lo hi = ground arith

limits_four :
    (a : ℕ)
    → 0xF0 ≤ a
    → (low_limit a ≡ (if a == 0xF0 then 0x90 else 0x80))
      × (high_limit a ≡ (if a == 0xF4 then 0x8F else 0xBF))
unfolding low_limit high_limit
limits_four a lo = ground arith

decode-encode_two :
    (cp : ℕ) (rest : List ℕ) (n : ℕ)
    → 0x80 ≤ cp
    → cp < 0x800
    → 2 ≤ n
    → utf8_decode (utf8_encode cp ++ rest) n ≡ char cp (length (utf8_encode cp))
decode-encode_two cp rest n lo hi hn = rw (encode_two cp lo hi) (
    decode_two (0xC0 + cp / 64) (0x80 + cp % 64) rest n (omega arith) (omega arith) (omega arith)
      (omega arith) hn
    ∙ ap (λ (k : ℕ). char k 2) (omega arith))

decode-encode_three :
    (cp : ℕ) (rest : List ℕ) (n : ℕ)
    → 0x800 ≤ cp
    → cp < 0x10000
    → (cp < 0xD800) ⊎ (0xE000 ≤ cp)
    → 3 ≤ n
    → utf8_decode (utf8_encode cp ++ rest) n ≡ char cp 3
decode-encode_three cp rest n lo hi s hn =
    let a : ℕ = 0xE0 + cp / 4096 in
    let b : ℕ = 0x80 + cp / 64 % 64 in
    let c : ℕ = 0x80 + cp % 64 in
    rw (encode_three cp lo hi s) (
      decode_three a b c rest n (omega arith) (omega arith)
        (ground (arith, limits_three a (omega arith) (omega arith)))
        (ground (arith, limits_three a (omega arith) (omega arith))) (omega arith) (omega arith) hn
      ∙ ap (λ (k : ℕ). char k 3) (omega arith))

decode-encode_four :
    (cp : ℕ) (rest : List ℕ) (n : ℕ)
    → 0x10000 ≤ cp
    → cp ≤ 0x10FFFF
    → 4 ≤ n
    → utf8_decode (utf8_encode cp ++ rest) n ≡ char cp 4
decode-encode_four cp rest n lo hi hn =
    let a : ℕ = 0xF0 + cp / 262144 in
    let b : ℕ = 0x80 + cp / 4096 % 64 in
    let c : ℕ = 0x80 + cp / 64 % 64 in
    let d : ℕ = 0x80 + cp % 64 in
    rw (encode_four cp lo hi) (
      decode_four a b c d rest n (omega arith) (omega arith)
        (ground (arith, limits_four a (omega arith))) (ground (arith, limits_four a (omega arith)))
        (omega arith) (omega arith) (omega arith) (omega arith) hn
      ∙ ap (λ (k : ℕ). char k 4) (omega arith))

-- Decoding the encoding of a Unicode scalar value gives the value and the length of the encoding,
-- whatever bytes follow, if the byte count given covers the encoding.
pub decode-encode :
    (cp : ℕ) (rest : List ℕ) (n : ℕ)
    → IsScalar cp
    → length (utf8_encode cp) ≤ n
    → utf8_decode (utf8_encode cp ++ rest) n ≡ char cp (length (utf8_encode cp))
decode-encode cp rest n s hn = elim (Bool-cases (ltb cp 0x80)) [
  | inl e1 ↦
      let h : cp < 0x80 = ground arith in
      rw (encode_one cp h) (decode_one cp rest n h (rw (encode_one cp h) at hn))
  | inr e1 ↦ elim (Bool-cases (ltb cp 0x800)) [
    | inl e2 ↦
        decode-encode_two cp rest n (ground arith) (ground arith)
          (ground (arith, ap length (encode_two cp (ground arith) (ground arith))))
    | inr e2 ↦ elim (Bool-cases (ltb cp 0x10000)) [
      | inl e3 ↦
          let e = encode_three cp (ground arith) (ground arith) s.1 in
          decode-encode_three cp rest n (ground arith) (ground arith) s.1
            (ground (arith, ap length e))
          ∙ ap (λ (l : List ℕ). char cp (length l)) (sym e)
      | inr e3 ↦
          let e = encode_four cp (ground arith) (ground arith) in
          decode-encode_four cp rest n (ground arith) (ground arith) (ground (arith, ap length e))
          ∙ ap (λ (l : List ℕ). char cp (length l)) (sym e)
    ]
  ]
]
