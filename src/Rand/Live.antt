-- ===== src/Rand/Live.antt =====
-- The states of the generator: rng_seed and rng_u32 keep clear of the all-zero state.
use ceres_standard_library.Prelude.{
  ℕ, zero, suc, ◌+◌, ◌^◌, ◌<◌, ◌≡◌, refl, sym, ap, ◌∙◌, arith, bit_or, bit_xor, ◌⊎◌, inl, inr, ◌==◌,
  if◌then◌else◌, ◌>>◌, ◌<<◌,
}
use ceres_standard_library.Prelude.Xor.{xor_lt, zero_xor, eq_of_xor}
use ceres_standard_library.Rand.{Rng, splitmix32, rng_seed, rng_u32}

-- four 32-bit words, one of them not zero
abbrev pub Live : Rng → Type 0
Live r =
    ((r.s0 < 2 ^ 32) × (r.s1 < 2 ^ 32) × (r.s2 < 2 ^ 32) × (r.s3 < 2 ^ 32))
    × (0 < r.s0 + r.s1 + r.s2 + r.s3)

-- the states that seeding and drawing lead to
pub data Reached : Rng → Type 0 where
  seeded : (seed : ℕ) → Reached (rng_seed seed)
  drawn : {r : Rng} → Reached r → Reached ((rng_u32 r).0)

zero_or_more : (n : ℕ) → (n ≡ 0) ⊎ (0 < n)
zero_or_more zero = inl refl
zero_or_more (suc n) = inr (omega arith)

shifted_word : (x : ℕ) → x < 2 ^ 32 → bit_xor x (x >> 16) < 2 ^ 32
shifted_word x h = xor_lt 32 x (x >> 16) h (omega arith)

splitmix32_word : (state : ℕ) → (splitmix32 state).1 < 2 ^ 32
unfolding splitmix32
splitmix32_word state = shifted_word _ (omega arith)

or_of_zeros : (x0 x1 x2 x3 : ℕ) → x0 + x1 + x2 + x3 ≡ 0 → bit_or (bit_or (bit_or x0 x1) x2) x3 ≡ 0
or_of_zeros zero zero zero zero h = refl
or_of_zeros (suc x0) x1 x2 x3 h = absurd (omega arith)
or_of_zeros zero (suc x1) x2 x3 h = absurd (omega arith)
or_of_zeros zero zero (suc x2) x3 h = absurd (omega arith)
or_of_zeros zero zero zero (suc x3) h = absurd (omega arith)

corrected-Live :
    (x0 x1 x2 x3 : ℕ)
    → x0 < 2 ^ 32
    → x1 < 2 ^ 32
    → x2 < 2 ^ 32
    → x3 < 2 ^ 32
    → Live (
        if bit_or (bit_or (bit_or x0 x1) x2) x3 == 0
        then record { s0 = 1; s1 = x1; s2 = x2; s3 = x3 }
        else record { s0 = x0; s1 = x1; s2 = x2; s3 = x3 })
corrected-Live x0 x1 x2 x3 w0 w1 w2 w3 = elim (zero_or_more (x0 + x1 + x2 + x3)) [
  | inl none ↦ rw (or_of_zeros x0 x1 x2 x3 none) (omega arith)
  | inr some ↦ ground arith
]

rng_seed-Live : (seed : ℕ) → Live (rng_seed seed)
unfolding rng_seed
rng_seed-Live seed =
    corrected-Live _ _ _ _ (splitmix32_word _) (splitmix32_word _) (splitmix32_word _)
      (splitmix32_word _)

-- neither shift leaves a word as it is, unless the word is zero
drawn_zero :
    (s0 : ℕ) → s0 < 2 ^ 32 → let t = bit_xor s0 (s0 << 11) in bit_xor t (t >> 8) ≡ 0 → s0 ≡ 0
drawn_zero s0 word h =
    let t : ℕ = bit_xor s0 (s0 << 11) in
    let shifted : t ≡ t >> 8 = eq_of_xor t (t >> 8) h in
    let none : t ≡ 0 = omega arith in
    let shifted' : s0 ≡ s0 << 11 = eq_of_xor s0 (s0 << 11) none in omega arith

unfoldable next_word : ℕ → ℕ → ℕ
next_word s0 s3 =
    let t = bit_xor s0 (s0 << 11) in bit_xor (bit_xor (bit_xor s3 (s3 >> 19)) t) (t >> 8)

next_zero : (s0 : ℕ) → s0 < 2 ^ 32 → next_word s0 0 ≡ 0 → s0 ≡ 0
unfolding next_word
next_zero s0 word h =
    let t : ℕ = bit_xor s0 (s0 << 11) in
    drawn_zero s0 word (sym (ap (λ (y : ℕ). bit_xor y (t >> 8)) (zero_xor t)) ∙ h)

still_alive :
    (s0 s1 s2 s3 : ℕ) → s0 < 2 ^ 32 → 0 < s0 + s1 + s2 + s3 → 0 < s1 + s2 + s3 + next_word s0 s3
still_alive s0 s1 s2 s3 word alive = elim (zero_or_more (s1 + s2 + s3 + next_word s0 s3)) [
  | inl none ↦
      let gone : s3 ≡ 0 = omega arith in
      let gone' : next_word s0 s3 ≡ 0 = omega arith in
      let first : s0 ≡ 0 = next_zero s0 word (sym (ap (next_word s0) gone) ∙ gone') in omega arith
  | inr some ↦ some
]

rng_u32-Live : (r : Rng) → Live r → Live ((rng_u32 r).0)
unfolding rng_u32 next_word
rng_u32-Live r ((w0, w1, w2, w3), alive) =
    let t : ℕ = bit_xor r.s0 (r.s0 << 11) in
    let t_word : t < 2 ^ 32 = xor_lt 32 r.s0 (r.s0 << 11) w0 (omega arith) in
    let low : t >> 8 < 2 ^ 32 = omega arith in
    let new_word : bit_xor (bit_xor (bit_xor r.s3 (r.s3 >> 19)) t) (t >> 8) < 2 ^ 32 =
      xor_lt 32 _ (t >> 8) (xor_lt 32 _ t (xor_lt 32 r.s3 (r.s3 >> 19) w3 (omega arith)) t_word)
        low in
    ((w1, w2, w3, new_word), still_alive (r.s0) (r.s1) (r.s2) (r.s3) w0 alive)

-- In every state that seeding and drawing lead to, the words have 32 bits and one of them is not
-- zero.
pub Reached-Live : {r : Rng} → Reached r → Live r
Reached-Live (seeded seed) = rng_seed-Live seed
Reached-Live (drawn {r} steps) = rng_u32-Live r (Reached-Live steps)
