-- ===== src/Utf8.antt =====
-- src/ceres/utf8.c: the byte-at-a-time decoder, the encoder, and the walks over text.
-- A `char*` is the list of the bytes from it to the end of its object; reading past that end is
-- `fault`, which C leaves undefined.
pub mod Feed
pub mod RoundTrip
pub mod Tails
pub mod Inversion
pub mod Valid
mod Tests
use ceres_standard_library.Prelude.{
  ℕ, zero, suc, ◌+◌, ◌-◌, min, bit_and, bit_or, Bool, true, false, ◌&&◌, ◌||◌, Option, none, some,
  List, [], ◌∷◌, length, drop, ltb, leb, ◌==◌, if◌then◌else◌, ◌<<◌, ◌>>◌, u8,
}

-- `mbstate_t`
pub record Mbstate : Type 0 where
  pub need : ℕ
  pub bits : ℕ
  pub lead : ℕ

abbrev pub initial : Mbstate
initial = record { need = 0; bits = 0; lead = 0 }

-- what a byte leads to: the results 1 (with the character), 0 and -1 of `__utf8_feed`
pub data Fed : Type 0 where
  complete : ℕ → Fed
  more bad : Fed

pub feed_first : Mbstate → ℕ → Mbstate × Fed
feed_first st b =
    if ltb b 0x80
    then (st, complete b)
    else if leb 0xC2 b && leb b 0xDF
    then (record { bits = bit_and b 0x1F; need = 1; lead = b }, more)
    else if leb 0xE0 b && leb b 0xEF
    then (record { bits = bit_and b 0x0F; need = 2; lead = b }, more)
    else if leb 0xF0 b && leb b 0xF4
    then (record { bits = bit_and b 0x07; need = 3; lead = b }, more)
    else (st, bad)

-- the limits of the byte after the lead
pub low_limit : ℕ → ℕ
low_limit lead = if lead == 0xE0 then 0xA0 else if lead == 0xF0 then 0x90 else 0x80

pub high_limit : ℕ → ℕ
high_limit lead = if lead == 0xED then 0x9F else if lead == 0xF4 then 0x8F else 0xBF

pub feed_next : Mbstate → ℕ → Mbstate × Fed
unfolding low_limit high_limit
feed_next st b =
    if ltb b (low_limit st.lead) || ltb (high_limit st.lead) b
    then (record { bits = 0; need = 0; lead = 0 }, bad)
    else let bits = bit_or (st.bits << 6) (bit_and b 0x3F) in
      let need = st.need - 1 in
      if ltb 0 need
      then (record { bits = bits; need = need; lead = 0 }, more)
      else (record { bits = 0; need = need; lead = 0 }, complete bits)

-- `__utf8_feed`
pub feed : Mbstate → ℕ → Mbstate × Fed
unfolding feed_first feed_next
feed st b = if st.need == 0 then feed_first st b else feed_next st b

-- the results of `utf8_decode`: 0, -1, and a length with the character
pub data Decoded : Type 0 where
  nothing invalid fault : Decoded
  char : ℕ → ℕ → Decoded

-- the loop at index `i`, with at most `rounds` bytes left to look at
pub decode_loop : ℕ → Mbstate → List ℕ → ℕ → Decoded
decode_loop zero st s i = invalid
decode_loop (suc rounds) st [] i = fault
decode_loop (suc rounds) st (b ∷ s) i =
    let (st', r) = feed st b in
    elim r [ bad ↦ invalid | complete c ↦ char c (i + 1) | more ↦ decode_loop rounds st' s (i + 1) ]

pub utf8_decode : List ℕ → ℕ → Decoded
utf8_decode s n = if n == 0 then nothing else decode_loop (min n 4) initial s 0

pub utf8_width : ℕ → ℕ
utf8_width cp =
    if ltb cp 0x80
    then 1
    else if ltb cp 0x800
    then 2
    else if leb 0xD800 cp && leb cp 0xDFFF
    then 0
    else if ltb cp 0x10000
    then 3
    else if leb cp 0x10FFFF
    then 4
    else 0

-- `utf8_encode`: the bytes written to `out`; their number is the result of the C function.
pub utf8_encode : ℕ → List ℕ
unfolding utf8_width
utf8_encode cp =
    let n = utf8_width cp in
    if n == 1
    then u8 cp ∷ []
    else if n == 2
    then u8 (bit_or 0xC0 (cp >> 6)) ∷ u8 (bit_or 0x80 (bit_and cp 0x3F)) ∷ []
    else if n == 3
    then u8 (bit_or 0xE0 (cp >> 12))
      ∷ u8 (bit_or 0x80 (bit_and (cp >> 6) 0x3F))
      ∷ u8 (bit_or 0x80 (bit_and cp 0x3F))
      ∷ []
    else if n == 4
    then u8 (bit_or 0xF0 (cp >> 18))
      ∷ u8 (bit_or 0x80 (bit_and (cp >> 12) 0x3F))
      ∷ u8 (bit_or 0x80 (bit_and (cp >> 6) 0x3F))
      ∷ u8 (bit_or 0x80 (bit_and cp 0x3F))
      ∷ []
    else []

-- `utf8_next`: the character and where the text goes on; `none` is a read past the object.
pub step_over : List ℕ → Decoded → Option (ℕ × List ℕ)
step_over s nothing = some (0, s)
step_over s invalid = some (0xFFFD, drop 1 s)
step_over s fault = none
step_over s (char cp n) = some (cp, drop n s)

pub utf8_next : List ℕ → Option (ℕ × List ℕ)
utf8_next [] = none
utf8_next (b ∷ s) = if b == 0 then some (0, b ∷ s) else step_over (b ∷ s) (utf8_decode (b ∷ s) 4)

-- the loops take fuel; the length of the text is enough (Utf8/Walk)
pub length_loop : ℕ → List ℕ → ℕ → Option ℕ
length_loop zero s count = none
length_loop (suc fuel) s count = elim (utf8_next s) [
  | none ↦ none
  | some (cp, rest) ↦ elim (cp == 0) [
    | true ↦ some count
    | false ↦ length_loop fuel rest (count + 1)
  ]
]

pub utf8_length : List ℕ → Option ℕ
utf8_length s = length_loop (length s) s 0

-- `utf8_valid` at `s + i` with `n - i` bytes left
pub valid_loop : ℕ → List ℕ → ℕ → Option Bool
valid_loop zero s n = none
valid_loop (suc fuel) s n = elim (n == 0) [
  | true ↦ some true
  | false ↦ elim (utf8_decode s n) [
    | nothing ↦ valid_loop fuel s n
    | invalid ↦ some false
    | fault ↦ none
    | char cp k ↦ valid_loop fuel (drop k s) (n - k)
  ]
]

pub utf8_valid : List ℕ → ℕ → Option Bool
utf8_valid s n = valid_loop (n + 1) s n

-- `utf8_offset`: the recursion on `index` is the loop's own count-down.
pub utf8_offset : List ℕ → ℕ → Option (List ℕ)
utf8_offset s zero = some s
utf8_offset s (suc index) = elim (utf8_next s) [
  | none ↦ none
  | some (cp, rest) ↦ elim (cp == 0) [ true ↦ some rest | false ↦ utf8_offset rest index ]
]
