-- ===== src/Utf8/Tests.antt =====
-- Runs of the UTF-8 functions, and each theorem at an input.
use ceres_standard_library.Prelude.{
  ℕ, ◌≤◌, ◌≡◌, ◌↔◌, inl, refl, arith, List, [], ◌∷◌, ◌++◌, length, some, true, false, Bool,
}
use ceres_standard_library.Utf8.{
  nothing, invalid, fault, char, decode_loop, feed, utf8_decode, utf8_encode, utf8_next, step_over,
  length_loop, utf8_length, valid_loop, utf8_valid, utf8_offset,
}
use ceres_standard_library.Utf8.RoundTrip.{decode-encode}
use ceres_standard_library.Utf8.Inversion.{Canonical, decode-Canonical}
use ceres_standard_library.Utf8.Valid.{Spelled, utf8_valid_iff}

program : Unit {0}
unfolding feed decode_loop utf8_decode utf8_encode utf8_next step_over length_loop utf8_length
    valid_loop utf8_valid utf8_offset
program = tt

-- "a€" and a stray byte, terminated
abbrev text : List ℕ
text = 0x61 ∷ 0xE2 ∷ 0x82 ∷ 0xAC ∷ 0xFF ∷ 0 ∷ []

euro : utf8_decode (0xE2 ∷ 0x82 ∷ 0xAC ∷ []) 3 ≡ char 0x20AC 3
unfolding program
euro = refl

refused :
    (utf8_decode (0xC0 ∷ 0x80 ∷ []) 2 ≡ invalid)
    × (utf8_decode (0xED ∷ 0xA0 ∷ 0x80 ∷ []) 3 ≡ invalid)
    × (utf8_decode (0xF4 ∷ 0x90 ∷ 0x80 ∷ 0x80 ∷ []) 4 ≡ invalid)
    × (utf8_decode (0xE2 ∷ 0x82 ∷ []) 2 ≡ invalid)
    × (utf8_decode [] 0 ≡ nothing)
    × (utf8_decode [] 1 ≡ fault)
unfolding program
refused = (refl, refl, refl, refl, refl, refl)

walks :
    (utf8_length text ≡ some 3)
    × (utf8_valid text 4 ≡ some true)
    × (utf8_valid text 5 ≡ some false)
    × (utf8_offset text 2 ≡ some (0xFF ∷ 0 ∷ []))
    × (utf8_offset text 9 ≡ some (0 ∷ []))
unfolding program
walks = (refl, refl, refl, refl, refl)

decode-encode_example :
    utf8_decode (utf8_encode 0x20AC ++ 0x21 ∷ []) 4 ≡ char 0x20AC (length (utf8_encode 0x20AC))
unfolding program
decode-encode_example =
    decode-encode 0x20AC (0x21 ∷ []) 4 (omega arith, inl (omega arith)) (omega arith)

decode-Canonical_example : Canonical (0xE2 ∷ 0x82 ∷ 0xAC ∷ []) 0x20AC 3 × (3 ≤ 3)
decode-Canonical_example = decode-Canonical (0xE2 ∷ 0x82 ∷ 0xAC ∷ []) 3 0x20AC 3 euro

utf8_valid_iff_example :
    ((b : Bool) × (utf8_valid text 4 ≡ some b))
    × ((utf8_valid text 4 ≡ some true) ↔ Spelled (0x61 ∷ 0xE2 ∷ 0x82 ∷ 0xAC ∷ []))
utf8_valid_iff_example = utf8_valid_iff text 4 (omega arith)
