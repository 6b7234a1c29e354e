-- ===== src/Lz/Tests.antt =====
-- A block with a match that overlaps what it writes.
use ceres_standard_library.Prelude.{ℕ, ◌≡◌, refl, arith, List, [], ◌∷◌, replicate}
use ceres_standard_library.Lz.{
  ok, decode, decode_loop, sequence, match_part, full_length, more_length, copy_in, copy_match,
}
use ceres_standard_library.Prelude.Int.{pos}
use ceres_standard_library.Lz.Decode.{Ends, Decoded, decode-Ends}

-- "ab", a match of 6 bytes two back, and the literal "c"
abbrev block : List ℕ
block = 0x22 ∷ 97 ∷ 98 ∷ 2 ∷ 0 ∷ 0x10 ∷ 99 ∷ []

run :
    decode block 7 9 (replicate 9 0) 0 ≡ ok (97 ∷ 98 ∷ 97 ∷ 98 ∷ 97 ∷ 98 ∷ 97 ∷ 98 ∷ 99 ∷ [], pos 9)
unfolding decode decode_loop sequence match_part full_length more_length copy_in copy_match
run = refl

decode-Ends_example : Ends (Decoded 9 0 (replicate 9 0)) (decode block 7 9 (replicate 9 0) 0)
decode-Ends_example = decode-Ends block 7 9 (replicate 9 0) 0 (omega arith) (omega arith)
