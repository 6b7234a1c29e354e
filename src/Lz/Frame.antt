-- ===== src/Lz/Frame.antt =====
-- src/ceres/lz.c: the frames around the blocks, frame_header to lz4_frame_decompress. `p` and `end`
-- are indices into the source.
use ceres_standard_library.Prelude.{
  ℕ, zero, suc, ◌+◌, ◌-◌, ◌*◌, ◌^◌, bit_and, bit_or, Bool, not, ◌&&◌, ◌||◌, Option, none, some,
  List, ◌++◌, take, drop, ltb, leb, ◌==◌, if◌then◌else◌, ◌<<◌, ◌>>◌,
}
use ceres_standard_library.Prelude.Int.{ℤ, pos, negsuc, to_int}
use ceres_standard_library.Lz.{
  Result, ok, err, einval, enospc, unset, no_fuel, ◌>>=◌, byte, copy_in, decode,
}

-- include/ceres/endian.h
pub le32 : List ℕ → ℕ → ℕ
le32 p i =
    bit_or (bit_or (byte p i) (byte p (i + 1) << 8))
      (bit_or (byte p (i + 2) << 16) (byte p (i + 3) << 24))

-- A header's length, flags and content size; the size is a 64-bit word, -1 the largest of them.
abbrev pub minus_one : ℕ
minus_one = 0xFFFF_FFFF_FFFF_FFFF

pub frame_header : List ℕ → ℕ → ℕ → Option (ℕ × (ℕ × ℕ))
unfolding le32
frame_header src p n =
    let flg = byte src (p + 4) in
    let bd = bit_and (byte src (p + 5) >> 4) 7 in
    let sized = not (bit_and flg 0x08 == 0) in
    let size = le32 src (p + 6) + le32 src (p + 10) * 2 ^ 32 in
    let with_size = if sized then 7 + 8 else 7 in
    let len = if bit_and flg 0x01 == 0 then with_size else with_size + 4 in
    if ltb n 7 || not (le32 src p == 0x184D2204)
    then none
    else if not (flg >> 6 == 1)
        || (not (bit_and flg 0x02 == 0) || not (bit_and (byte src (p + 5)) 0x8F == 0))
    then none
    else if ltb bd 4
    then none
    else if sized && ltb n (7 + 8)
    then none
    else if ltb n len
    then none
    else some (len, (flg, if sized then size else minus_one))

pub lz4_frame_content_size : List ℕ → ℕ → ℕ
unfolding frame_header
lz4_frame_content_size src n = elim (frame_header src 0 n) [
  | none ↦ minus_one
  | some (len, (flg, content)) ↦ content
]

module _ (src : List ℕ) (end cap : ℕ) where
  -- One block of `size` bytes at `p`: the output and what is written of it. A linked block may copy
  -- from the blocks of its frame before it, an independent one from none.
  pub one_block : Bool → Bool → ℕ → ℕ → ℕ → List ℕ → ℕ → Result (List ℕ × ℕ)
  unfolding copy_in decode
  one_block stored independent p size frame_start out written =
      let start = if independent then written else frame_start in
      if stored
      then if ltb (cap - written) size
        then err enospc
        else ok (copy_in out written src p size, written + size)
      else decode (drop p src) size (cap - start) (drop start out) (written - start)
        >>= λ (base, got). elim got [
          | pos count ↦ ok (take start out ++ base, written + count)
          | negsuc count ↦ err unset
        ]

  -- The blocks of a frame: the index behind the end mark, the output, what is written. Every block
  -- takes four bytes at least, so `end` rounds are enough.
  pub blocks : ℕ → Bool → Bool → ℕ → ℕ → List ℕ → ℕ → Result (ℕ × (List ℕ × ℕ))
  unfolding le32 one_block
  blocks zero independent checksum frame_start p out written = err no_fuel
  blocks (suc fuel) independent checksum frame_start p out written =
      let word = le32 src p in
      let size = bit_and word 0x7FFF_FFFF in
      let left = end - (p + 4) in
      if ltb (end - p) 4
      then err einval
      else if word == 0
      then ok (p + 4, (out, written))
      else if ltb left size || (checksum && ltb (left - size) 4)
      then err einval
      else one_block (not (bit_and word 0x8000_0000 == 0)) independent (p + 4) size frame_start out
          written
        >>= λ (out', written').
            blocks fuel independent checksum frame_start
              (p + 4 + size + (if checksum then 4 else 0)) out' written'

  pub frames_loop : ℕ → ℕ → ℕ → List ℕ → ℕ → Result (List ℕ × ℕ)
  unfolding le32 frame_header blocks
  frames_loop zero frames p out written = err no_fuel
  frames_loop (suc fuel) frames p out written =
      let size = le32 src (p + 4) in
      let skipped = frames_loop fuel frames (p + (8 + size)) out written in
      if leb end p
      then if frames == 0 then err einval else ok (out, written)
      else if leb 8 (end - p) && (bit_and (le32 src p) 0xFFFF_FFF0 == 0x184D2A50)
      then if ltb (end - p - 8) size then err einval else skipped
      else elim (frame_header src p (end - p)) [
        | none ↦ if ltb 0 frames then ok (out, written) else err einval
        | some (len, (flags, content)) ↦
            if not (bit_and flags 0x01 == 0)
            then err einval
            else blocks end (not (bit_and flags 0x20 == 0)) (not (bit_and flags 0x10 == 0)) written
                (p + len) out written
              >>= λ (p', (out', written')).
                  if bit_and flags 0x04 == 0
                  then frames_loop fuel (frames + 1) p' out' written'
                  else if ltb (end - p') 4
                  then err einval
                  else frames_loop fuel (frames + 1) (p' + 4) out' written'
      ]

-- what is written is returned as an `int`
pub lz4_frame_decompress : List ℕ → ℕ → List ℕ → ℕ → Result (List ℕ × ℤ)
unfolding frames_loop
lz4_frame_decompress src n dst cap =
    frames_loop src n cap (n + 1) 0 0 dst 0 >>= λ (out, written). ok (out, to_int written)
