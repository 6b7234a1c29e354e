-- ===== src/Lz/Compress.antt =====
-- src/ceres/lz.c: compression. A buffer is the list of its bytes, an index that a function moves on
-- is part of its result, and -1 is `none`. The hash table is static in the source, but every call that reads it
-- clears it first, so it is local here.
use ceres_standard_library.Prelude.{
  ℕ, zero, suc, ◌+◌, ◌-◌, ◌*◌, ◌^◌, bit_and, bit_or, Bool, not, ◌||◌, Option, none, some, List,
  get_or, set, replicate, ltb, leb, ◌==◌, if◌then◌else◌, u8, mul32, ◌<<◌, ◌>>◌,
}
use ceres_standard_library.Lz.{Result, ok, err, enospc, no_fuel, byte, copy_in}

-- the four bytes in the order of the machine, the low one first
pub read32 : List ℕ → ℕ → ℕ
read32 p i = byte p i + byte p (i + 1) * 2 ^ 8 + byte p (i + 2) * 2 ^ 16 + byte p (i + 3) * 2 ^ 24

pub hash : ℕ → ℕ
hash v = mul32 v 2654435761 >> (32 - 12)

-- Every round takes 255 off, so `extra + 1` rounds are enough.
pub put_length_loop : ℕ → List ℕ → ℕ → ℕ → ℕ → Option (List ℕ × ℕ)
put_length_loop zero dst op cap extra = none
put_length_loop (suc fuel) dst op cap extra =
    let rest = put_length_loop fuel (set dst op 255) (op + 1) cap (extra - 255) in
    if leb cap op
    then none
    else if leb 255 extra
    then rest
    else some (set dst op (u8 extra), op + 1)

pub put_length : List ℕ → ℕ → ℕ → ℕ → Option (List ℕ × ℕ)
unfolding put_length_loop
put_length dst op cap extra = put_length_loop (extra + 1) dst op cap extra

-- a length in the token, and its continuation when it has one
pub put_rest : ℕ → List ℕ → ℕ → ℕ → Option (List ℕ × ℕ)
unfolding put_length
put_rest count dst op cap =
    if leb 15 count then put_length dst op cap (count - 15) else some (dst, op)

-- the literals of a sequence behind its token
pub put_literals : List ℕ → ℕ → ℕ → List ℕ → ℕ → ℕ → Option (List ℕ × ℕ)
unfolding put_rest copy_in
put_literals src anchor literals dst op cap = elim (put_rest literals dst op cap) [
  | none ↦ none
  | some (dst', op') ↦
      if ltb (cap - op') literals
      then none
      else some (copy_in dst' op' src anchor literals, op' + literals)
]

-- the offset and the length of a match
pub put_match : ℕ → ℕ → List ℕ → ℕ → ℕ → Option (List ℕ × ℕ)
unfolding put_rest
put_match offset len dst op cap =
    if ltb (cap - op) 2
    then none
    else put_rest (len - 4) (set (set dst op (bit_and offset 0xFF)) (op + 1) (u8 (offset >> 8)))
        (op + 2) cap

pub put_sequence : List ℕ → ℕ → ℕ → ℕ → ℕ → List ℕ → ℕ → ℕ → Option (List ℕ × ℕ)
unfolding put_literals put_match
put_sequence src anchor at offset len dst op cap =
    let literals = at - anchor in
    let high = (if leb 15 literals then 15 else literals) << 4 in
    let low = if leb 15 (len - 4) then 15 else len - 4 in
    if leb cap op then none else elim (put_literals src anchor literals dst (op + 1) cap) [
      | none ↦ none
      | some (dst', op') ↦
          if len == 0
          then some (set dst' op (u8 high), op')
          else elim (put_match offset len dst' op' cap) [
            | none ↦ none
            | some (dst'', op'') ↦ some (set dst'' op (u8 (bit_or high low)), op'')
          ]
    ]

-- how far a match goes on, with `left` bytes up to the last that it may take
pub extend : ℕ → List ℕ → ℕ → ℕ → ℕ → ℕ
extend zero src ref ip len = len
extend (suc left) src ref ip len =
    let more = extend left src ref ip (len + 1) in
    if byte src (ref + len) == byte src (ip + len) then more else len

abbrev pub no_match : ℕ → List ℕ → ℕ → ℕ → Bool
no_match ref src ip seq =
    ref == 0 || (ltb 65535 (ip - (ref - 1)) || not (read32 src (ref - 1) == seq))

module _ (src : List ℕ) (n cap : ℕ) where
  -- The loop over the source: the output, its index and the anchor. `ip` grows in every round, so
  -- `n + 1` rounds are enough.
  pub compress_loop : ℕ → List ℕ → ℕ → ℕ → List ℕ → ℕ → Result (List ℕ × (ℕ × ℕ))
  unfolding read32 hash extend put_sequence
  compress_loop zero table ip anchor dst op = err no_fuel
  compress_loop (suc fuel) table ip anchor dst op =
      let limit = n - 12 in
      let match_limit = n - 5 in
      let seq = read32 src ip in
      let ref = get_or table (hash seq) 0 in
      let table' = set table (hash seq) (ip + 1) in
      let from = ref - 1 in
      let len = extend (match_limit - (ip + 4)) src from ip 4 in
      let end = ip + len in
      let table'' =
        if ltb (end - 2) limit
        then set table' (hash (read32 src (end - 2))) (end - 2 + 1)
        else table' in
      let skipped = compress_loop fuel table' (ip + 1) anchor dst op in
      if leb limit ip
      then ok (dst, (op, anchor))
      else if no_match ref src ip seq
      then skipped
      else elim (put_sequence src anchor ip (ip - from) len dst op cap) [
        | none ↦ err enospc
        | some (dst', op') ↦ compress_loop fuel table'' end end dst' op'
      ]

  -- the sequence at the end: literals and no match
  pub finish : Result (List ℕ × (ℕ × ℕ)) → Result (List ℕ × ℕ)
  unfolding put_sequence
  finish (err e) = err e
  finish (ok (dst, (op, anchor))) = elim (put_sequence src anchor n 0 0 dst op cap) [
    | none ↦ err enospc
    | some r ↦ ok r
  ]

  pub lz4_compress : List ℕ → Result (List ℕ × ℕ)
  unfolding compress_loop finish
  lz4_compress dst = finish (
      if leb (12 + 1) n
      then compress_loop (n + 1) (replicate 4096 0) 0 0 dst 0
      else ok (dst, (0, 0)))
