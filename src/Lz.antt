-- ===== src/Lz.antt =====
-- src/ceres/lz.c: LZ4 blocks and frames. A buffer is the list of its bytes; the input pointer is an
-- index into the source. A read past a list is 0 and a store past it does nothing; the code tests
-- its indices against `n` and `cap`, which the caller keeps to the lengths of the two objects.
pub mod Writes
pub mod Decode
pub mod Frame
pub mod Compress
mod Tests
use ceres_standard_library.Prelude.{
  ℕ, zero, suc, ◌+◌, ◌-◌, ◌*◌, ◌/◌, ◌%◌, ◌^◌, bit_and, bit_or, Bool, true, false, not, ◌&&◌, ◌||◌,
  Option, none, some, List, [], ◌∷◌, ◌++◌, length, get_or, set, take, drop, replicate, ltb, leb,
  ◌==◌, if◌then◌else◌, u32, u8, ◌<<◌, ◌>>◌, add32, mul32,
}
use ceres_standard_library.Prelude.Int.{ℤ, to_int}

-- the error of a failed call, as `errno` has it, `unset` where the call leaves `errno` alone; a loop
-- that ran out of its rounds is `no_fuel`
pub data Error : Type 0 where
  einval enospc unset no_fuel : Error

pub data Result (A : Type 0) : Type 0 where
  ok : A → Result A
  err : Error → Result A

abbrev byte : List ℕ → ℕ → ℕ
byte bytes i = get_or bytes i 0

-- The continuation bytes of a length: the sum and the index behind them. `limit` is the bound that
-- stops the sum from wrapping (`n` for literals, `cap` for matches).
pub more_length : ℕ → List ℕ → ℕ → ℕ → ℕ → ℕ → Result (ℕ × ℕ)
more_length zero src n limit ip total = err no_fuel
more_length (suc fuel) src n limit ip total =
    let b = byte src ip in
    let sum = add32 total b in
    let rest = more_length fuel src n limit (ip + 1) sum in
    if leb n ip then err einval else if b == 255 && leb sum limit then rest else ok (sum, ip + 1)

infixl 5 ◌>>=◌
abbrev pub ◌>>=◌ : {A B : Type 0} → Result A → (A → Result B) → Result B
ok a >>= f = f a
err e >>= f = err e

-- `memcpy(base + op, src + from, count)`
pub copy_in : List ℕ → ℕ → List ℕ → ℕ → ℕ → List ℕ
copy_in base op src from zero = base
copy_in base op src from (suc count) =
    copy_in (set base op (byte src from)) (op + 1) src (from + 1) count

-- The match loop: byte by byte, so that a match may overlap what it writes.
pub copy_match : List ℕ → ℕ → ℕ → ℕ → List ℕ
copy_match base from op zero = base
copy_match base from op (suc count) =
    copy_match (set base op (byte base from)) (from + 1) (op + 1) count

-- what one sequence leaves: the end of the block, or where the next one begins
pub data Sequence : Type 0 where
  last : List ℕ → ℕ → Sequence
  next : List ℕ → ℕ → ℕ → Sequence

module _ (src : List ℕ) (n cap : ℕ) where
  -- `literals` or `length` with its continuation bytes, from the four bits of the token
  pub full_length : ℕ → ℕ → ℕ → Result (ℕ × ℕ)
  unfolding more_length
  full_length nibble limit ip =
      if nibble == 15 then more_length (n + 1) src n limit ip 15 else ok (nibble, ip)

  pub match_part : ℕ → List ℕ → ℕ → ℕ → Result Sequence
  unfolding copy_match full_length
  match_part token base ip op =
      let offset = bit_or (byte src ip) (byte src (ip + 1) << 8) in
      if ltb (n - ip) 2
      then err einval
      else if offset == 0 || ltb op offset
      then err einval
      else full_length (bit_and token 15) cap (ip + 2) >>= λ (extra, ip').
          let length = add32 extra 4 in
          if ltb (cap - op) length
          then err enospc
          else ok (next (copy_match base (op - offset) op length) ip' (op + length))

  -- one round of the loop of `decode`
  pub sequence : List ℕ → ℕ → ℕ → Result Sequence
  unfolding copy_in full_length match_part
  sequence base ip op =
      let token = byte src ip in
      if leb n ip
      then err einval
      else full_length (token >> 4) n (ip + 1) >>= λ (literals, ip').
          if ltb (n - ip') literals
          then err einval
          else if ltb (cap - op) literals
          then err enospc
          else let base' = copy_in base op src ip' literals in
            if ip' + literals == n
            then ok (last base' (op + literals))
            else match_part token base' (ip' + literals) (op + literals)

  -- Every round reads the token at least, so `n + 1` rounds are enough.
  pub decode_loop : ℕ → List ℕ → ℕ → ℕ → Result (List ℕ × ℕ)
  unfolding sequence
  decode_loop zero base ip op = err no_fuel
  decode_loop (suc fuel) base ip op = elim (sequence base ip op) [
    | err e ↦ err e
    | ok (last base' op') ↦ ok (base', op')
    | ok (next base' ip' op') ↦ decode_loop fuel base' ip' op'
  ]

  -- `decode`: the buffer, and as an `int` the number of bytes written behind `pos`
  pub decode : List ℕ → ℕ → Result (List ℕ × ℤ)
  unfolding decode_loop
  decode base pos = decode_loop (n + 1) base 0 pos >>= λ (base', op). ok (base', to_int (op - pos))

pub lz4_decompress : List ℕ → ℕ → List ℕ → ℕ → Result (List ℕ × ℤ)
unfolding decode
lz4_decompress src n dst cap = decode src n cap dst 0
