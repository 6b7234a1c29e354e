-- ===== src/Lz/Decode.antt =====
-- The block decoder ends, stays within its buffers and reports what it wrote.
use mathlib.Core.Path.{subst, sym}
use ceres_standard_library.Prelude.{
  ℕ, zero, suc, ◌+◌, ◌-◌, ◌<◌, ◌≤◌, ◌≡◌, ◌⊎◌, inl, inr, refl, arith, Bool, true, false, ◌==◌, leb,
  ltb, ◌||◌, if◌then◌else◌, bit_and, bit_or, List, ◌>>◌, ◌<<◌, add32,
}
use ceres_standard_library.Prelude.Int.{ℤ, to_int, to_int_small}
use ceres_standard_library.Lz.{
  Error, einval, enospc, unset, no_fuel, Result, ok, err, ◌>>=◌, byte, more_length, copy_in,
  Sequence, last, next, full_length, match_part, sequence, decode_loop, decode,
}
use ceres_standard_library.Lz.Writes.{Writes, Writes-trans, copy_in-Writes, copy_match-Writes}

-- The call ended by its own tests, and a result that it returned is as `P` says.
abbrev pub Ends : {A : Type 0} → (A → Type 0) → Result A → Type 0
Ends P (ok a) = P a
Ends P (err einval) = Unit
Ends P (err enospc) = Unit
Ends P (err unset) = ⊥
Ends P (err no_fuel) = ⊥

bind-Ends :
    {A B : Type 0} (P : A → Type 0) (Q : B → Type 0) (m : Result A) (f : A → Result B)
    → Ends P m
    → ((a : A) → P a → Ends Q (f a))
    → Ends Q (m >>= f)
bind-Ends P Q (ok a) f h k = k a h
bind-Ends P Q (err einval) f h k = tt
bind-Ends P Q (err enospc) f h k = tt
bind-Ends P Q (err unset) f h k = absurd h
bind-Ends P Q (err no_fuel) f h k = absurd h

Ends-map :
    {A : Type 0} (P Q : A → Type 0) (m : Result A) → ((a : A) → P a → Q a) → Ends P m → Ends Q m
Ends-map P Q (ok a) f h = f a h
Ends-map P Q (err einval) f h = tt
Ends-map P Q (err enospc) f h = tt
Ends-map P Q (err unset) f h = h
Ends-map P Q (err no_fuel) f h = h

Result-cases : {A : Type 0} (m : Result A) → ((a : A) × (m ≡ ok a)) ⊎ ((e : Error) × (m ≡ err e))
Result-cases (ok a) = inl (a, refl)
Result-cases (err e) = inr (e, refl)

err-Ends :
    {A B : Type 0} (P : A → Type 0) (Q : B → Type 0) (e : Error) → Ends P (err e) → Ends Q (err e)
err-Ends P Q einval h = tt
err-Ends P Q enospc h = tt
err-Ends P Q unset h = h
err-Ends P Q no_fuel h = h

if-Ends :
    {A : Type 0} (P : A → Type 0) (b : Bool) (x y : Result A)
    → (b ≡ true → Ends P x)
    → (b ≡ false → Ends P y)
    → Ends P (if b then x else y)
if-Ends P true x y f g = f refl
if-Ends P false x y f g = g refl

-- the index behind a length: moved on, and not past the end
abbrev Behind : ℕ → ℕ → ℕ × ℕ → Type 0
Behind n ip (total, ip') = (ip ≤ ip') × (ip' ≤ n)

more_length-Ends :
    (fuel : ℕ) (src : List ℕ) (n limit ip total : ℕ)
    → ip ≤ n
    → n < ip + fuel
    → Ends (Behind n ip) (more_length fuel src n limit ip total)
unfolding more_length
more_length-Ends zero src n limit ip total inside h = absurd (omega arith)
more_length-Ends (suc fuel) src n limit ip total inside h =
    ground (arith, more_length-Ends fuel src n limit (ip + 1) (add32 total (byte src ip)))

module _ (src : List ℕ) (n cap : ℕ) where
  full_length-Ends :
      (nibble limit ip : ℕ) → ip ≤ n → Ends (Behind n ip) (full_length src n cap nibble limit ip)
  unfolding full_length
  full_length-Ends nibble limit ip inside =
      ground (arith, more_length-Ends (n + 1) src n limit ip 15)

  -- what a sequence, or the part of it behind the literals, has done
  After : List ℕ → ℕ → ℕ → Sequence → Type 0
  After base ip op (last base' op') = (op' ≤ cap) × Writes op op' base base'
  After base ip op (next base' ip' op') =
      (ip ≤ ip') × (ip' ≤ n) × (op' ≤ cap) × Writes op op' base base'

  -- a whole sequence has also read its token
  Moved : List ℕ → ℕ → ℕ → Sequence → Type 0
  unfolding After
  Moved base ip op (last base' op') = (op' ≤ cap) × Writes op op' base base'
  Moved base ip op (next base' ip' op') =
      (ip < ip') × (ip' ≤ n) × (op' ≤ cap) × Writes op op' base base'

  match_part-Ends :
      (token : ℕ) (base : List ℕ) (ip op : ℕ)
      → ip ≤ n
      → op ≤ cap
      → Ends (After base ip op) (match_part src n cap token base ip op)
  unfolding match_part After
  match_part-Ends token base ip op inside room =
      let offset = bit_or (byte src ip) (byte src (ip + 1) << 8) in
      let Q : Sequence → Type 0 = After base ip op in
      if-Ends Q (ltb (n - ip) 2) _ _ (λ _. tt)
        λ two.
          if-Ends Q (offset == 0 || ltb op offset) _ _ (λ _. tt)
            λ reachable.
              bind-Ends (Behind n (ip + 2)) Q
                (full_length src n cap (bit_and token 15) cap (ip + 2)) _
                (full_length-Ends (bit_and token 15) cap (ip + 2) (ground arith))
                λ r behind.
                  if-Ends Q (ltb (cap - op) (add32 r.0 4)) _ _ (λ _. tt)
                    λ fits. (
                      omega (arith, behind.0),
                      behind.1,
                      ground arith,
                      copy_match-Writes base (op - offset) op (add32 r.0 4),
                    )

  After-Moved :
      (base base' : List ℕ) (ip ip' op op' : ℕ)
      → ip < ip'
      → Writes op op' base base'
      → (q : Sequence) → After base' ip' op' q
      → Moved base ip op q
  unfolding After Moved
  After-Moved base base' ip ip' op op' less w (last b o) (room, w') =
      (room, Writes-trans op op' o base base' b w w')
  After-Moved base base' ip ip' op op' less w (next b i o) (a, inside, room, w') =
      (omega arith, inside, room, Writes-trans op op' o base base' b w w')

  sequence-Ends :
      (base : List ℕ) (ip op : ℕ)
      → ip ≤ n
      → op ≤ cap
      → Ends (Moved base ip op) (sequence src n cap base ip op)
  unfolding sequence Moved
  sequence-Ends base ip op inside room =
      let token : ℕ = byte src ip in
      let Q : Sequence → Type 0 = Moved base ip op in
      if-Ends Q (leb n ip) _ _ (λ _. tt)
        λ more.
          bind-Ends (Behind n (ip + 1)) Q (full_length src n cap (token >> 4) n (ip + 1)) _
            (full_length-Ends (token >> 4) n (ip + 1) (ground arith))
            λ r behind.
              let base' : List ℕ = copy_in base op src r.1 r.0 in
              let w : Writes op (op + r.0) base base' = copy_in-Writes base op src r.1 r.0 in
              if-Ends Q (ltb (n - r.1) r.0) _ _ (λ _. tt)
                λ present.
                  if-Ends Q (ltb (cap - op) r.0) _ _ (λ _. tt)
                    λ fits.
                      if-Ends Q (r.1 + r.0 == n) _ _ (λ _. (ground arith, w))
                        λ _.
                          Ends-map (After base' (r.1 + r.0) (op + r.0)) Q _
                            (After-Moved base base' ip (r.1 + r.0) op (op + r.0)
                              (omega (arith, behind.0)) w)
                            (match_part-Ends token base' (r.1 + r.0) (op + r.0) (ground arith)
                              (ground arith))

  decode_loop-Ends :
      (fuel : ℕ) (base : List ℕ) (ip op : ℕ)
      → ip ≤ n
      → n < ip + fuel
      → op ≤ cap
      → Ends (λ r. (r.1 ≤ cap) × Writes op r.1 base r.0) (decode_loop src n cap fuel base ip op)
  unfolding decode_loop Moved
  decode_loop-Ends zero base ip op inside enough room = absurd (omega arith)
  decode_loop-Ends (suc fuel) base ip op inside enough room =
      let Q : List ℕ × ℕ → Type 0 = λ r. (r.1 ≤ cap) × Writes op r.1 base r.0 in
      let done = sequence-Ends base ip op inside room in
      elim (Result-cases (sequence src n cap base ip op)) [
        | inr (e, same) ↦ rw (decode_loop, same) (err-Ends (Moved base ip op) Q e (rw same at done))
        | inl (last b o, same) ↦ rw (decode_loop, same) (rw same at done)
        | inl (next b i o, same) ↦
            let (moved, inside', room', w) = rw same at done in
            rw (decode_loop, same)
              (Ends-map (λ r. (r.1 ≤ cap) × Writes o r.1 b r.0) Q _
                (λ r h. (h.0, Writes-trans op o r.1 base b r.0 w h.1))
                (decode_loop-Ends fuel b i o inside' (omega arith) room'))
      ]

-- what a call of the decoder that succeeded has done behind `start`
abbrev pub Decoded : ℕ → ℕ → List ℕ → List ℕ × ℤ → Type 0
Decoded cap start base r =
    (got : ℕ) × (r.1 ≡ ℤ.pos got) × (start + got ≤ cap) × Writes start (start + got) base r.0

-- A block given by `n` bytes is decoded behind `pos` in a buffer, up to `cap`, where less than 2^31
-- bytes are left: the call ends, with EINVAL or ENOSPC, or with the number of bytes `got` as an
-- `int`, which is not negative. They fit below `cap`, the buffer is as long as it was, and differs
-- from what it was in the bytes from `pos` to `pos + got` only.
pub decode-Ends :
    (src : List ℕ) (n cap : ℕ) (base : List ℕ) (pos : ℕ)
    → pos ≤ cap
    → cap - pos < 2147483648
    → Ends (Decoded cap pos base) (decode src n cap base pos)
unfolding decode
decode-Ends src n cap base pos room small =
    bind-Ends (λ r. (r.1 ≤ cap) × Writes pos r.1 base r.0) (Decoded cap pos base)
      (decode_loop src n cap (n + 1) base 0 pos) (λ (b, o). ok (b, to_int (o - pos)))
      (decode_loop-Ends src n cap (n + 1) base 0 pos (omega arith) (omega arith) room)
      λ r h.
        let end : pos + (r.1 - pos) ≡ r.1 = omega (arith, h.1.forward) in
        let (fits, writes) = subst (λ (e : ℕ). (e ≤ cap) × Writes pos e base r.0) (sym end) h in
        (r.1 - pos, to_int_small (r.1 - pos) (omega (arith, h.0)), fits, writes)
