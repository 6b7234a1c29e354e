-- ===== src/Utf8/Valid.antt =====
-- `utf8_valid` accepts exactly the texts that are written by `utf8_encode`.
use ceres_standard_library.Prelude.{
  ℕ, zero, suc, ◌+◌, ◌-◌, ◌≤◌, ◌<◌, ◌≡◌, ◌≢◌, ◌⊎◌, ◌↔◌, inl, inr, refl, arith, min, List, [], ◌∷◌,
  ◌++◌, ◌∙◌, length, length-append, length-drop, length-take, take-append-drop, append_assoc, ap,
  sym, take, drop, true, false, some, Bool,
}
use ceres_standard_library.Utf8.{
  Mbstate, feed, Decoded, nothing, invalid, fault, char, initial, decode_loop, utf8_decode,
  utf8_encode, valid_loop, utf8_valid,
}
use ceres_standard_library.Utf8.Feed.{IsScalar}
use ceres_standard_library.Utf8.RoundTrip.{decode-encode}
use ceres_standard_library.Utf8.Inversion.{decode-Canonical}

pub encode_all : List ℕ → List ℕ
encode_all [] = []
encode_all (cp ∷ cps) = utf8_encode cp ++ encode_all cps

abbrev pub AllScalar : List ℕ → Type 0
AllScalar [] = Unit
AllScalar (cp ∷ cps) = IsScalar cp × AllScalar cps

encode_pos : (cp : ℕ) → IsScalar cp → (0 < length (utf8_encode cp)) × (length (utf8_encode cp) ≤ 4)
unfolding utf8_encode
encode_pos cp h = ground arith

drop-append : (xs ys : List ℕ) → drop (length xs) (xs ++ ys) ≡ ys
drop-append [] ys = refl
drop-append (x ∷ xs) ys = drop-append xs ys

valid-char :
    (fuel : ℕ) (s : List ℕ) (n cp k : ℕ)
    → 0 < n
    → utf8_decode s n ≡ char cp k
    → valid_loop (suc fuel) s n ≡ valid_loop fuel (drop k s) (n - k)
unfolding valid_loop
valid-char fuel s n cp k h e = ground arith

valid_loop-encode_all :
    (cps : List ℕ) (rest : List ℕ) (fuel n : ℕ)
    → AllScalar cps
    → n ≡ length (encode_all cps)
    → n < fuel
    → valid_loop fuel (encode_all cps ++ rest) n ≡ some true
unfolding encode_all
valid_loop-encode_all cps rest zero n s e h = absurd (omega arith)
valid_loop-encode_all [] rest (suc fuel) n s e h = unfold valid_loop in ground arith
valid_loop-encode_all (cp ∷ cps) rest (suc fuel) n s e h =
    let w = length (utf8_encode cp) in
    let total = length-append (utf8_encode cp) (encode_all cps) in
    let pos = encode_pos cp s.0 in
    rw append_assoc (
      valid-char fuel (utf8_encode cp ++ (encode_all cps ++ rest)) n cp w
        (omega (arith, total, pos))
        (decode-encode cp (encode_all cps ++ rest) n s.0 (omega (arith, total)))
      ∙ rw (drop-append (utf8_encode cp) (encode_all cps ++ rest)) (
          valid_loop-encode_all cps rest fuel (n - w) s.1 (omega (arith, total))
            (omega (arith, total, pos))))

loop-ne-nothing :
    (rounds : ℕ) (st : Mbstate) (s : List ℕ) (i : ℕ) → decode_loop rounds st s i ≢ nothing
unfolding decode_loop
loop-ne-nothing zero st s i = λ h. cc
loop-ne-nothing (suc r) st [] i = λ h. cc
loop-ne-nothing (suc r) st (b ∷ s) i =
    λ h. ground (arith, loop-ne-nothing r (feed st b).0 s (i + 1))

loop-ne-fault :
    (rounds : ℕ) (st : Mbstate) (s : List ℕ) (i : ℕ)
    → rounds ≤ length s
    → decode_loop rounds st s i ≢ fault
unfolding decode_loop
loop-ne-fault zero st s i le = λ h. cc
loop-ne-fault (suc r) st [] i le = absurd (omega arith)
loop-ne-fault (suc r) st (b ∷ s) i le = λ h. ground (arith, loop-ne-fault r (feed st b).0 s (i + 1))

decode-ne-nothing : (s : List ℕ) (n : ℕ) → 0 < n → utf8_decode s n ≢ nothing
unfolding utf8_decode
decode-ne-nothing s n h = λ e. ground (arith, loop-ne-nothing (min n 4) initial s 0)

decode-ne-fault : (s : List ℕ) (n : ℕ) → n ≤ length s → utf8_decode s n ≢ fault
unfolding utf8_decode
decode-ne-fault s n h = λ e. ground (arith, loop-ne-fault (min n 4) initial s 0)

-- One round of the loop at a text with bytes left.
valid_loop_step :
    (fuel : ℕ) (s : List ℕ) (n : ℕ)
    → 0 < n
    → n ≤ length s
    → (valid_loop (suc fuel) s n ≡ some false)
      ⊎ ((cp : ℕ) × (k : ℕ) × (utf8_decode s n ≡ char cp k)
          × (valid_loop (suc fuel) s n ≡ valid_loop fuel (drop k s) (n - k)))
valid_loop_step fuel s n pos le = go (utf8_decode s n) refl
  where
    go :
        (d : Decoded)
        → utf8_decode s n ≡ d
        → (valid_loop (suc fuel) s n ≡ some false)
          ⊎ ((cp : ℕ) × (k : ℕ) × (utf8_decode s n ≡ char cp k)
              × (valid_loop (suc fuel) s n ≡ valid_loop fuel (drop k s) (n - k)))
    go nothing e = absurd (decode-ne-nothing s n pos e)
    go invalid e = inl (unfold valid_loop in ground arith)
    go fault e = absurd (decode-ne-fault s n le e)
    go (char cp k) e = inr (cp, k, e, valid-char fuel s n cp k pos e)

-- The loop moves on by at least one byte, and stays inside the text.
char-progress :
    (s : List ℕ) (n cp k : ℕ)
    → n ≤ length s
    → utf8_decode s n ≡ char cp k
    → (0 < k) × (k ≤ n) × (n - k ≤ length (drop k s))
char-progress s n cp k le e =
    let (c, fits) = decode-Canonical s n cp k e in
    let pos = encode_pos cp c.scalar in
    (omega (arith, c.width), fits, omega (arith, length-drop k s))

take-append :
    (n : ℕ) (xs ys : List ℕ) → length xs ≤ n → take n (xs ++ ys) ≡ xs ++ take (n - length xs) ys
take-append n [] ys h = ap (λ (m : ℕ). take m ys) (omega arith)
take-append zero (x ∷ xs) ys h = absurd (omega arith)
take-append (suc n) (x ∷ xs) ys h =
    ap (λ (l : List ℕ). x ∷ l)
      (take-append n xs ys (omega arith) ∙ ap (λ (m : ℕ). xs ++ take m ys) (omega arith))

abbrev pub Spelled : List ℕ → Type 0
Spelled bytes = (cps : List ℕ) × AllScalar cps × (bytes ≡ encode_all cps)

Spelled-cons :
    (s : List ℕ) (n cp k : ℕ)
    → utf8_decode s n ≡ char cp k
    → Spelled (take (n - k) (drop k s))
    → Spelled (take n s)
unfolding encode_all
Spelled-cons s n cp k e (cps, all, spelled) =
    let (c, fits) = decode-Canonical s n cp k e in
    (
      cp ∷ cps,
      (c.scalar, all),
      ap (take n) c.bytes
          ∙ take-append n (utf8_encode cp) (drop k s) (omega (arith, c.width))
          ∙ ap (λ (m : ℕ). utf8_encode cp ++ take (n - m) (drop k s)) (sym c.width)
          ∙ ap (λ (t : List ℕ). utf8_encode cp ++ t) spelled,
    )

take-zero : (s : List ℕ) (n : ℕ) → n ≡ 0 → take n s ≡ []
take-zero s n e = rw e

valid_loop-Spelled :
    (fuel : ℕ) (s : List ℕ) (n : ℕ)
    → n ≤ length s
    → valid_loop fuel s n ≡ some true
    → Spelled (take n s)
valid_loop-Spelled zero s n le h = unfold valid_loop in cc
valid_loop-Spelled (suc fuel) s zero le h = ([], tt, unfold encode_all in refl)
valid_loop-Spelled (suc fuel) s (suc n) le h =
    elim (valid_loop_step fuel s (suc n) (omega arith) le) [
      | inl no_char ↦ cc (no_char, h)
      | inr (cp, k, e, goes_on) ↦
          let (pos, fits, left) = char-progress s (suc n) cp k le e in
          Spelled-cons s (suc n) cp k e
            (valid_loop-Spelled fuel (drop k s) (suc n - k) left (sym goes_on ∙ h))
    ]

valid_loop_total :
    (fuel : ℕ) (s : List ℕ) (n : ℕ)
    → n ≤ length s
    → n < fuel
    → (b : Bool) × (valid_loop fuel s n ≡ some b)
valid_loop_total zero s n le h = absurd (omega arith)
valid_loop_total (suc fuel) s zero le h = (true, unfold valid_loop in refl)
valid_loop_total (suc fuel) s (suc n) le h =
    elim (valid_loop_step fuel s (suc n) (omega arith) le) [
      | inl no_char ↦ (false, no_char)
      | inr (cp, k, e, goes_on) ↦
          let (pos, fits, left) = char-progress s (suc n) cp k le e in
          let (b, eq) = valid_loop_total fuel (drop k s) (suc n - k) left (omega arith) in
          (b, goes_on ∙ eq)
    ]

-- On `n` bytes inside an object `utf8_valid` reads nothing past them, ends, and says yes exactly
-- when they are the encodings of Unicode scalar values, one after another.
pub utf8_valid_iff :
    (s : List ℕ) (n : ℕ)
    → n ≤ length s
    → ((b : Bool) × (utf8_valid s n ≡ some b)) × ((utf8_valid s n ≡ some true) ↔ Spelled (take n s))
utf8_valid_iff s n le = (
  unfold utf8_valid in valid_loop_total (n + 1) s n le (omega arith),
  (
    unfold utf8_valid in valid_loop-Spelled (n + 1) s n le,
    λ (cps, all, spelled).
        let w : length (encode_all cps) ≡ n =
          ap length (sym spelled) ∙ omega (arith, length-take n s) in
        unfold utf8_valid in
        sym (
          ap (λ (t : List ℕ). valid_loop (n + 1) t n)
            (ap (λ (u : List ℕ). u ++ drop n s) (sym spelled) ∙ take-append-drop n s))
        ∙ valid_loop-encode_all cps (drop n s) (n + 1) n all (sym w) (omega arith),
  ),
)
