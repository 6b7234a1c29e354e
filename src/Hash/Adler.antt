-- ===== src/Hash/Adler.antt =====
-- hash_adler32, which reduces its sums once for each chunk, against Adler-32 as RFC 1950 has it.
use ceres_standard_library.Prelude.{
  ℕ, zero, suc, ◌+◌, ◌*◌, ◌%◌, ◌^◌, ◌<◌, ◌≤◌, ◌≡◌, refl, sym, ap, ◌∙◌, arith, bit_or, List, [], ◌∷◌,
  ◌++◌, length, take, drop, min, add32, take-append-drop, length-drop,
}
use ceres_standard_library.Prelude.Bits.{or_as_sum}
use ceres_standard_library.Hash.{adler_chunk, adler_loop, hash_adler32}
use ceres_standard_library.Hash.Crc.{AllBytes}

-- the two sums, each reduced at every byte
abbrev sums : List ℕ → ℕ → ℕ → ℕ × ℕ
sums [] a b = (a, b)
sums (x ∷ bytes) a b = let a' = (a + x) % 65521 in sums bytes a' ((b + a') % 65521)

unfoldable pub adler_by_bytes : List ℕ → ℕ
adler_by_bytes bytes = let (a, b) = sums bytes 1 0 in b * 65536 + a

sums-append :
    (xs ys : List ℕ) (a b : ℕ) → sums (xs ++ ys) a b ≡ sums ys ((sums xs a b).0) ((sums xs a b).1)
sums-append [] ys a b = refl
sums-append (x ∷ xs) ys a b = sums-append xs ys _ _

-- the second sum after so many bytes 255
unfoldable worst : ℕ → ℕ → ℕ → ℕ
worst zero a b = b
worst (suc left) a b = worst left (a + 255) (b + (a + 255))

worst_mono : (left : ℕ) (a a' b b' : ℕ) → a ≤ a' → b ≤ b' → worst left a b ≤ worst left a' b'
unfolding worst
worst_mono zero a a' b b' h k = k
worst_mono (suc left) a a' b b' h k = worst_mono left _ _ _ _ (omega arith) (omega arith)

worst_grows : (left a b : ℕ) → b ≤ worst left a b
unfolding worst
worst_grows zero a b = omega arith
worst_grows (suc left) a b = omega (arith, worst_grows left (a + 255) (b + (a + 255)))

worst_longer : (left more a b : ℕ) → left ≤ more → worst left a b ≤ worst more a b
unfolding worst
worst_longer zero more a b h = worst_grows more a b
worst_longer (suc left) zero a b h = absurd (omega arith)
worst_longer (suc left) (suc more) a b h = worst_longer left more _ _ (omega arith)

chunk_fits : worst 5552 65520 65520 < 2 ^ 32
unfolding worst
chunk_fits = omega arith

abbrev reduced : ℕ × ℕ → ℕ × ℕ
reduced p = (p.0 % 65521, p.1 % 65521)

-- in a chunk no sum wraps, so its sums are those of the bytes, reduced at the end
chunk_lem :
    (left : ℕ) (bytes : List ℕ) (a b : ℕ)
    → AllBytes bytes
    → worst left a b < 2 ^ 32
    → reduced (adler_chunk left bytes a b) ≡ sums (take left bytes) (a % 65521) (b % 65521)
unfolding adler_chunk worst
chunk_lem zero bytes a b h fits = refl
chunk_lem (suc left) [] a b h fits = refl
chunk_lem (suc left) (x ∷ bytes) a b (byte, h) fits =
    let grows = worst_grows left (a + 255) (b + (a + 255)) in
    let less =
      worst_mono left (a + x) (a + 255) (b + (a + x)) (b + (a + 255)) (omega arith) (omega arith) in
    let sum : add32 a x ≡ a + x = omega arith in
    let sum' : add32 b (a + x) ≡ b + (a + x) = omega arith in
    let late : (a % 65521 + x) % 65521 ≡ (a + x) % 65521 = omega arith in
    let late' : (b % 65521 + (a + x) % 65521) % 65521 ≡ (b + (a + x)) % 65521 = omega arith in
    ap (λ (y : ℕ). reduced (adler_chunk left bytes y (add32 b y))) sum
    ∙ ap (λ (y : ℕ). reduced (adler_chunk left bytes (a + x) y)) sum'
    ∙ chunk_lem left bytes (a + x) (b + (a + x)) h (omega arith)
    ∙ sym (
        ap (λ (y : ℕ). sums (take left bytes) y ((b % 65521 + y) % 65521)) late
        ∙ ap (λ (y : ℕ). sums (take left bytes) ((a + x) % 65521) y) late')

drop-AllBytes : (n : ℕ) (bytes : List ℕ) → AllBytes bytes → AllBytes (drop n bytes)
drop-AllBytes zero bytes h = h
drop-AllBytes (suc n) [] h = h
drop-AllBytes (suc n) (x ∷ bytes) (byte, h) = drop-AllBytes n bytes h

room_for_chunk : (chunk a b : ℕ) → chunk ≤ 5552 → a < 65521 → b < 65521 → worst chunk a b < 2 ^ 32
room_for_chunk chunk a b h small small' = omega (
  arith,
  worst_longer chunk 5552 a b h,
  worst_mono 5552 a 65520 b 65520 (omega arith) (omega arith),
  chunk_fits,
)

loop_lem :
    (fuel : ℕ) (bytes : List ℕ) (a b : ℕ)
    → AllBytes bytes
    → length bytes ≤ fuel
    → a < 65521
    → b < 65521
    → adler_loop fuel bytes a b ≡ sums bytes a b
unfolding adler_loop
loop_lem zero [] a b h enough small small' = refl
loop_lem zero (x ∷ bytes) a b h enough small small' = absurd (omega arith)
loop_lem (suc fuel) [] a b h enough small small' = refl
loop_lem (suc fuel) (x ∷ bytes) a b h enough small small' =
    let whole : List ℕ = x ∷ bytes in
    let chunk : ℕ = min (length whole) 5552 in
    let fits = room_for_chunk chunk a b (omega arith) small small' in
    let same : a % 65521 ≡ a = omega arith in
    let same' : b % 65521 ≡ b = omega arith in
    let (a', b') = adler_chunk chunk whole a b in
    let part : (a' % 65521, b' % 65521) ≡ sums (take chunk whole) a b =
      chunk_lem chunk whole a b h fits
      ∙ ap (λ (p : ℕ × ℕ). sums (take chunk whole) (p.0) (p.1)) (rw (same, same')) in
    loop_lem fuel (drop chunk whole) (a' % 65521) (b' % 65521) (drop-AllBytes chunk whole h)
      (omega (arith, length-drop chunk whole)) (omega arith) (omega arith)
    ∙ ap (λ (p : ℕ × ℕ). sums (drop chunk whole) (p.0) (p.1)) part
    ∙ sym (sums-append (take chunk whole) (drop chunk whole) a b)
    ∙ ap (λ (l : List ℕ). sums l a b) (take-append-drop chunk whole)

sums_small :
    (bytes : List ℕ) (a b : ℕ)
    → a < 65521
    → b < 65521
    → ((sums bytes a b).0 < 65521) × ((sums bytes a b).1 < 65521)
sums_small [] a b h k = (h, k)
sums_small (x ∷ bytes) a b h k = sums_small bytes _ _ (omega arith) (omega arith)

-- On bytes hash_adler32 is Adler-32 with both sums reduced at every byte: the sums of a chunk do
-- not overflow 32 bits.
pub hash_adler32-adler_by_bytes :
    (bytes : List ℕ) → AllBytes bytes → hash_adler32 bytes ≡ adler_by_bytes bytes
unfolding hash_adler32 adler_by_bytes
hash_adler32-adler_by_bytes bytes h =
    let (small, small') = sums_small bytes 1 0 (omega arith) (omega arith) in
    let (a, b) = sums bytes 1 0 in
    let shifted : b * 65536 % 2 ^ 32 ≡ b * 2 ^ 16 = omega arith in
    ap (λ (p : ℕ × ℕ). bit_or (p.1 * 65536 % 2 ^ 32) (p.0))
      (loop_lem (length bytes) bytes 1 0 h (omega arith) (omega arith) (omega arith))
    ∙ ap (λ (y : ℕ). bit_or y a) shifted
    ∙ or_as_sum 16 b a (omega arith)
