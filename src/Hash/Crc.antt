-- ===== src/Hash/Crc.antt =====
-- The table of hash_crc32_update against the polynomial division that it speeds up.
use ceres_standard_library.Prelude.{
  ℕ, zero, suc, ◌-◌, ◌*◌, ◌/◌, ◌%◌, ◌^◌, ◌<◌, ◌≡◌, refl, sym, ap, ◌∙◌, arith, bit_and, bit_xor,
  List, [], ◌∷◌, ◌++◌, get_or, ◌==◌, ==_iff, true, if◌then◌else◌, u32_max,
}
use native.Mathlib.Nat.{pow-succ'}
use ceres_standard_library.Prelude.Bits.{all_below, all_below_lem, and_low_mask}
use ceres_standard_library.Prelude.Xor.{xor_half, xor_low, xor_comm, xor_assoc, xor_lt, xor_as_sum}
use ceres_standard_library.Hash.{crc_loop, hash_crc32, hash_crc32_update}
use ceres_standard_library.Hash.Tables.{crc32_table}

-- One step of the division by the reflected polynomial: the lowest bit says whether to subtract it.
pub bit_step : ℕ → ℕ
bit_step c = if c % 2 == 1 then bit_xor (c / 2) 0xEDB88320 else c / 2

pub bit_steps : ℕ → ℕ → ℕ
unfolding bit_step
bit_steps zero c = c
bit_steps (suc k) c = bit_steps k (bit_step c)

pub divide : List ℕ → ℕ → ℕ
unfolding bit_steps
divide [] c = c
divide (b ∷ bytes) c = divide bytes (bit_steps 8 (bit_xor c b))

-- the checksum by its definition: the remainder, bit by bit
pub crc_by_bits : List ℕ → ℕ
unfolding divide
crc_by_bits bytes = u32_max - divide bytes u32_max

abbrev pub AllBytes : List ℕ → Type 0
AllBytes [] = Unit
AllBytes (b ∷ bytes) = (b < 256) × AllBytes bytes

one_step : (t l : ℕ) → bit_step (bit_xor (t * 2) l) ≡ bit_xor t (bit_step l)
unfolding bit_step
one_step t l =
    let twice : t * 2 / 2 ≡ t = omega arith in
    let half : bit_xor (t * 2) l / 2 ≡ bit_xor t (l / 2) =
      xor_half (t * 2) l ∙ ap (λ (x : ℕ). bit_xor x (l / 2)) twice in
    ground (arith, xor_low (t * 2) l, half, xor_assoc t (l / 2) 0xEDB88320)

steps_split : (k h l : ℕ) → bit_steps k (bit_xor (h * 2 ^ k) l) ≡ bit_xor h (bit_steps k l)
unfolding bit_steps
steps_split zero h l = ap (λ (x : ℕ). bit_xor x l) (omega arith)
steps_split (suc k) h l =
    let two : h * 2 ^ suc k ≡ h * 2 ^ k * 2 =
      omega (arith, ap (λ (t : ℕ). h * t) (pow-succ' 2 k)) in
    ap (λ (x : ℕ). bit_steps k (bit_step (bit_xor x l))) two
    ∙ ap (bit_steps k) (one_step (h * 2 ^ k) l)
    ∙ steps_split k h (bit_step l)

entry : ℕ → ℕ
entry l = get_or crc32_table l 0

table_test : all_below 256 (λ l. entry l == bit_steps 8 l) ≡ true
unfolding all_below entry bit_steps
table_test = refl

-- an entry of the table is what eight steps make of its index
entry_lem : (l : ℕ) → l < 256 → entry l ≡ bit_steps 8 l
entry_lem l h = (==_iff _ _).0 (all_below_lem 256 (λ x. entry x == bit_steps 8 x) l table_test h)

-- a byte meets only the low byte of the register
split_register : (c b : ℕ) → bit_xor c b ≡ bit_xor (c / 256 * 2 ^ 8) (bit_xor (c % 256) b)
split_register c b =
    let parts : c ≡ bit_xor (c / 256 * 2 ^ 8) (c % 256) =
      omega (arith, xor_as_sum 8 (c / 256) (c % 256) (omega arith)) in
    ap (λ (x : ℕ). bit_xor x b) parts ∙ xor_assoc (c / 256 * 2 ^ 8) (c % 256) b

round_lem :
    (c b : ℕ)
    → b < 256
    → bit_xor (entry (bit_and (bit_xor c b) 255)) (c / 2 ^ 8) ≡ bit_steps 8 (bit_xor c b)
round_lem c b byte =
    let l : ℕ = bit_xor (c % 256) b in
    let small : l < 256 = xor_lt 8 (c % 256) b (omega arith) byte in
    let low : bit_and (bit_xor c b) 255 ≡ l =
      omega
        (arith, and_low_mask 8 (bit_xor c b), split_register c b, xor_as_sum 8 (c / 256) l small) in
    ap (λ (x : ℕ). bit_xor (entry x) (c / 256)) low
    ∙ ap (λ (x : ℕ). bit_xor x (c / 256)) (entry_lem l small)
    ∙ xor_comm (bit_steps 8 l) (c / 256)
    ∙ sym (steps_split 8 (c / 256) l)
    ∙ sym (ap (bit_steps 8) (split_register c b))

crc_loop-divide : (bytes : List ℕ) (c : ℕ) → AllBytes bytes → crc_loop bytes c ≡ divide bytes c
unfolding crc_loop divide entry
crc_loop-divide [] c h = refl
crc_loop-divide (b ∷ bytes) c (byte, rest) =
    ap (crc_loop bytes) (round_lem c b byte)
    ∙ crc_loop-divide bytes (bit_steps 8 (bit_xor c b)) rest

-- On bytes the table-driven checksum is the remainder of the division by the polynomial.
pub hash_crc32-crc_by_bits :
    (bytes : List ℕ) → AllBytes bytes → hash_crc32 bytes ≡ crc_by_bits bytes
unfolding hash_crc32 crc_by_bits
hash_crc32-crc_by_bits bytes h = ap (λ (x : ℕ). u32_max - x) (crc_loop-divide bytes u32_max h)

-- the register stays a 32-bit word
step_word : (c : ℕ) → c < 2 ^ 32 → bit_step c < 2 ^ 32
unfolding bit_step
step_word c h = ground (arith, xor_lt 32 (c / 2) 0xEDB88320 (omega arith) (omega arith))

steps_word : (k c : ℕ) → c < 2 ^ 32 → bit_steps k c < 2 ^ 32
unfolding bit_steps
steps_word zero c h = h
steps_word (suc k) c h = steps_word k (bit_step c) (step_word c h)

divide_word : (bytes : List ℕ) (c : ℕ) → AllBytes bytes → c < 2 ^ 32 → divide bytes c < 2 ^ 32
unfolding divide
divide_word [] c h word = word
divide_word (b ∷ bytes) c (byte, rest) word =
    divide_word bytes (bit_steps 8 (bit_xor c b)) rest
      (steps_word 8 (bit_xor c b) (xor_lt 32 c b word (omega arith)))

crc_loop-append : (xs ys : List ℕ) (c : ℕ) → crc_loop (xs ++ ys) c ≡ crc_loop ys (crc_loop xs c)
unfolding crc_loop
crc_loop-append [] ys c = refl
crc_loop-append (x ∷ xs) ys c = crc_loop-append xs ys _

-- The checksum may be taken in parts: updating with some bytes and then with more is updating with
-- all of them.
pub hash_crc32_update-append :
    (crc : ℕ) (xs ys : List ℕ)
    → crc < 2 ^ 32
    → AllBytes xs
    → hash_crc32_update (hash_crc32_update crc xs) ys ≡ hash_crc32_update crc (xs ++ ys)
unfolding hash_crc32_update
hash_crc32_update-append crc xs ys word h =
    let back : u32_max - (u32_max - crc_loop xs (u32_max - crc)) ≡ crc_loop xs (u32_max - crc) =
      omega (
        arith,
        crc_loop-divide xs (u32_max - crc) h,
        divide_word xs (u32_max - crc) h (omega arith),
      ) in
    ap (λ (x : ℕ). u32_max - crc_loop ys x) back
    ∙ sym (ap (λ (x : ℕ). u32_max - x) (crc_loop-append xs ys (u32_max - crc)))
