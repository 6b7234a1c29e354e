-- ===== src/Bitset/Bits.antt =====
-- Single bits of a set: what `bitset_set` writes and `bitset_get` reads.
use native.Mathlib.Nat.{div-div-eq-div-mul, pow-succ'}
use native.Mathlib.Omega.{arith}
use ceres_standard_library.Prelude.{
  ℕ, zero, suc, ◌*◌, ◌/◌, ◌%◌, ◌^◌, ◌<◌, ◌≤◌, ◌≡◌, refl, sym, ap, ◌∙◌, max, bit_and, bit_or, length,
  get_or, set, List, [], ◌∷◌, ◌<<◌, dec_lt, ℕ_discrete, ==_iff, ◌==◌, true, ◌≢◌,
}
use ceres_standard_library.Prelude.Bits.{all_below, all_below_lem, or_digit, and_low_mask}
use ceres_standard_library.Bitset.{Bitset, bitset_get, bitset_set}

or_half :
    (a b : ℕ) → (bit_or a b / 2 ≡ bit_or (a / 2) (b / 2)) × (bit_or a b % 2 ≡ max (a % 2) (b % 2))
or_half a b = (omega (arith, or_digit a b), omega (arith, or_digit a b))

shift_step : (j a : ℕ) → a / 2 ^ suc j ≡ a / 2 / 2 ^ j
shift_step j a = rw (pow-succ' 2 j) (sym (div-div-eq-div-mul a 2 (2 ^ j)))

-- the bit `j` of `a | b`
or_bit : (j a b : ℕ) → bit_or a b / 2 ^ j % 2 ≡ max (a / 2 ^ j % 2) (b / 2 ^ j % 2)
or_bit zero a b = omega (arith, (or_half a b).1)
or_bit (suc j) a b =
    rw (shift_step j (bit_or a b), shift_step j a, shift_step j b, (or_half a b).0)
      (or_bit j (a / 2) (b / 2))

module _ {ℓ} {A : Type ℓ} where
  get_or-set_self : (xs : List A) (i : ℕ) (v d : A) → i < length xs → get_or (set xs i v) i d ≡ v
  get_or-set_self [] i v d h = absurd (omega arith)
  get_or-set_self (x ∷ xs) zero v d h = refl
  get_or-set_self (x ∷ xs) (suc i) v d h = get_or-set_self xs i v d (omega arith)

  get_or-set_ne :
      (xs : List A) (i j : ℕ) (v d : A) → i ≢ j → get_or (set xs i v) j d ≡ get_or xs j d
  get_or-set_ne [] i j v d h = refl
  get_or-set_ne (x ∷ xs) zero zero v d h = absurd (h refl)
  get_or-set_ne (x ∷ xs) zero (suc j) v d h = refl
  get_or-set_ne (x ∷ xs) (suc i) zero v d h = refl
  get_or-set_ne (x ∷ xs) (suc i) (suc j) v d h = get_or-set_ne xs i j v d (λ e. h (ap suc e))

  set_outside : (xs : List A) (i : ℕ) (v : A) → length xs ≤ i → set xs i v ≡ xs
  set_outside [] i v h = refl
  set_outside (x ∷ xs) zero v h = absurd (omega arith)
  set_outside (x ∷ xs) (suc i) v h = ap (λ l. x ∷ l) (set_outside xs i v (omega arith))

-- bit `i` of the words
abbrev pub bit_of : List ℕ → ℕ → ℕ
bit_of w i = get_or w (i / 32) 0 / 2 ^ (i % 32) % 2

pub bitset_get_lem : (s : Bitset) (i : ℕ) → bitset_get s i ≡ bit_of s.w i
unfolding bitset_get
bitset_get_lem s i =
    ap (λ (k : ℕ). bit_and (get_or s.w (i / 32) 0 / 2 ^ k) 1) (and_low_mask 5 i) ∙ and_low_mask 1 _

one_bit : (k : ℕ) → k < 32 → (1 << k) / 2 ^ k % 2 ≡ 1
unfolding all_below
one_bit k h = (==_iff _ _).0 (all_below_lem 32 (λ j. (1 << j) / 2 ^ j % 2 == 1) k table h)
  where
    table : all_below 32 (λ j. (1 << j) / 2 ^ j % 2 == 1) ≡ true
    table = refl

set_words :
    (s : Bitset) (i : ℕ)
    → (bitset_set s i).w ≡ set s.w (i / 32) (bit_or (get_or s.w (i / 32) 0) (1 << (i % 32)))
unfolding bitset_set
set_words s i =
    ap (λ (k : ℕ). set s.w (i / 32) (bit_or (get_or s.w (i / 32) 0) (1 << k))) (and_low_mask 5 i)

or_sets : (w v k : ℕ) → v / 2 ^ k % 2 ≡ 1 → bit_or w v / 2 ^ k % 2 ≡ 1
or_sets w v k h = omega (arith, or_bit k w v)

-- A set bit reads as 1, and a bit that read as 1 still does, whichever bit is set.
pub set_hit : (s : Bitset) (i : ℕ) → i < 32 * length s.w → bit_of (bitset_set s i).w i ≡ 1
set_hit s i h =
    rw (set_words s i, get_or-set_self s.w (i / 32) _ 0 (omega arith))
      (or_sets (get_or s.w (i / 32) 0) (1 << (i % 32)) (i % 32) (one_bit (i % 32) (omega arith)))

or_keeps :
    (w : List ℕ) (k v : ℕ) (j : ℕ)
    → get_or w k 0 / 2 ^ j % 2 ≡ 1
    → get_or (set w k (bit_or (get_or w k 0) v)) k 0 / 2 ^ j % 2 ≡ 1
or_keeps w k v j h = elim (dec_lt k (length w)) [
  | yes inside ↦
      rw (get_or-set_self w k (bit_or (get_or w k 0) v) 0 inside)
        (omega (arith, or_bit j (get_or w k 0) v))
  | no outside ↦ rw (set_outside w k (bit_or (get_or w k 0) v) (omega arith)) h
]

pub set_keep : (s : Bitset) (i j : ℕ) → bit_of s.w j ≡ 1 → bit_of (bitset_set s i).w j ≡ 1
set_keep s i j h = rw (set_words s i) (elim (ℕ_discrete (i / 32) (j / 32)) [
  | no other ↦
      rw
        (get_or-set_ne s.w (i / 32) (j / 32) (bit_or (get_or s.w (i / 32) 0) (1 << (i % 32))) 0
          other)
        h
  | yes same ↦ rw same (or_keeps s.w (j / 32) (1 << (i % 32)) (j % 32) h)
])
