-- ===== src/Queue/Represents.antt =====
-- What a valid queue holds, and the arithmetic of its slots.
use native.Mathlib.Nat.{
  mod-add-mod, mod-eq_of_lt, mod-eq-sub-mod, mod-mod_of_dvd, mod-lt, dvd_of_mod-eq-zero,
  pow-le-pow_right,
}
use ceres_standard_library.Prelude.{
  ℕ, ◌+◌, ◌-◌, ◌%◌, ◌^◌, ◌<◌, ◌≤◌, ◌≡◌, ◌≢◌, refl, arith, bit_and, List, length, get_elem?, ◌∙◌, ap,
  sym, add32, u32_size, dec_lt, ◌==◌, true, ==_iff,
}
use ceres_standard_library.Prelude.Bits.{and_low_mask, all_below, all_below_lem}
use ceres_standard_library.Queue.{Cqueue, cq_count}

pub record IsValid {ℓ} {A : Type ℓ} (q : Cqueue A) : Type ℓ where
  pub bits : ℕ
  pub narrow : bits ≤ 31
  pub masks : q.mask + 1 ≡ 2 ^ bits
  pub storage : q.mask < length q.buf
  pub head_fits : q.head < u32_size
  pub tail_fits : q.tail < u32_size
  pub bounded : cq_count q ≤ q.mask + 1

pow_divides : all_below 32 (λ k. u32_size % 2 ^ k == 0) ≡ true
unfolding all_below
pow_divides = refl

-- Wrapping at 2^32 does not disturb an index below a power of two.
wrap-mod : (k x : ℕ) → k ≤ 31 → x % u32_size % 2 ^ k ≡ x % 2 ^ k
wrap-mod k x h = mod-mod_of_dvd (2 ^ k) x (
    dvd_of_mod-eq-zero (2 ^ k)
      ((==_iff _ 0).0 (all_below_lem 32 (λ j. u32_size % 2 ^ j == 0) k pow_divides (omega arith))))

-- `cap - 1` is a mask: the slot of an index is its remainder by the capacity.
pub masked :
    (mask bits x : ℕ)
    → bits ≤ 31
    → mask + 1 ≡ 2 ^ bits
    → bit_and (x % u32_size) mask ≡ x % (mask + 1)
masked mask bits x h e =
    let m : mask ≡ 2 ^ bits - 1 = omega arith in
    ap (bit_and (x % u32_size)) m
    ∙ and_low_mask bits (x % u32_size)
    ∙ wrap-mod bits x h
    ∙ ap (λ (c : ℕ). x % c) (sym e)

-- Fewer steps than the capacity do not come back to the slot they started from.
pub add-mod-ne : (x d c : ℕ) → 0 < d → d < c → (x + d) % c ≢ x % c
add-mod-ne x d c pos less =
    let r : x % c < c = mod-lt x (omega arith) in
    let folded : (x % c + d) % c ≡ (x + d) % c = mod-add-mod x c d in
    elim (dec_lt (x % c + d) c) [
      | yes p ↦ omega (arith, mod-eq_of_lt p)
      | no p ↦ omega (
        arith,
        mod-eq-sub-mod {n = x % c + d} {m = c} (omega arith),
        mod-eq_of_lt {n = x % c + d - c} {m = c} (omega arith),
      )
    ]

-- The slot of the element that is `i` places behind the oldest one.
abbrev pub slot {ℓ} : {A : Type ℓ} → Cqueue A → ℕ → ℕ
slot q i = bit_and (add32 q.tail i) q.mask

-- The queue holds exactly the elements `xs`, the oldest first.
pub record Holds {ℓ} {A : Type ℓ} (q : Cqueue A) (xs : List A) : Type ℓ where
  pub valid : IsValid q
  pub size : length xs ≡ cq_count q
  pub at : (i : ℕ) → i < length xs → get_elem? q.buf (slot q i) ≡ get_elem? xs i

module _ {ℓ} {A : Type ℓ} {q : Cqueue A} (v : IsValid q) where
  pub mask-lt : q.mask < 0x8000_0000
  mask-lt = omega (arith, pow-le-pow_right {n = 2} (omega arith) v.narrow, v.masks)

  pub slot_lem : (i : ℕ) → slot q i ≡ (q.tail + i) % (q.mask + 1)
  slot_lem i = masked q.mask v.bits (q.tail + i) v.narrow v.masks

  pub slot-lt : (i : ℕ) → slot q i < length q.buf
  slot-lt i =
      omega (arith, slot_lem i, mod-lt (q.tail + i) {m = q.mask + 1} (omega arith), v.storage)

  pub slot-ne : (i j : ℕ) → i < j → j ≤ q.mask → slot q j ≢ slot q i
  slot-ne i j less fits =
      let same : q.tail + i + (j - i) ≡ q.tail + j = omega arith in
      omega (
        arith,
        slot_lem i,
        slot_lem j,
        add-mod-ne (q.tail + i) (j - i) (q.mask + 1) (omega arith) (omega arith),
        ap (λ (x : ℕ). x % (q.mask + 1)) same,
      )

  -- The slot that a put writes is the one behind the last element.
  pub head-slot : bit_and q.head q.mask ≡ slot q (cq_count q)
  unfolding cq_count
  head-slot = ap (λ (h : ℕ). bit_and h q.mask) (omega (arith, v.head_fits, v.tail_fits))
