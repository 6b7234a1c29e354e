-- ===== src/Gmap/Probe.antt =====
-- The order in which the slots are probed, from the one of the hash on.
use native.Mathlib.Nat.{mod-add-mod, mod-eq_of_lt, mod-lt, mod-eq-sub-mod}
use ceres_standard_library.Prelude.{
  ℕ, ◌+◌, ◌-◌, ◌%◌, ◌^◌, ◌<◌, ◌≤◌, ◌≡◌, sym, ap, ◌∙◌, arith, dec_le, bit_and, add32, u32_size,
}
use ceres_standard_library.Queue.Represents.{masked}

-- the slot that is probed after `e` others
abbrev pub place_of : ℕ → ℕ → ℕ → ℕ
place_of cap h e = (h + e) % cap

-- a capacity that the masks of the code fit
pub record IsCapacity (cap : ℕ) : Type 0 where
  pub bits : ℕ
  pub narrow : bits ≤ 31
  pub power : cap ≡ 2 ^ bits
  pub positive : 0 < cap
  pub word : cap < u32_size

module _ {cap : ℕ} (c : IsCapacity cap) where
  low_bits : (x : ℕ) → bit_and (x % u32_size) (cap - 1) ≡ x % cap
  low_bits x =
      let back : cap - 1 + 1 ≡ cap = omega (arith, c.positive) in
      masked (cap - 1) c.bits x c.narrow (back ∙ c.power) ∙ ap (λ (n : ℕ). x % n) back

  pub first_place : (h : ℕ) → h < u32_size → bit_and h (cap - 1) ≡ place_of cap h 0
  first_place h word =
      ap (λ (x : ℕ). bit_and x (cap - 1)) (sym (mod-eq_of_lt word))
      ∙ low_bits h
      ∙ ap (λ (x : ℕ). x % cap) (omega arith)

  pub next_place :
      (h e : ℕ) → bit_and (add32 (place_of cap h e) 1) (cap - 1) ≡ place_of cap h (e + 1)
  next_place h e =
      low_bits (place_of cap h e + 1)
      ∙ mod-add-mod (h + e) cap 1
      ∙ ap (λ (x : ℕ). x % cap) (omega arith)

-- every slot is probed
pub cover : (cap h j : ℕ) → j < cap → (d : ℕ) × (d < cap) × (place_of cap h d ≡ j)
cover cap h j less =
    let r : h % cap < cap = mod-lt h (omega arith) in
    elim (dec_le (h % cap) j) [
      | yes p ↦
          let up : h % cap + (j - h % cap) ≡ j = omega arith in
          (
            j - h % cap,
            omega arith,
            sym (mod-add-mod h cap (j - h % cap)) ∙ ap (λ (x : ℕ). x % cap) up ∙ mod-eq_of_lt less,
          )
      | no p ↦
          let up : h % cap + (j + cap - h % cap) ≡ j + cap = omega arith in
          let down : j + cap - cap ≡ j = omega arith in
          (
            j + cap - h % cap,
            omega arith,
            sym (mod-add-mod h cap (j + cap - h % cap))
                ∙ ap (λ (x : ℕ). x % cap) up
                ∙ mod-eq-sub-mod {n = j + cap} {m = cap} (omega arith)
                ∙ ap (λ (x : ℕ). x % cap) down
                ∙ mod-eq_of_lt less,
          )
    ]
