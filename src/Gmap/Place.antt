-- ===== src/Gmap/Place.antt =====
-- The probes for a slot to fill, and what a write to a slot does to a table.
use mathlib.Core.Path.{subst}
use ceres_standard_library.Prelude.{
  ℕ, zero, suc, ◌+◌, ◌-◌, ◌<◌, ◌≤◌, ◌≡◌, ◌≢◌, inl, inr, refl, sym, ap, ◌∙◌, arith, List, length,
  bit_and, some, ℕ_discrete, Bool, dec_lt, u32_size,
}
use ceres_standard_library.Gmap.{Slot, empty, used, tombstone, slot_at, empty_from, free_from}
use ceres_standard_library.Gmap.Slots.{entry, taken, count, find_empty}
use ceres_standard_library.Gmap.Probe.{place_of, IsCapacity, first_place, next_place, cover}
use ceres_standard_library.Gmap.Find.{Reaches, Slot-cases}

full_ne_empty : {K V : Type 0} {h : ℕ} {k : K} {v : V} → used h k v ≢ empty
full_ne_empty e = cc

tombstone_ne_empty : {K V : Type 0} → ◌≢◌ {A = Slot K V} tombstone empty
tombstone_ne_empty e = cc

module _ {K V : Type 0} (slots : List (Slot K V)) (cap h : ℕ) where
  -- one more slot in use on the way
  longer :
      (e : ℕ)
      → ((y : ℕ) → y < e → slot_at slots (place_of cap h y) ≢ empty)
      → slot_at slots (place_of cap h e) ≢ empty
      → (y : ℕ) → y < e + 1
      → slot_at slots (place_of cap h y) ≢ empty
  longer e way here y less = elim (dec_lt y e) [
    | yes before ↦ way y before
    | no last ↦
        let same : e ≡ y = omega arith in
        subst (λ (x : ℕ). slot_at slots (place_of cap h x) ≢ empty) same here
  ]

  -- a slot in use is not the free one at `d`
  apart :
      (e d h' : ℕ) (k : K) (v : V)
      → e ≤ d
      → slot_at slots (place_of cap h e) ≡ used h' k v
      → entry (slot_at slots (place_of cap h d)) ≡ 0
      → e + 1 ≤ d
  apart e d h' k v le full free = elim (ℕ_discrete e d) [
    | no other ↦ omega arith
    | yes same ↦
        let one : ◌≡◌ {A = ℕ} 1 0 =
          sym (ap entry full)
          ∙ ap (λ (x : ℕ). entry (slot_at slots (place_of cap h x))) same
          ∙ free in
        absurd (omega arith)
  ]

module _ {K V : Type 0} (hash : K → ℕ) (eq : K → K → Bool) (slots : List (Slot K V)) (cap : ℕ)
    (c : IsCapacity cap) (h : ℕ) where
  -- the way through slots in use leads to one that is not
  free_from_lem :
      (left e d : ℕ)
      → e + left ≡ cap
      → e ≤ d
      → d < cap
      → entry (slot_at slots (place_of cap h d)) ≡ 0
      → ((y : ℕ) → y < e → slot_at slots (place_of cap h y) ≢ empty)
      → (i : ℕ) × (free_from hash eq left slots (cap - 1) (place_of cap h e) ≡ some i)
        × Reaches slots cap h i
        × (entry (slot_at slots i) ≡ 0)
  unfolding free_from
  free_from_lem zero e d total le less stop way = absurd (omega arith)
  free_from_lem (suc left) e d total le less stop way =
      let here : Reaches slots cap h (place_of cap h e) = record {
        steps = e;
        within = omega arith;
        there = refl;
        open_way = way;
      } in
      elim (Slot-cases (slot_at slots (place_of cap h e))) [
        | inl none_there ↦ (place_of cap h e, rw (free_from, none_there), here, ap entry none_there)
        | inr (inl gone) ↦ (place_of cap h e, rw (free_from, gone), here, ap entry gone)
        | inr (inr (h', k, v, full)) ↦
            let (i, run, reach, free) =
              free_from_lem left (e + 1) d (omega arith) (apart slots cap h e d h' k v le full stop)
                less stop (longer slots cap h e way (λ q. full_ne_empty (sym full ∙ q))) in
            (i, rw (free_from, full, next_place c h e) run, reach, free)
      ]

  -- the same for the probe of `rebuild`, which passes what is not a slot never used
  empty_from_lem :
      (given : ℕ → ℕ → Bool) (left e d : ℕ)
      → e + left ≡ cap
      → e ≤ d
      → d < cap
      → slot_at slots (place_of cap h d) ≡ empty
      → ((y : ℕ) → y < e → slot_at slots (place_of cap h y) ≢ empty)
      → (i : ℕ) × (empty_from given left slots (cap - 1) (place_of cap h e) ≡ some i)
        × Reaches slots cap h i
        × (slot_at slots i ≡ empty)
  unfolding empty_from
  empty_from_lem given zero e d total le less stop way = absurd (omega arith)
  empty_from_lem given (suc left) e d total le less stop way =
      let next = λ (other : slot_at slots (place_of cap h e) ≢ empty).
        let le' : e + 1 ≤ d = elim (ℕ_discrete e d) [
          | no before ↦ omega arith
          | yes same ↦ absurd (other (ap (λ (x : ℕ). slot_at slots (place_of cap h x)) same ∙ stop))
        ] in
        empty_from_lem given left (e + 1) d (omega arith) le' less stop
          (longer slots cap h e way other) in
      elim (Slot-cases (slot_at slots (place_of cap h e))) [
        | inl none_there ↦ (
          place_of cap h e,
          rw (empty_from, none_there),
          record { steps = e; within = omega arith; there = refl; open_way = way },
          none_there,
        )
        | inr (inl gone) ↦
            let (i, run, reach, free) = next (λ q. tombstone_ne_empty (sym gone ∙ q)) in
            (i, rw (empty_from, gone, next_place c h e) run, reach, free)
        | inr (inr (h', k, v, full)) ↦
            let (i, run, reach, free) = next (λ q. full_ne_empty (sym full ∙ q)) in
            (i, rw (empty_from, full, next_place c h e) run, reach, free)
      ]

module _ {K V : Type 0} (hash : K → ℕ) (eq : K → K → Bool) (slots : List (Slot K V)) (cap : ℕ)
    (c : IsCapacity cap) (wide : length slots ≡ cap) (room : count taken slots < cap) (h : ℕ)
    (word : h < u32_size) where
  -- in a table that is not full both probes end, at a slot that a later search reaches
  pub free_slot :
      (i : ℕ) × (free_from hash eq cap slots (cap - 1) (bit_and h (cap - 1)) ≡ some i)
      × Reaches slots cap h i
      × (entry (slot_at slots i) ≡ 0)
  free_slot =
      let (j, inside, free) = find_empty slots (omega arith) in
      let (d, less, there) = cover cap h j (omega arith) in
      rw (first_place c h word) (
        free_from_lem hash eq slots cap c h cap 0 d (omega arith) (omega arith) less
          (ap (λ (x : ℕ). entry (slot_at slots x)) there ∙ ap entry free)
          (λ y l. absurd (omega arith)))

  pub empty_slot :
      (given : ℕ → ℕ → Bool)
      → (i : ℕ) × (empty_from given cap slots (cap - 1) (bit_and h (cap - 1)) ≡ some i)
        × Reaches slots cap h i
        × (slot_at slots i ≡ empty)
  empty_slot given =
      let (j, inside, free) = find_empty slots (omega arith) in
      let (d, less, there) = cover cap h j (omega arith) in
      rw (first_place c h word) (
        empty_from_lem hash eq slots cap c h given cap 0 d (omega arith) (omega arith) less
          (ap (slot_at slots) there ∙ free) (λ y l. absurd (omega arith)))
