-- ===== src/Gmap/Sets.antt =====
-- A new entry, a new value for an old one, and the capacity that a rebuild asks for.
use native.Mathlib.Nat.{pow-le-pow_right, pow-succ'}
use ceres_standard_library.Prelude.{
  ℕ, suc, ◌+◌, ◌*◌, ◌/◌, ◌^◌, ◌<◌, ◌≤◌, ◌≡◌, ◌≢◌, inl, inr, refl, sym, ap, ◌∙◌, arith, length, set,
  some, u32_size, add32, Bool, true, ltb, ◌==◌, if◌then◌else◌, mul32, dec_le, dec_lt,
}
use ceres_standard_library.Gmap.{Slot, empty, used, tombstone, Gmap, slot_at, place, with_value}
use ceres_standard_library.Gmap.Slots.{
  entry, taken, count, count-set, slot_at-set_self, entry-le-taken,
}
use ceres_standard_library.Gmap.Probe.{IsCapacity}
use ceres_standard_library.Gmap.Find.{IsTable, IsValid, Entry}
use ceres_standard_library.Gmap.Place.{free_slot}
use ceres_standard_library.Gmap.Write.{inside, set_reads, set_keeps, write-IsTable, used_inj}
use ceres_standard_library.Gmap.Rebuild.{place_inside, no_entry}

-- what a set has done: the entry of the key, the others as they were, one slot more at most
pub record Sets {K V : Type 0} (hash : K → ℕ) (m m' : Gmap K V) (key : K) (value : V) (added : ℕ)
    : Type 0 where
  pub table : IsTable hash m'.slots m'.cap
  pub cap_same : m'.cap ≡ m.cap
  pub len_added : m'.len ≡ m.len + added
  pub counted : count entry m'.slots ≡ m'.len
  pub filled : count taken m'.slots ≡ m'.used
  pub one_more : m'.used ≤ m.used + 1
  pub here : Entry hash m'.slots key value
  pub there : (q : K) (w : V) → q ≢ key → Entry hash m.slots q w → Entry hash m'.slots q w
  pub back : (q : K) (w : V) → q ≢ key → Entry hash m'.slots q w → Entry hash m.slots q w

used_next :
    {K V : Type 0} (s : Slot K V) (u : ℕ)
    → entry s ≡ 0
    → u + 1 < u32_size
    → (elim s as (λ _. ℕ) [ empty ↦ add32 u 1 | _ ↦ u ]) + taken s ≡ u + 1
used_next empty u h word = omega arith
used_next (used h k v) u e word = absurd (omega arith)
used_next tombstone u h word = refl

module _ {K V : Type 0} (hash : K → ℕ) (m : Gmap K V) (t : IsTable hash m.slots m.cap) (key : K)
    (value : V) (i : ℕ) (within : i < length m.slots) where
  abbrev new : Slot K V
  new = used (hash key) key value

  -- An entry of another key is at another slot than one where no other key stands.
  others :
      ((q : K) (h : ℕ) (w : V) → slot_at m.slots i ≡ used h q w → q ≡ key)
      → (q : K) (w : V) → q ≢ key
      → Entry hash m.slots q w
      → Entry hash (set m.slots i new) q w
  others mine q w other (j, e) = (
    j,
    set_keeps m.slots i new within j (hash q) q w
        (λ same. other (mine q (hash q) w (ap (slot_at m.slots) (sym same) ∙ e))) e,
  )

  others_back :
      (q : K) (w : V) → q ≢ key → Entry hash (set m.slots i new) q w → Entry hash m.slots q w
  others_back q w other (j, e) = elim (set_reads m.slots i new within j (hash q) q w e) [
    | inl (same, stored) ↦ absurd (other (sym (used_inj stored).1))
    | inr (apart, old) ↦ (j, old)
  ]

module _ {K V : Type 0} (hash : K → ℕ) (eq : K → K → Bool)
    (words : (k : K) → hash k < u32_size) where
  pub place-Sets :
      (m : Gmap K V) (key : K) (value : V)
      → IsTable hash m.slots m.cap
      → count entry m.slots ≡ m.len
      → count taken m.slots ≡ m.used
      → m.used < m.cap
      → ((w : V) → Entry hash m.slots key w → ⊥)
      → (m' : Gmap K V) × (place hash eq m key value (hash key) ≡ some (m', true))
        × Sets hash m m' key value 1
  unfolding place
  place-Sets m key value t counted filled room absent =
      let (i, run, reach, free) =
        free_slot hash eq m.slots m.cap t.capacity t.wide (omega arith) (hash key) (words key) in
      let within = place_inside hash words (λ i x. true) m (hash key) i t reach in
      let s : Slot K V = used (hash key) key value in
      let u : ℕ = elim (slot_at m.slots i) as (λ _. ℕ) [ empty ↦ add32 m.used 1 | _ ↦ m.used ] in
      let small = t.capacity.word in
      let next : u + taken (slot_at m.slots i) ≡ m.used + 1 =
        used_next (slot_at m.slots i) m.used free (omega arith) in
      let less = entry-le-taken m.slots in
      let counts = count-set taken m.slots i s within in
      let entries = count-set entry m.slots i s within in
      (
        record m { slots = set m.slots i s; used = u; len = add32 m.len 1 },
        rw (place, run),
        record {
          table = write-IsTable hash m.slots m.cap t i within key value reach (λ j h w e.
              absurd (absent w (j, e ∙ ap (λ (x : ℕ). used x key w) (t.hashed j h key w e))));
          cap_same = refl;
          len_added = omega arith;
          counted = omega arith;
          filled = omega arith;
          one_more = omega arith;
          here = (i, slot_at-set_self m.slots i s within);
          there = others hash m t key value i within (λ q h w e. absurd (no_entry _ h q w free e));
          back = others_back hash m t key value i within;
        },
      )

  -- A set that finds the key writes the value into its slot.
  pub found-Sets :
      (m : Gmap K V) (key : K) (value w : V) (i : ℕ)
      → IsTable hash m.slots m.cap
      → count entry m.slots ≡ m.len
      → count taken m.slots ≡ m.used
      → slot_at m.slots i ≡ used (hash key) key w
      → Sets hash m
          (record m { slots = set m.slots i (with_value hash eq (slot_at m.slots i) value) })
          key
          value
          0
  unfolding with_value
  found-Sets m key value w i t counted filled old =
      let within = inside m.slots i (hash key) key w old in
      let s : Slot K V = used (hash key) key value in
      let e1 : entry (slot_at m.slots i) ≡ 1 = ap entry old in
      let t1 : taken (slot_at m.slots i) ≡ 1 = ap taken old in
      let counts = count-set taken m.slots i s within in
      let entries = count-set entry m.slots i s within in
      rw (old, with_value)
        (record {
          table =
              write-IsTable hash m.slots m.cap t i within key value
                (t.reached i (hash key) key w old)
                (λ j h x e. t.unique j i h (hash key) key x w e old);
          cap_same = refl;
          len_added = omega arith;
          counted = omega arith;
          filled = omega arith;
          one_more = omega arith;
          here = (i, slot_at-set_self m.slots i s within);
          there = others hash m t key value i within (λ q h x e. sym (used_inj (sym old ∙ e)).1);
          back = others_back hash m t key value i within;
        })

-- the capacity that `gmap_set` asks `rebuild` for
unfoldable pub wanted : {K V : Type 0} → Gmap K V → ℕ
wanted m =
    let cap = if m.cap == 0 then 8 else m.cap in
    if ltb (cap * 35 / 10) ((m.len + 1) * 10) then mul32 cap 2 else cap

double-IsCapacity :
    (cap : ℕ)
    → IsCapacity cap
    → mul32 cap 2 ≢ 0
    → IsCapacity (mul32 cap 2) × (mul32 cap 2 ≡ cap * 2)
double-IsCapacity cap c real = elim (dec_lt c.bits 31) [
  | no top ↦
      let same : c.bits ≡ 31 = omega (arith, c.narrow) in
      let full : cap ≡ 2 ^ 31 = c.power ∙ ap (λ (b : ℕ). 2 ^ b) same in absurd (real (omega arith))
  | yes below ↦
      let two : 2 ^ suc c.bits ≡ 2 * 2 ^ c.bits = pow-succ' 2 c.bits in
      let small : c.bits ≤ 30 = omega arith in
      let bound : 2 ^ c.bits ≤ 2 ^ 30 = pow-le-pow_right {n = 2} (omega arith) small in
      (
        record {
          bits = suc c.bits;
          narrow = omega arith;
          power = omega (arith, c.power);
          positive = omega (arith, c.positive, c.power);
          word = omega (arith, c.power);
        },
        omega (arith, c.power),
      )
]

eight : IsCapacity 8
eight = record {
  bits = 3;
  narrow = omega arith;
  power = omega arith;
  positive = omega arith;
  word = omega arith;
}

module _ {K V : Type 0} (m : Gmap K V) where
  wanted_first : m.cap ≡ 0 → m.len ≡ 0 → wanted m ≡ 8
  unfolding wanted
  wanted_first e e' = ground arith

  wanted_same : 0 < m.cap → (m.len + 1) * 10 ≤ m.cap * 35 / 10 → wanted m ≡ m.cap
  unfolding wanted
  wanted_same pos sparse = ground arith

  wanted_double : 0 < m.cap → m.cap * 35 / 10 < (m.len + 1) * 10 → wanted m ≡ mul32 m.cap 2
  unfolding wanted
  wanted_double pos dense = ground arith

-- A rebuilt table is a power of two, and has room for one more entry within the load.
pub wanted-IsCapacity :
    {K V : Type 0} (hash : K → ℕ) (m : Gmap K V)
    → IsValid hash m
    → wanted m ≢ 0
    → IsCapacity (wanted m) × ((m.len + 1) * 10 ≤ wanted m * 7)
wanted-IsCapacity hash m valid real =
    let fewer = entry-le-taken m.slots in
    let fewer' : m.len ≤ m.used = omega (arith, valid.counted, valid.filled) in
    let loaded = valid.load in
    elim valid.table [
      | inl (no_cap, bare) ↦
          let none_yet : m.len ≡ 0 = omega arith in
          rw (wanted_first m no_cap none_yet) (eight, omega arith)
      | inr t ↦
          let pos = t.capacity.positive in
          elim (dec_le ((m.len + 1) * 10) (m.cap * 35 / 10)) [
            | yes sparse ↦ rw (wanted_same m pos sparse) (t.capacity, omega arith)
            | no dense ↦
                let twice = wanted_double m pos (omega arith) in
                let (c, e) = double-IsCapacity m.cap t.capacity (λ z. real (twice ∙ z)) in
                rw twice (c, omega (arith, e))
          ]
    ]
