-- ===== src/Gmap/Find.antt =====
-- The probe of `find` against the entries of the table.
use ceres_standard_library.Prelude.{
  ℕ, zero, suc, ◌+◌, ◌-◌, ◌*◌, ◌<◌, ◌≤◌, ◌≡◌, ◌≢◌, ◌↔◌, ◌⊎◌, inl, inr, refl, sym, ap, ◌∙◌, arith,
  List, [], length, bit_and, add32, u32_size, Bool, true, false, ◌==◌, ◌&&◌, Option, none, some,
  ℕ_discrete, Bool-cases,
}
use ceres_standard_library.Gmap.{
  Slot, empty, used, tombstone, Gmap, slot_at, find_from, find, gmap_get,
}
use ceres_standard_library.Gmap.Slots.{entry, taken, count, slot_at_outside}
use ceres_standard_library.Gmap.Probe.{place_of, IsCapacity, first_place, next_place}

-- No slot that is probed for `h` before the one at `i` was never used: a probe gets there.
pub record Reaches {K V : Type 0} (slots : List (Slot K V)) (cap h i : ℕ) : Type 0 where
  pub steps : ℕ
  pub within : steps < cap
  pub there : place_of cap h steps ≡ i
  pub open_way : (e : ℕ) → e < steps → slot_at slots (place_of cap h e) ≢ empty

-- what makes a list of slots a table of entries that can be found
pub record IsTable {K V : Type 0} (hash : K → ℕ) (slots : List (Slot K V)) (cap : ℕ) : Type 0 where
  pub capacity : IsCapacity cap
  pub wide : length slots ≡ cap
  pub hashed : (i h : ℕ) (k : K) (v : V) → slot_at slots i ≡ used h k v → h ≡ hash k
  pub reached : (i h : ℕ) (k : K) (v : V) → slot_at slots i ≡ used h k v → Reaches slots cap h i
  pub unique :
      (i j h h' : ℕ) (k : K) (v v' : V)
      → slot_at slots i ≡ used h k v
      → slot_at slots j ≡ used h' k v'
      → i ≡ j

pub Slot-cases :
    {K V : Type 0} (s : Slot K V)
    → (s ≡ empty) ⊎ (s ≡ tombstone) ⊎ ((h : ℕ) × (k : K) × (v : V) × (s ≡ used h k v))
Slot-cases empty = inl refl
Slot-cases tombstone = inr (inl refl)
Slot-cases (used h k v) = inr (inr (h, k, v, refl))

-- an entry for a key in the table
abbrev pub Entry : {K V : Type 0} → (K → ℕ) → List (Slot K V) → K → V → Type 0
Entry hash slots k v = (i : ℕ) × (slot_at slots i ≡ used (hash k) k v)

-- The map is a table, or has none; the counts are right, and at most seven slots in ten are in use.
pub record IsValid {K V : Type 0} (hash : K → ℕ) (m : Gmap K V) : Type 0 where
  pub table : ((m.cap ≡ 0) × (m.slots ≡ [])) ⊎ IsTable hash m.slots m.cap
  pub counted : count entry m.slots ≡ m.len
  pub filled : count taken m.slots ≡ m.used
  pub load : m.used * 10 ≤ m.cap * 7

pub Option-cases : {A : Type 0} (o : Option A) → (o ≡ none) ⊎ ((a : A) × (o ≡ some a))
Option-cases none = inl refl
Option-cases (some a) = inr (a, refl)

module _ {K : Type 0} (eq : K → K → Bool) (eq_iff : (a b : K) → (eq a b ≡ true) ↔ (a ≡ b)) where
  both_true : (a b : ℕ) (k l : K) → (a == b && eq k l) ≡ true → (a ≡ b) × (k ≡ l)
  both_true a b k l h = (ground arith, (eq_iff k l).0 (ground arith))

  not_both : (a b : ℕ) (k l : K) → a ≡ b → k ≡ l → (a == b && eq k l) ≢ false
  not_both a b k l e e' h = ground (arith, (eq_iff k l).1 e')

module _ {K V : Type 0} (hash : K → ℕ) (eq : K → K → Bool)
    (eq_iff : (a b : K) → (eq a b ≡ true) ↔ (a ≡ b)) where
  -- what the probe finds is a slot in use with the hash and the key
  find_from_found :
      (left : ℕ) (slots : List (Slot K V)) (mask : ℕ) (key : K) (h i j : ℕ)
      → find_from hash eq left slots mask key h i ≡ some j
      → (v : V) × (slot_at slots j ≡ used h key v)
  unfolding find_from
  find_from_found zero slots mask key h i j e = cc
  find_from_found (suc left) slots mask key h i j e = elim (Slot-cases (slot_at slots i)) [
    | inl none_there ↦ let stop : none ≡ some j = rw (find_from, none_there) at e in cc
    | inr (inl gone) ↦
        find_from_found left slots mask key h (bit_and (add32 i 1) mask) j
          (rw (find_from, gone) at e)
    | inr (inr (h', k, v, full)) ↦ elim (Bool-cases (h' == h && eq k key)) [
      | inr miss ↦
          find_from_found left slots mask key h (bit_and (add32 i 1) mask) j
            (rw (find_from, full, miss) at e)
      | inl hit ↦
          let same : some i ≡ some j = rw (find_from, full, hit) at e in
          let (hashes, keys) = both_true eq eq_iff h' h k key hit in (v, cc)
    ]
  ]

  -- from `e` places on, an entry at `d` places that the probe reaches is not missed
  find_from_finds :
      (cap : ℕ) (c : IsCapacity cap) (left : ℕ) (slots : List (Slot K V)) (key : K) (h e d : ℕ)
      (v : V)
      → e + left ≡ cap
      → e ≤ d
      → d < cap
      → slot_at slots (place_of cap h d) ≡ used h key v
      → ((x : ℕ) → x < d → slot_at slots (place_of cap h x) ≢ empty)
      → (j : ℕ) × (find_from hash eq left slots (cap - 1) key h (place_of cap h e) ≡ some j)
  unfolding find_from
  find_from_finds cap c zero slots key h e d v total le less here way = absurd (omega arith)
  find_from_finds cap c (suc left) slots key h e d v total le less here way =
      elim (Slot-cases (slot_at slots (place_of cap h e))) [
        | inl none_there ↦ elim (ℕ_discrete e d) [
          | yes last ↦
              let stop : empty ≡ used h key v =
                sym none_there ∙ ap (λ (x : ℕ). slot_at slots (place_of cap h x)) last ∙ here in
              cc
          | no before ↦ absurd (way e (omega arith) none_there)
        ]
        | inr (inl gone) ↦ elim (ℕ_discrete e d) [
          | yes last ↦
              let stop : tombstone ≡ used h key v =
                sym gone ∙ ap (λ (x : ℕ). slot_at slots (place_of cap h x)) last ∙ here in
              cc
          | no before ↦
              let (j, run) =
                find_from_finds cap c left slots key h (e + 1) d v (omega arith) (omega arith) less
                  here way in
              (j, rw (find_from, gone, next_place c h e) run)
        ]
        | inr (inr (h', k, v', full)) ↦ elim (Bool-cases (h' == h && eq k key)) [
          | inl hit ↦ (place_of cap h e, rw (find_from, full, hit))
          | inr miss ↦ elim (ℕ_discrete e d) [
            | yes last ↦
                let same : used h' k v' ≡ used h key v =
                  sym full ∙ ap (λ (x : ℕ). slot_at slots (place_of cap h x)) last ∙ here in
                absurd (not_both eq eq_iff h' h k key (cc) (cc) miss)
            | no before ↦
                let (j, run) =
                  find_from_finds cap c left slots key h (e + 1) d v (omega arith) (omega arith)
                    less here way in
                (j, rw (find_from, full, miss, next_place c h e) run)
          ]
        ]
      ]

  module _ (words : (k : K) → hash k < u32_size) where
    find-find_from :
        (m : Gmap K V) (key : K)
        → IsCapacity m.cap
        → find hash eq m key (hash key)
          ≡ find_from hash eq m.cap m.slots (m.cap - 1) key (hash key) (place_of m.cap (hash key) 0)
    unfolding find
    find-find_from m key c =
        rw (← first_place c (hash key) (words key)) (ground (arith, c.positive))

    -- `find` gives the slot of an entry, and one is found for every entry
    pub find_found :
        (m : Gmap K V) (key : K) (j : ℕ)
        → IsTable hash m.slots m.cap
        → find hash eq m key (hash key) ≡ some j
        → (v : V) × (slot_at m.slots j ≡ used (hash key) key v)
    find_found m key j t e =
        find_from_found m.cap m.slots (m.cap - 1) key (hash key) _ j
          (sym (find-find_from m key t.capacity) ∙ e)

    pub find_finds :
        (m : Gmap K V) (key : K) (v : V) (i : ℕ)
        → IsTable hash m.slots m.cap
        → slot_at m.slots i ≡ used (hash key) key v
        → find hash eq m key (hash key) ≡ some i
    find_finds m key v i t here =
        let r = t.reached i (hash key) key v here in
        let (j, run) =
          find_from_finds m.cap t.capacity m.cap m.slots key (hash key) 0 r.steps v (omega arith)
            (omega arith) r.within (ap (slot_at m.slots) r.there ∙ here) r.open_way in
        let run' = find-find_from m key t.capacity ∙ run in
        let (v', there) = find_found m key j t run' in
        run' ∙ ap some (t.unique j i (hash key) (hash key) key v' v there here)

    pub no_table : (m : Gmap K V) (key : K) → m.cap ≡ 0 → find hash eq m key (hash key) ≡ none
    unfolding find
    no_table m key e = rw e

    pub get_some :
        (m : Gmap K V) (key : K) (j : ℕ) (v : V)
        → find hash eq m key (hash key) ≡ some j
        → slot_at m.slots j ≡ used (hash key) key v
        → gmap_get hash eq m key ≡ some v
    unfolding gmap_get
    get_some m key j v e here = rw (gmap_get, e, here)

    pub get_none :
        (m : Gmap K V) (key : K)
        → find hash eq m key (hash key) ≡ none
        → gmap_get hash eq m key ≡ none
    unfolding gmap_get
    get_none m key e = rw (gmap_get, e)

    -- In a valid map `gmap_get` returns exactly the values of the entries.
    pub gmap_get-Entry :
        (m : Gmap K V) (key : K) (v : V)
        → IsValid hash m
        → (gmap_get hash eq m key ≡ some v) ↔ Entry hash m.slots key v
    gmap_get-Entry m key v valid = elim valid.table [
      | inl (zero_cap, no_slots) ↦ (
        λ e. let stop : none ≡ some v = sym (get_none m key (no_table m key zero_cap)) ∙ e in cc,
        λ h.
            let stop : empty ≡ used (hash key) key v =
              sym (slot_at_outside m.slots h.0 (omega (arith, ap length no_slots))) ∙ h.1 in
            cc,
      )
      | inr t ↦ (
        λ e. elim (Option-cases (find hash eq m key (hash key))) [
          | inl missing ↦ let stop : none ≡ some v = sym (get_none m key missing) ∙ e in cc
          | inr (j, run) ↦
              let (v', there) = find_found m key j t run in
              let same : some v' ≡ some v = sym (get_some m key j v' run there) ∙ e in
              let same' : v' ≡ v = cc in (j, there ∙ ap (used (hash key) key) same')
        ],
        λ h. get_some m key h.0 v (find_finds m key v h.0 t h.1) h.1,
      )
    ]

    -- maps with the same entries for a key answer alike
    pub get_ext :
        (m m' : Gmap K V) (key : K)
        → IsValid hash m
        → IsValid hash m'
        → ((v : V) → Entry hash m.slots key v → Entry hash m'.slots key v)
        → ((v : V) → Entry hash m'.slots key v → Entry hash m.slots key v)
        → gmap_get hash eq m key ≡ gmap_get hash eq m' key
    get_ext m m' key valid valid' there back = elim (Option-cases (gmap_get hash eq m key)) [
      | inr (v, e) ↦
          e
          ∙ sym ((gmap_get-Entry m' key v valid').1 (there v ((gmap_get-Entry m key v valid).0 e)))
      | inl none_here ↦ elim (Option-cases (gmap_get hash eq m' key)) [
        | inl none_there ↦ none_here ∙ sym none_there
        | inr (v, e) ↦
            (gmap_get-Entry m key v valid).1 (back v ((gmap_get-Entry m' key v valid').0 e)) ∙ sym e
      ]
    ]
