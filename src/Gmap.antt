-- ===== src/Gmap.antt =====
-- src/ceres/ds/gmap.c: the hash map with open addressing. The arrays `states`, `hashes` and `pairs`
-- are one list of slots: a slot that is not used has no hash and no pair that the code reads. Keys
-- and values are of types K and V, so copying `key_size` or `value_size` bytes is one assignment;
-- with a `value_size` of 0 V has one value. `hash` and `eq` are the caller's functions, `given`
-- says of a request of the operation, by its place among the three for a table and its bytes,
-- whether it succeeds.
pub mod Slots
pub mod Probe
pub mod Find
pub mod Place
pub mod Write
pub mod Rebuild
pub mod Sets
pub mod Steps
pub mod Refine
pub mod Remove
mod Tests
use ceres_standard_library.Prelude.{
  ℕ, zero, suc, ◌+◌, ◌-◌, ◌*◌, ◌/◌, bit_and, Bool, true, false, not, ◌&&◌, ◌||◌, Option, none, some,
  List, [], ◌∷◌, length, get_or, set, replicate, ltb, leb, ◌==◌, if◌then◌else◌, u32_max, add32,
  sub32, mul32, ◌<<◌,
}

pub data Slot (K V : Type 0) : Type 0 where
  empty : Slot K V
  used : ℕ → K → V → Slot K V
  tombstone : Slot K V

pub record Gmap (K V : Type 0) : Type 0 where
  pub slots : List (Slot K V)
  pub cap : ℕ
  pub len : ℕ
  pub used : ℕ
  pub key_size : ℕ
  pub value_size : ℕ

-- the slot at an index; the code keeps its indices below `cap`
pub slot_at : {K V : Type 0} → List (Slot K V) → ℕ → Slot K V
slot_at slots i = get_or slots i empty

-- include/ceres/bits.h; `clz` is the compiler's builtin
pub bit_next_pow2 : (ℕ → ℕ) → ℕ → ℕ
bit_next_pow2 clz x = if leb x 1 then 1 else 1 << sub32 32 (clz (x - 1))

module _ {K V : Type 0} (given : ℕ → ℕ → Bool) where
  -- -1 is `none`
  pub table_alloc : Gmap K V → ℕ → Option (Gmap K V)
  table_alloc m cap =
      let elem = m.key_size + m.value_size in
      if ltb u32_max (cap * elem) || ltb u32_max (cap * 4)
      then none
      else if not (given 0 cap)
          || not (given 1 (cap * 4))
          || (not (given 2 (cap * elem)) && not (elem == 0))
      then none
      else some (record m { slots = replicate cap empty; cap = cap; used = 0 })

  -- the map as it is left, and the status
  pub gmap_init : (ℕ → ℕ) → ℕ → ℕ → ℕ → Gmap K V × Bool
  unfolding table_alloc bit_next_pow2
  gmap_init clz key_size value_size initial_cap =
      let m : Gmap K V = record {
        slots = [];
        cap = 0;
        len = 0;
        used = 0;
        key_size = key_size;
        value_size = value_size;
      } in
      if ltb (u32_max - value_size) key_size
      then (m, false)
      else elim (table_alloc m (if ltb initial_cap 8 then 8 else bit_next_pow2 clz initial_cap)) [
        | none ↦ (m, false)
        | some m' ↦ (m', true)
      ]

  -- the probe of `rebuild` for a slot never used; `cap` rounds go through the whole table
  pub empty_from : ℕ → List (Slot K V) → ℕ → ℕ → Option ℕ
  unfolding slot_at
  empty_from zero slots mask i = none
  empty_from (suc left) slots mask i =
      let rest = empty_from left slots mask (bit_and (add32 i 1) mask) in
      elim (slot_at slots i) [ empty ↦ some i | _ ↦ rest ]

  -- the loop of `rebuild` over the old slots; `none` where the probe for a slot finds none
  pub move_all : List (Slot K V) → ℕ → Gmap K V → Option (Gmap K V)
  unfolding empty_from
  move_all [] mask m = some m
  move_all (empty ∷ old) mask m = move_all old mask m
  move_all (tombstone ∷ old) mask m = move_all old mask m
  move_all (used h k v ∷ old) mask m = elim (empty_from m.cap m.slots mask (bit_and h mask)) [
    | none ↦ none
    | some at ↦
        move_all old mask (record m { slots = set m.slots at (used h k v); used = add32 m.used 1 })
  ]

  -- The map as it is left, and whether the table was rebuilt.
  pub rebuild : Gmap K V → ℕ → Option (Gmap K V × Bool)
  unfolding table_alloc move_all
  rebuild m cap = elim (table_alloc m cap) [
    | none ↦ some (m, false)
    | some m' ↦ elim (move_all m.slots (cap - 1) m') [ none ↦ none | some m'' ↦ some (m'', true) ]
  ]

module _ {K V : Type 0} (hash : K → ℕ) (eq : K → K → Bool) where
  pub find_from : ℕ → List (Slot K V) → ℕ → K → ℕ → ℕ → Option ℕ
  unfolding slot_at
  find_from zero slots mask key h i = none
  find_from (suc left) slots mask key h i =
      let rest = find_from left slots mask key h (bit_and (add32 i 1) mask) in
      elim (slot_at slots i) [
        | empty ↦ none
        | tombstone ↦ rest
        | used h' k v ↦ if h' == h && eq k key then some i else rest
      ]

  -- -1 is `none`
  pub find : Gmap K V → K → ℕ → Option ℕ
  unfolding find_from
  find m key h =
      if m.cap == 0 then none else find_from m.cap m.slots (m.cap - 1) key h (bit_and h (m.cap - 1))

  pub gmap_get : Gmap K V → K → Option V
  unfolding find slot_at
  gmap_get m key = elim (find m key (hash key)) [
    | none ↦ none
    | some hit ↦ elim (slot_at m.slots hit) [ used h k v ↦ some v | _ ↦ none ]
  ]

  pub gmap_has : Gmap K V → K → Bool
  unfolding find
  gmap_has m key = elim (find m key (hash key)) [ none ↦ false | some hit ↦ true ]

  pub gmap_remove : Gmap K V → K → Gmap K V × Bool
  unfolding find
  gmap_remove m key = elim (find m key (hash key)) [
    | none ↦ (m, false)
    | some hit ↦ (record m { slots = set m.slots hit tombstone; len = sub32 m.len 1 }, true)
  ]

  -- a replaced value keeps the key and the hash of its slot
  pub with_value : Slot K V → V → Slot K V
  with_value (used h k v) value = used h k value
  with_value empty value = empty
  with_value tombstone value = tombstone

  -- the probe of `gmap_set` for a slot that is not used
  pub free_from : ℕ → List (Slot K V) → ℕ → ℕ → Option ℕ
  unfolding slot_at
  free_from zero slots mask i = none
  free_from (suc left) slots mask i =
      let rest = free_from left slots mask (bit_and (add32 i 1) mask) in
      elim (slot_at slots i) [ used h k v ↦ rest | _ ↦ some i ]

  -- the new entry in its slot; `none` where the probe finds no slot
  pub place : Gmap K V → K → V → ℕ → Option (Gmap K V × Bool)
  unfolding free_from slot_at
  place m key value h = elim (free_from m.cap m.slots (m.cap - 1) (bit_and h (m.cap - 1))) [
    | none ↦ none
    | some i ↦ some (
      record m {
        slots = set m.slots i (used h key value);
        used = elim (slot_at m.slots i) [ empty ↦ add32 m.used 1 | _ ↦ m.used ];
        len = add32 m.len 1;
      },
      true,
    )
  ]

  -- The map and the status; `none` where a probe goes round the table without end.
  pub gmap_set : (ℕ → ℕ → Bool) → Gmap K V → K → V → Option (Gmap K V × Bool)
  unfolding find slot_at with_value rebuild place
  gmap_set given m key value =
      let h = hash key in
      let cap = if m.cap == 0 then 8 else m.cap in
      let wanted = if ltb (cap * 35 / 10) ((m.len + 1) * 10) then mul32 cap 2 else cap in
      elim (find m key h) [
        | some hit ↦
            some
              (record m { slots = set m.slots hit (with_value (slot_at m.slots hit) value) }, true)
        | none ↦
            if m.cap == 0 || ltb (m.cap * 7) ((m.used + 1) * 10)
            then if wanted == 0 then some (m, false) else elim (rebuild given m wanted) [
              | none ↦ none
              | some (m', false) ↦ some (m', false)
              | some (m', true) ↦ place m' key value h
            ]
            else place m key value h
      ]

module _ {K V : Type 0} where
  pub gmap_free : Gmap K V → Gmap K V
  gmap_free m = record m { slots = []; cap = 0; len = 0; used = 0 }

  pub gmap_clear : Gmap K V → Gmap K V
  gmap_clear m = record m { slots = replicate (length m.slots) empty; len = 0; used = 0 }

  -- the pairs that `fn` is called with, in the order of the calls
  pub gmap_each : List (Slot K V) → List (K × V)
  gmap_each [] = []
  gmap_each (used h k v ∷ slots) = (k, v) ∷ gmap_each slots
  gmap_each (empty ∷ slots) = gmap_each slots
  gmap_each (tombstone ∷ slots) = gmap_each slots
