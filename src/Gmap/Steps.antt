-- ===== src/Gmap/Steps.antt =====
-- What a rebuild leaves, and which way a set goes.
use ceres_standard_library.Prelude.{
  dec_lt, Bool-cases, u32_max, ℕ, ◌+◌, ◌*◌, ◌<◌, ◌≤◌, ◌≡◌, ◌≢◌, ◌↔◌, ◌⊎◌, inl, inr, refl, sym, ap,
  ◌∙◌, arith, List, [], length, length-replicate, replicate, Option, none, some, u32_size, Bool,
  true, false,
}
use ceres_standard_library.Gmap.{
  Slot, empty, used, Gmap, slot_at, table_alloc, rebuild, find, place, gmap_set, gmap_get,
}
use ceres_standard_library.Gmap.Slots.{
  entry, taken, count, count-replicate, slot_at-replicate, slot_at_outside,
}
use ceres_standard_library.Gmap.Probe.{IsCapacity}
use ceres_standard_library.Gmap.Find.{IsTable, IsValid, Entry, gmap_get-Entry, get_ext}
use ceres_standard_library.Gmap.Sets.{Sets, wanted}
use ceres_standard_library.Gmap.Rebuild.{AreEntries, HasRoom, move_all-Moved}

module _ {K V : Type 0} (hash : K → ℕ) (words : (k : K) → hash k < u32_size)
    (given : ℕ → ℕ → Bool) where
  abbrev pub fresh : Gmap K V → ℕ → Gmap K V
  fresh m cap = record m { slots = replicate cap empty; cap = cap; used = 0 }

  pub table_alloc_cases :
      (m : Gmap K V) (cap : ℕ)
      → (table_alloc given m cap ≡ none) ⊎ (table_alloc given m cap ≡ some (fresh m cap))
  unfolding table_alloc
  table_alloc_cases m cap = ground arith

  -- why a table of a capacity cannot be had
  abbrev pub CannotAllocate : Gmap K V → ℕ → Type 0
  CannotAllocate m cap =
      (u32_max < cap * (m.key_size + m.value_size))
      ⊎ (u32_max < cap * 4)
      ⊎ (given 0 cap ≡ false)
      ⊎ (given 1 (cap * 4) ≡ false)
      ⊎ ((given 2 (cap * (m.key_size + m.value_size)) ≡ false) × (0 < m.key_size + m.value_size))

  pub table_alloc-CannotAllocate :
      (m : Gmap K V) (cap : ℕ) → table_alloc given m cap ≡ none → CannotAllocate m cap
  unfolding table_alloc
  table_alloc-CannotAllocate m cap h =
      let bytes = cap * (m.key_size + m.value_size) in
      elim (dec_lt u32_max bytes) [
        | yes large ↦ inl large
        | no fits ↦ elim (dec_lt u32_max (cap * 4)) [
          | yes large ↦ inr (inl large)
          | no fits' ↦ elim (Bool-cases (given 0 cap)) [
            | inr refused ↦ inr (inr (inl refused))
            | inl first ↦ elim (Bool-cases (given 1 (cap * 4))) [
              | inr refused ↦ inr (inr (inr (inl refused)))
              | inl second ↦ elim (Bool-cases (given 2 bytes)) [
                | inl third ↦ absurd (ground arith)
                | inr refused ↦ elim (dec_lt 0 (m.key_size + m.value_size)) [
                  | yes nonzero ↦ inr (inr (inr (inr (refused, nonzero))))
                  | no zero ↦ absurd (ground arith)
                ]
              ]
            ]
          ]
        ]
      ]

  pub no_entries : (cap i h : ℕ) (k : K) (v : V) → slot_at (replicate cap empty) i ≢ used h k v
  no_entries cap i h k v e = let stop : empty ≡ used h k v = sym (slot_at-replicate cap i) ∙ e in cc

  pub fresh-IsTable :
      (cap : ℕ) → IsCapacity cap → IsTable {K = K} {V = V} hash (replicate cap empty) cap
  fresh-IsTable cap c = record {
    capacity = c;
    wide = length-replicate cap empty;
    hashed = λ i h k v e. absurd (no_entries cap i h k v e);
    reached = λ i h k v e. absurd (no_entries cap i h k v e);
    unique = λ i j h h' k v v' e e'. absurd (no_entries cap i h k v e);
  }

  pub bare_slots :
      (slots : List (Slot K V)) (i h : ℕ) (k : K) (v : V)
      → slots ≡ []
      → slot_at slots i ≢ used h k v
  bare_slots slots i h k v bare e =
      let stop : empty ≡ used h k v =
        sym (slot_at_outside slots i (omega (arith, ap length bare))) ∙ e in
      cc

  fresh-HasRoom :
      (m : Gmap K V) (cap : ℕ)
      → IsCapacity cap
      → count entry m.slots < cap
      → HasRoom hash m.slots (fresh m cap)
  fresh-HasRoom m cap c room = record {
    table = fresh-IsTable cap c;
    filled = count-replicate taken cap refl;
    no_gone = count-replicate entry cap refl;
    room = omega arith;
    apart = λ k v w e e'. no_entries cap e'.0 (hash k) k w e'.1;
  }

  old-AreEntries : (m : Gmap K V) → IsValid hash m → AreEntries hash m.slots
  old-AreEntries m valid = elim valid.table [
    | inr t ↦ record { hashed = t.hashed; unique = t.unique }
    | inl (z, bare) ↦ record {
      hashed = λ i h k v e. absurd (bare_slots m.slots i h k v bare e);
      unique = λ i j h h' k v v' e e'. absurd (bare_slots m.slots i h k v bare e);
    }
  ]

  -- what `rebuild` has done when it was given a new table
  pub record Rebuilt (m m' : Gmap K V) (cap : ℕ) : Type 0 where
    pub table : IsTable hash m'.slots m'.cap
    pub cap_new : m'.cap ≡ cap
    pub len_same : m'.len ≡ m.len
    pub counted : count entry m'.slots ≡ m'.len
    pub filled : count taken m'.slots ≡ m'.used
    pub packed : m'.used ≡ m'.len
    pub there : (k : K) (v : V) → Entry hash m.slots k v → Entry hash m'.slots k v
    pub back : (k : K) (v : V) → Entry hash m'.slots k v → Entry hash m.slots k v

  pub rebuild-Rebuilt :
      (m : Gmap K V) (cap : ℕ)
      → IsValid hash m
      → IsCapacity cap
      → m.len < cap
      → ((rebuild given m cap ≡ some (m, false)) × (table_alloc given m cap ≡ none))
        ⊎ ((m' : Gmap K V) × (rebuild given m cap ≡ some (m', true)) × Rebuilt m m' cap)
  unfolding rebuild
  rebuild-Rebuilt m cap valid c room = elim (table_alloc_cases m cap) [
    | inl refused ↦ inl (rw (rebuild, refused), refused)
    | inr granted ↦
        let (m', run, moved) =
          move_all-Moved hash words given m.slots (fresh m cap) (old-AreEntries m valid)
            (fresh-HasRoom m cap c (omega (arith, valid.counted))) in
        inr (
          m',
          rw (rebuild, granted, run),
          record {
            table = moved.table;
            cap_new = moved.cap_same;
            len_same = moved.len_same;
            counted = omega (arith, moved.no_gone, moved.total, moved.len_same, valid.counted);
            filled = moved.filled;
            packed = omega (arith, moved.total, moved.len_same, valid.counted);
            there = moved.arrived;
            back = λ k v e. elim (moved.origin k v e) [
              | inl new ↦ absurd (no_entries cap new.0 (hash k) k v new.1)
              | inr old ↦ old
            ];
          },
        )
  ]

-- how many entries a set adds, from what was there
abbrev pub missing : {A : Type 0} → Option A → ℕ
missing none = 1
missing (some a) = 0

module _ {K V : Type 0} (hash : K → ℕ) (words : (k : K) → hash k < u32_size) (eq : K → K → Bool)
    (eq_iff : (a b : K) → (eq a b ≡ true) ↔ (a ≡ b)) (given : ℕ → ℕ → Bool) where
  -- `m'` is valid, answers `o` for the key, and answers as `m` does for every other key
  pub record Updates (m m' : Gmap K V) (key : K) (o : Option V) : Type 0 where
    pub valid : IsValid hash m'
    pub at_key : gmap_get hash eq m' key ≡ o
    pub elsewhere : (q : K) → q ≢ key → gmap_get hash eq m' q ≡ gmap_get hash eq m q

  pub Sets-Updates :
      (m m' : Gmap K V) (key : K) (value : V) (added : ℕ)
      → IsValid hash m
      → m'.used * 10 ≤ m'.cap * 7
      → ((x y : Gmap K V) × ((q : K) (w : V) → Entry hash m.slots q w → Entry hash x.slots q w)
          × ((q : K) (w : V) → Entry hash x.slots q w → Entry hash m.slots q w)
          × Sets hash x m' key value added)
      → Updates m m' key (some value)
  Sets-Updates m m' key value added valid load (x, y, there, back, s) =
      let valid' : IsValid hash m' = record {
        table = inr s.table;
        counted = s.counted;
        filled = s.filled;
        load = load;
      } in
      record {
        valid = valid';
        at_key = (gmap_get-Entry hash eq eq_iff words m' key value valid').1 s.here;
        elsewhere = λ q other.
            get_ext hash eq eq_iff words m' m q valid' valid (λ v e. back q v (s.back q v other e))
              (λ v e. s.there q v other (there q v e));
      }

  module _ (m : Gmap K V) (key : K) (value : V) where
    pub set_place :
        (absent : find hash eq m key (hash key) ≡ none)
        → 0 < m.cap
        → (m.used + 1) * 10 ≤ m.cap * 7
        → gmap_set hash eq given m key value ≡ place hash eq m key value (hash key)
    unfolding gmap_set
    set_place absent pos sparse = rw (gmap_set, absent) (ground arith)

    pub set_rebuild :
        (m' : Gmap K V)
        → find hash eq m key (hash key) ≡ none
        → (m.cap ≡ 0) ⊎ (m.cap * 7 < (m.used + 1) * 10)
        → wanted m ≢ 0
        → rebuild given m (wanted m) ≡ some (m', true)
        → gmap_set hash eq given m key value ≡ place hash eq m' key value (hash key)
    unfolding gmap_set wanted
    set_rebuild m' absent dense real run = rw (gmap_set, absent) (ground arith)

    pub set_refused :
        find hash eq m key (hash key) ≡ none
        → (m.cap ≡ 0) ⊎ (m.cap * 7 < (m.used + 1) * 10)
        → (wanted m ≡ 0) ⊎ (rebuild given m (wanted m) ≡ some (m, false))
        → gmap_set hash eq given m key value ≡ some (m, false)
    unfolding gmap_set wanted
    set_refused absent dense refused = rw (gmap_set, absent) (ground arith)
