-- ===== src/Gmap/Remove.antt =====
-- Removing an entry, and emptying the map.
use mathlib.Core.Path.{subst}
use ceres_standard_library.Prelude.{
  ℕ, ◌+◌, ◌<◌, ◌≡◌, ◌≢◌, ◌↔◌, ◌⊎◌, inl, inr, refl, sym, ap, ◌∙◌, arith, List, length, set,
  replicate, none, some, u32_size, Bool, true, false, sub32,
}
use ceres_standard_library.Gmap.{
  Slot, empty, used, tombstone, Gmap, slot_at, find, gmap_get, gmap_remove, gmap_clear, gmap_free,
}
use ceres_standard_library.Gmap.Slots.{
  entry, taken, count, count-set, count-replicate, entry-le-taken,
}
use ceres_standard_library.Gmap.Find.{
  IsTable, IsValid, Entry, Option-cases, find_found, gmap_get-Entry, get_ext, get_some, get_none,
  no_table,
}
use ceres_standard_library.Gmap.Write.{inside, set_reads, set_keeps, erase-IsTable, used_inj}
use ceres_standard_library.Gmap.Steps.{Updates, fresh-IsTable, no_entries}

module _ {K V : Type 0} (hash : K → ℕ) (words : (k : K) → hash k < u32_size) (eq : K → K → Bool)
    (eq_iff : (a b : K) → (eq a b ≡ true) ↔ (a ≡ b)) (given : ℕ → ℕ → Bool) where
  get_absent :
      (m : Gmap K V) (key : K)
      → IsValid hash m
      → ((v : V) → Entry hash m.slots key v → ⊥)
      → gmap_get hash eq m key ≡ none
  get_absent m key valid absent = elim (Option-cases (gmap_get hash eq m key)) [
    | inl e ↦ e
    | inr (v, e) ↦ absurd (absent v ((gmap_get-Entry hash eq eq_iff words m key v valid).0 e))
  ]

  module _ (m : Gmap K V) (key : K) (valid : IsValid hash m) where
    -- a removal that found the key
    pub record Removed : Type 0 where
      pub after : Gmap K V
      pub run : gmap_remove hash eq m key ≡ (after, true)
      pub present : gmap_get hash eq m key ≢ none
      pub updates : Updates hash words eq eq_iff given m after key none
      pub counted : after.len + 1 ≡ m.len

    remove_found :
        (i : ℕ) (w : V)
        → find hash eq m key (hash key) ≡ some i
        → IsTable hash m.slots m.cap
        → slot_at m.slots i ≡ used (hash key) key w
        → Removed
    unfolding gmap_remove
    remove_found i w e t old =
        let within = inside m.slots i (hash key) key w old in
        let e1 : entry (slot_at m.slots i) ≡ 1 = ap entry old in
        let t1 : taken (slot_at m.slots i) ≡ 1 = ap taken old in
        let counts = count-set taken m.slots i tombstone within in
        let entries = count-set entry m.slots i tombstone within in
        let fewer = entry-le-taken m.slots in
        let small = t.capacity.word in
        let loaded = valid.load in
        let counted = valid.counted in
        let filled = valid.filled in
        let after : Gmap K V = record m { slots = set m.slots i tombstone; len = sub32 m.len 1 } in
        let valid' : IsValid hash after = record {
          table = inr (erase-IsTable hash m.slots m.cap t i within);
          counted = omega arith;
          filled = omega arith;
          load = loaded;
        } in
        record {
          after = after;
          run = rw (gmap_remove, e);
          present = λ gone.
              let stop : none ≡ some w = sym gone ∙ get_some hash eq eq_iff words m key i w e old in
              cc;
          updates = record {
            valid = valid';
            at_key = get_absent after key valid' (λ v x. erased_key v x);
            elsewhere = λ q other.
                get_ext hash eq eq_iff words after m q valid' valid (erased_back q other)
                  (erased_there q other);
          };
          counted = omega arith;
        }
      where
        inside_i : i < length m.slots
        inside_i = inside m.slots i (hash key) key w old

        erased_back :
            (q : K)
            → q ≢ key
            → (v : V) → Entry hash (set m.slots i tombstone) q v
            → Entry hash m.slots q v
        erased_back q other v (j, h) =
            elim (set_reads m.slots i tombstone inside_i j (hash q) q v h) [
              | inl (same, never) ↦ cc
              | inr (apart, there) ↦ (j, there)
            ]

        erased_there :
            (q : K)
            → q ≢ key
            → (v : V) → Entry hash m.slots q v
            → Entry hash (set m.slots i tombstone) q v
        erased_there q other v (j, h) = (
          j,
          set_keeps m.slots i tombstone inside_i j (hash q) q v
              (λ same. other (sym (used_inj (sym old ∙ ap (slot_at m.slots) (sym same) ∙ h)).1)) h,
        )

        erased_key : (v : V) → Entry hash (set m.slots i tombstone) key v → ⊥
        erased_key v (j, h) = elim (set_reads m.slots i tombstone inside_i j (hash key) key v h) [
          | inl (same, never) ↦ cc
          | inr (apart, there) ↦ apart (t.unique j i (hash key) (hash key) key v w there old)
        ]

    remove_none : find hash eq m key (hash key) ≡ none → gmap_remove hash eq m key ≡ (m, false)
    unfolding gmap_remove
    remove_none e = rw (gmap_remove, e)

    -- A removal of a key that is there leaves a valid map with one entry less, no value for the key
    -- and all others as they were; one of a key that is not there changes nothing.
    pub gmap_remove_lem :
        Removed ⊎ ((gmap_remove hash eq m key ≡ (m, false)) × (gmap_get hash eq m key ≡ none))
    gmap_remove_lem = elim (Option-cases (find hash eq m key (hash key))) [
      | inl e ↦ inr (remove_none e, get_none hash eq eq_iff words m key e)
      | inr (i, e) ↦ elim valid.table [
        | inl (no_cap, bare) ↦
            let stop : none ≡ some i = sym (no_table hash eq eq_iff words m key no_cap) ∙ e in cc
        | inr t ↦
            let (w, old) = find_found hash eq eq_iff words m key i t e in
            inl (remove_found i w e t old)
      ]
    ]

  cleared-IsValid : (m : Gmap K V) → IsValid hash m → IsValid hash (gmap_clear m)
  unfolding gmap_clear
  cleared-IsValid m valid = record {
    table = elim valid.table [
      | inl (no_cap, bare) ↦
          inl (no_cap, ap (λ (l : List (Slot K V)). replicate (length l) empty) bare)
      | inr t ↦ inr (
          subst (λ (n : ℕ). IsTable {V = V} hash (replicate n empty) m.cap) (sym t.wide)
            (fresh-IsTable hash words given m.cap t.capacity))
    ];
    counted = count-replicate entry (length m.slots) refl;
    filled = count-replicate taken (length m.slots) refl;
    load = omega arith;
  }

  pub freed-IsValid : (m : Gmap K V) → IsValid hash (gmap_free m)
  unfolding gmap_free count
  freed-IsValid m = record {
    table = inl (refl, refl);
    counted = refl;
    filled = refl;
    load = omega arith;
  }

  -- A cleared map is valid and has a value for no key; so has one that was freed.
  pub gmap_clear_lem :
      (m : Gmap K V)
      → IsValid hash m
      → IsValid hash (gmap_clear m)
        × IsValid hash (gmap_free m)
        × ((key : K) → gmap_get hash eq (gmap_clear m) key ≡ none)
        × ((key : K) → gmap_get hash eq (gmap_free m) key ≡ none)
  gmap_clear_lem m valid =
      let valid' = cleared-IsValid m valid in
      (
        valid',
        freed-IsValid m,
        λ key. get_absent (gmap_clear m) key valid' (λ v (i, e).
            no_entries hash words given (length m.slots) i (hash key) key v
              (unfold gmap_clear in e)),
        λ key.
            get_none hash eq eq_iff words (gmap_free m) key
              (no_table hash eq eq_iff words (gmap_free m) key (unfold gmap_free in refl)),
      )
