-- ===== src/Gmap/Tests.antt =====
-- A map of eight slots with one entry, and runs of the operations on it.
use ceres_standard_library.Prelude.{
  ℕ, ◌<◌, ◌≡◌, ◌↔◌, ◌⊎◌, inr, refl, arith, List, set, replicate, none, some, u32, u32_size, Bool,
  true, false, ◌==◌, ==_iff,
}
use ceres_standard_library.Gmap.{Slot, empty, used, Gmap, gmap_get, gmap_remove}
use ceres_standard_library.Gmap.Probe.{IsCapacity}
use ceres_standard_library.Gmap.Slots.{count}
use ceres_standard_library.Gmap.Find.{IsTable, IsValid, Entry, gmap_get-Entry}
use ceres_standard_library.Gmap.Write.{write-IsTable}
use ceres_standard_library.Gmap.Steps.{fresh-IsTable, no_entries}
use ceres_standard_library.Gmap.Refine.{Stored, Refused, gmap_set_lem}
use ceres_standard_library.Gmap.Remove.{Removed, gmap_remove_lem}

abbrev hash : ℕ → ℕ
hash k = u32 k

words : (k : ℕ) → hash k < u32_size
words k = omega arith

abbrev equal : ℕ → ℕ → Bool
equal a b = a == b

abbrev always : ℕ → ℕ → Bool
always i n = true

abbrev bare : List (Slot ℕ ℕ)
bare = replicate 8 empty

abbrev one : Gmap ℕ ℕ
one = record {
  slots = set bare 3 (used 3 3 30);
  cap = 8;
  len = 1;
  used = 1;
  key_size = 4;
  value_size = 4;
}

eight : IsCapacity 8
eight = record {
  bits = 3;
  narrow = omega arith;
  power = omega arith;
  positive = omega arith;
  word = omega arith;
}

one-IsTable : IsTable hash one.slots 8
one-IsTable =
    write-IsTable hash bare 8 (fresh-IsTable hash words always 8 eight) 3 (omega arith) 3 30
      (record {
        steps = 0;
        within = omega arith;
        there = refl;
        open_way = λ e h. absurd (omega arith);
      })
      (λ j h w e. absurd (no_entries hash words always 8 j h 3 w e))

one-IsValid : IsValid hash one
unfolding count
one-IsValid = record { table = inr one-IsTable; counted = refl; filled = refl; load = omega arith }

gmap_get-Entry_example : (gmap_get hash equal one 3 ≡ some 30) ↔ Entry hash one.slots 3 30
gmap_get-Entry_example = gmap_get-Entry hash equal ==_iff words one 3 30 one-IsValid

gmap_set_lem_example :
    Stored hash words equal ==_iff always one 11 40 one-IsValid
    ⊎ Refused hash words equal ==_iff always one 11 40 one-IsValid
gmap_set_lem_example = gmap_set_lem hash words equal ==_iff always one 11 40 one-IsValid

gmap_remove_lem_example :
    Removed hash words equal ==_iff always one 3 one-IsValid
    ⊎ ((gmap_remove hash equal one 3 ≡ (one, false)) × (gmap_get hash equal one 3 ≡ none))
gmap_remove_lem_example = gmap_remove_lem hash words equal ==_iff always one 3 one-IsValid
