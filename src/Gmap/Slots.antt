-- ===== src/Gmap/Slots.antt =====
-- Reading, writing and counting the slots of a table.
use ceres_standard_library.Prelude.{
  ℕ, zero, suc, ◌+◌, ◌<◌, ◌≤◌, ◌≡◌, ◌≢◌, refl, ap, arith, List, [], ◌∷◌, length, set, replicate,
}
use ceres_standard_library.Gmap.{Slot, empty, used, tombstone, slot_at}

-- what a slot adds to the number of entries, and to the number of slots in use
abbrev pub entry : {K V : Type 0} → Slot K V → ℕ
entry empty = 0
entry (used h k v) = 1
entry tombstone = 0

abbrev pub taken : {K V : Type 0} → Slot K V → ℕ
taken empty = 0
taken (used h k v) = 1
taken tombstone = 1

module _ {K V : Type 0} where
  unfoldable pub count : (Slot K V → ℕ) → List (Slot K V) → ℕ
  count f [] = 0
  count f (s ∷ slots) = f s + count f slots

  pub slot_at-set_self :
      (slots : List (Slot K V)) (i : ℕ) (s : Slot K V)
      → i < length slots
      → slot_at (set slots i s) i ≡ s
  unfolding slot_at
  slot_at-set_self [] i s h = absurd (omega arith)
  slot_at-set_self (x ∷ slots) zero s h = refl
  slot_at-set_self (x ∷ slots) (suc i) s h = slot_at-set_self slots i s (omega arith)

  pub slot_at-set_ne :
      (slots : List (Slot K V)) (i j : ℕ) (s : Slot K V)
      → i ≢ j
      → slot_at (set slots i s) j ≡ slot_at slots j
  unfolding slot_at
  slot_at-set_ne [] i j s h = refl
  slot_at-set_ne (x ∷ slots) zero zero s h = absurd (h refl)
  slot_at-set_ne (x ∷ slots) zero (suc j) s h = refl
  slot_at-set_ne (x ∷ slots) (suc i) zero s h = refl
  slot_at-set_ne (x ∷ slots) (suc i) (suc j) s h = slot_at-set_ne slots i j s (λ e. h (ap suc e))

  pub slot_at_outside :
      (slots : List (Slot K V)) (i : ℕ) → length slots ≤ i → slot_at slots i ≡ empty
  unfolding slot_at
  slot_at_outside [] i h = refl
  slot_at_outside (x ∷ slots) zero h = absurd (omega arith)
  slot_at_outside (x ∷ slots) (suc i) h = slot_at_outside slots i (omega arith)

  pub count-set :
      (f : Slot K V → ℕ) (slots : List (Slot K V)) (i : ℕ) (s : Slot K V)
      → i < length slots
      → count f (set slots i s) + f (slot_at slots i) ≡ count f slots + f s
  unfolding count slot_at
  count-set f [] i s h = absurd (omega arith)
  count-set f (x ∷ slots) zero s h = omega arith
  count-set f (x ∷ slots) (suc i) s h = omega (arith, count-set f slots i s (omega arith))

  pub count-replicate : (f : Slot K V → ℕ) (n : ℕ) → f empty ≡ 0 → count f (replicate n empty) ≡ 0
  unfolding count
  count-replicate f zero h = refl
  count-replicate f (suc n) h = omega (arith, count-replicate f n h)

  pub slot_at-replicate : (n i : ℕ) → slot_at {K = K} {V = V} (replicate n empty) i ≡ empty
  unfolding slot_at
  slot_at-replicate zero i = refl
  slot_at-replicate (suc n) zero = refl
  slot_at-replicate (suc n) (suc i) = slot_at-replicate n i

  -- a table that is not full has a slot never used
  pub find_empty :
      (slots : List (Slot K V))
      → count taken slots < length slots
      → (j : ℕ) × (j < length slots) × (slot_at slots j ≡ empty)
  unfolding count slot_at
  find_empty [] h = absurd (omega arith)
  find_empty (empty ∷ slots) h = (0, omega arith, refl)
  find_empty (used h k v ∷ slots) less =
      let (j, inside, e) = find_empty slots (omega arith) in (suc j, omega arith, e)
  find_empty (tombstone ∷ slots) less =
      let (j, inside, e) = find_empty slots (omega arith) in (suc j, omega arith, e)

  pub entry-le-taken : (slots : List (Slot K V)) → count entry slots ≤ count taken slots
  unfolding count
  entry-le-taken [] = omega arith
  entry-le-taken (empty ∷ slots) = omega (arith, entry-le-taken slots)
  entry-le-taken (used h k v ∷ slots) = omega (arith, entry-le-taken slots)
  entry-le-taken (tombstone ∷ slots) = omega (arith, entry-le-taken slots)
