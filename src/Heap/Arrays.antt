-- ===== src/Heap/Arrays.antt =====
-- The elements of a vector as an array with a default, a swap in it, and how often a test holds.
use ceres_standard_library.Prelude.{
  ℕ, zero, suc, ◌+◌, ◌<◌, ◌≡◌, refl, ap, ◌∙◌, arith, Bool, some, List, [], ◌∷◌, ◌++◌, map, length,
  length-set, get_elem?, get_or, set, take, ◌==◌, if◌then◌else◌,
}
use ceres_standard_library.Prelude.Cells.{Cells}
use ceres_standard_library.Prelude.Store.{◌>>=◌}
use ceres_standard_library.Vector.{Vector, vector_at}
use ceres_standard_library.Vector.Represents.{Holds}
use ceres_standard_library.Vector.Access.{vector_at_lem}
use ceres_standard_library.Heap.{swap_elems}

module _ {A : Type 0} where
  take-set_inside :
      (n i : ℕ) (xs : List A) (z : A) → i < n → take n (set xs i z) ≡ set (take n xs) i z
  take-set_inside zero i xs z h = absurd (omega arith)
  take-set_inside (suc n) i [] z h = refl
  take-set_inside (suc n) zero (x ∷ xs) z h = refl
  take-set_inside (suc n) (suc i) (x ∷ xs) z h =
      ap (λ (l : List A). x ∷ l) (take-set_inside n i xs z (omega arith))

  set-map : (xs : List A) (i : ℕ) (x : A) → set (map some xs) i (some x) ≡ map some (set xs i x)
  set-map [] i x = refl
  set-map (y ∷ xs) zero x = refl
  set-map (y ∷ xs) (suc i) x = ap (λ (l : Cells A). some y ∷ l) (set-map xs i x)

  -- how many elements a test holds of: lists with the same tallies have the same elements
  abbrev pub one : (A → Bool) → A → ℕ
  one P x = if P x then 1 else 0

  abbrev pub tally : (A → Bool) → List A → ℕ
  tally P [] = 0
  tally P (x ∷ xs) = one P x + tally P xs

  pub tally-append : (P : A → Bool) (xs ys : List A) → tally P (xs ++ ys) ≡ tally P xs + tally P ys
  tally-append P [] ys = omega arith
  tally-append P (x ∷ xs) ys = omega (arith, tally-append P xs ys)

module _ {A : Type 0} where
  pub set-Holds :
      {v : Vector A} {xs : List A} (i : ℕ) (x : A)
      → Holds v xs
      → i < length xs
      → Holds (record v { cells = set v.cells i (some x) }) (set xs i x)
  set-Holds {v} {xs} i x h less = record {
    size = length-set xs i x ∙ h.size;
    within = h.within;
    object = length-set v.cells i (some x) ∙ h.object;
    elem_pos = h.elem_pos;
    bytes = h.bytes;
    prefix =
        take-set_inside v.len i v.cells (some x) (omega (arith, h.size))
        ∙ ap (λ (c : Cells A). set c i (some x)) h.prefix
        ∙ set-map xs i x;
  }

module _ {A : Type 0} (d : A) where
  abbrev pub item : List A → ℕ → A
  item xs i = get_or xs i d

  pub get-item : (xs : List A) (i : ℕ) → i < length xs → get_elem? xs i ≡ some (item xs i)
  get-item [] i h = absurd (omega arith)
  get-item (x ∷ xs) zero h = refl
  get-item (x ∷ xs) (suc i) h = get-item xs i (omega arith)

  pub item-set :
      (xs : List A) (i k : ℕ) (x : A)
      → i < length xs
      → item (set xs i x) k ≡ (if k == i then x else item xs k)
  item-set [] i k x h = absurd (omega arith)
  item-set (y ∷ xs) zero zero x h = refl
  item-set (y ∷ xs) zero (suc k) x h = ground arith
  item-set (y ∷ xs) (suc i) zero x h = ground arith
  item-set (y ∷ xs) (suc i) (suc k) x h = ground (arith, item-set xs i k x)

  pub item_at :
      {v : Vector A} {xs : List A} (i : ℕ)
      → Holds v xs
      → i < length xs
      → vector_at v i ≡ some (item xs i)
  item_at {xs = xs} i h less = vector_at_lem i h ∙ get-item xs i less

  abbrev pub swapped : List A → ℕ → ℕ → List A
  swapped xs i j = set (set xs i (item xs j)) j (item xs i)

  pub length-swapped : (xs : List A) (i j : ℕ) → length (swapped xs i j) ≡ length xs
  length-swapped xs i j =
      length-set (set xs i (item xs j)) j (item xs i) ∙ length-set xs i (item xs j)

  pub item-swapped :
      (xs : List A) (i j k : ℕ)
      → i < length xs
      → j < length xs
      → item (swapped xs i j) k
        ≡ (if k == j then item xs i else if k == i then item xs j else item xs k)
  item-swapped xs i j k hi hj =
      item-set (set xs i (item xs j)) j k (item xs i) (omega (arith, length-set xs i (item xs j)))
      ∙ ap (λ (x : A). if k == j then item xs i else x) (item-set xs i k (item xs j) hi)

  tally-set :
      (P : A → Bool) (xs : List A) (i : ℕ) (x : A)
      → i < length xs
      → tally P (set xs i x) + one P (item xs i) ≡ tally P xs + one P x
  tally-set P [] i x h = absurd (omega arith)
  tally-set P (y ∷ xs) zero x h = omega arith
  tally-set P (y ∷ xs) (suc i) x h = omega (arith, tally-set P xs i x (omega arith))

  pub tally-swapped :
      (P : A → Bool) (xs : List A) (i j : ℕ)
      → i < length xs
      → j < length xs
      → tally P (swapped xs i j) ≡ tally P xs
  tally-swapped P xs i j hi hj =
      let same : item (set xs i (item xs j)) j ≡ item xs j =
        item-set xs i j (item xs j) hi ∙ ground arith in
      let first = tally-set P xs i (item xs j) hi in
      let second =
        tally-set P (set xs i (item xs j)) j (item xs i)
          (omega (arith, length-set xs i (item xs j))) in
      omega (arith, first, second, ap (one P) same)

  pub swap_elems-Holds :
      {v : Vector A} {xs : List A} (i j : ℕ)
      → Holds v xs
      → i < length xs
      → j < length xs
      → (v' : Vector A) × (swap_elems v i j ≡ some v')
        × Holds v' (swapped xs i j)
        × (v'.len ≡ v.len)
  unfolding swap_elems
  swap_elems-Holds {v} {xs} i j h hi hj = (
    record v { cells = set (set v.cells i (some (item xs j))) j (some (item xs i)) },
    rw (item_at i h hi, ◌>>=◌, item_at j h hj, ◌>>=◌),
    set-Holds j (item xs i) (set-Holds i (item xs j) h hi)
        (omega (arith, length-set xs i (item xs j))),
    refl,
  )
