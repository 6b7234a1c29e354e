-- ===== src/Vector/Tests.antt =====
-- Runs of the vector, and each theorem at an input.
use ceres_standard_library.Prelude.{
  ◌^◌, ◌*◌, ◌+◌, drop, ◌<◌, ℕ, ◌≤◌, ◌≡◌, ◌⊎◌, refl, arith, [], ◌∷◌, some, none, true, false, Bool,
  leb,
}
use ceres_standard_library.Prelude.{List}
use ceres_standard_library.Prelude.Int.{ℤ, sub_ℕ}
use ceres_standard_library.Sort.Order.{IsOrder}
use ceres_standard_library.Sort.Refine.{IsStableSort}
use ceres_standard_library.Vector.Sorting.{vector_sort_stable, vector_sort_stable_lem}
use ceres_standard_library.Vector.{
  Vector, vector_init, vector_push_copy, vector_reserve, make_room_for_one, vector_insert,
  vector_at, vector_last, vector_pop, vector_remove,
}
use ceres_standard_library.Prelude.Growth.{CannotGrow}
use ceres_standard_library.Vector.Represents.{Holds}
use ceres_standard_library.Vector.Refine.{vector_push_copy_lem, vector_insert_lem}
use ceres_standard_library.Vector.Access.{vector_remove_lem}

program : Unit {0}
unfolding vector_init vector_push_copy vector_reserve make_room_for_one vector_insert vector_at
    vector_last vector_pop vector_remove
program = tt

-- an allocator that has no object above 100 bytes
abbrev small_heap : ℕ → Bool
small_heap bytes = leb bytes 100

abbrev three : Vector ℕ
three = record { cells = some 5 ∷ some 6 ∷ some 7 ∷ none ∷ []; len = 3; cap = 4; elem = 4 }

three-Holds : Holds three (5 ∷ 6 ∷ 7 ∷ [])
three-Holds = record {
  size = refl;
  within = omega arith;
  object = refl;
  elem_pos = omega arith;
  bytes = omega arith;
  prefix = refl;
}

runs :
    ((vector_push_copy small_heap (vector_init {A = ℕ} 4) 9).1.cap ≡ 4)
    × ((vector_push_copy small_heap
          (record three { len = 4; cells = some 1 ∷ some 2 ∷ some 3 ∷ some 4 ∷ [] })
          9).1.cap
        ≡ 8)
    × ((vector_push_copy small_heap (record three { len = 4; elem = 40 }) 9).0 ≡ false)
    × ((vector_insert small_heap three 1 9).1.cells ≡ some 5 ∷ some 9 ∷ some 6 ∷ some 7 ∷ [])
    × (vector_last three ≡ some 7)
unfolding program
runs = (refl, refl, refl, refl, refl)

vector_push_copy_lem_example :
    (((vector_push_copy small_heap three 9).0 ≡ true)
      × Holds (vector_push_copy small_heap three 9).1 (5 ∷ 6 ∷ 7 ∷ 9 ∷ []))
    ⊎ (((vector_push_copy small_heap three 9).0 ≡ false)
        × Holds (vector_push_copy small_heap three 9).1 (5 ∷ 6 ∷ 7 ∷ [])
        × CannotGrow small_heap 3 4 4)
vector_push_copy_lem_example = vector_push_copy_lem small_heap 9 three-Holds

vector_insert_lem_example :
    ((1 ≤ 3)
      × ((vector_insert small_heap three 1 9).0 ≡ true)
      × Holds (vector_insert small_heap three 1 9).1 (5 ∷ 9 ∷ 6 ∷ 7 ∷ []))
    ⊎ (((vector_insert small_heap three 1 9).0 ≡ false)
        × Holds (vector_insert small_heap three 1 9).1 (5 ∷ 6 ∷ 7 ∷ [])
        × ((3 < 1) ⊎ CannotGrow small_heap 3 4 4))
vector_insert_lem_example = vector_insert_lem small_heap 1 9 three-Holds

vector_remove_lem_example :
    ((1 < 3)
      × Holds (vector_remove three 1) (5 ∷ 7 ∷ [])
      × ((vector_remove three 1).cap ≡ 4)
      × ((vector_remove three 1).elem ≡ 4))
    ⊎ ((3 ≤ 1) × (vector_remove three 1 ≡ three))
vector_remove_lem_example = vector_remove_lem 1 three-Holds

abbrev by_size : ℕ → ℕ → ℤ
by_size x y = sub_ℕ x y

by_size-IsOrder : IsOrder by_size
by_size-IsOrder = record { asym = λ x y h. ground arith; trans = λ x y z h k. ground arith }

vector_sort_stable_lem_example :
    ((vector_sort_stable by_size small_heap three ≡ some (false, three))
      × (2 ≤ 3)
      × ((2 ^ 32 ≤ 3 * 4 + 4) ⊎ (small_heap (3 * 4 + 4) ≡ false)))
    ⊎ ((v' : Vector ℕ) × (ys : List ℕ) × (vector_sort_stable by_size small_heap three
          ≡ some (true, v'))
        × Holds v' ys
        × IsStableSort by_size (5 ∷ 6 ∷ 7 ∷ []) ys
        × (drop 3 v'.cells ≡ none ∷ [])
        × (v'.cap ≡ 4)
        × (v'.elem ≡ 4))
vector_sort_stable_lem_example =
    vector_sort_stable_lem by_size small_heap by_size-IsOrder three-Holds (λ h. omega arith)
