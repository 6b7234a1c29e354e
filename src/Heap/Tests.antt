-- ===== src/Heap/Tests.antt =====
-- Runs of the binary heap and instances of its theorems.
use ceres_standard_library.Prelude.{
  ℕ, ◌+◌, ◌<◌, ◌≡◌, refl, arith, ◌⊎◌, Bool, true, false, ltb, leb, if◌then◌else◌, some, none, List,
  [], ◌∷◌, ℕ_discrete,
}
use ceres_standard_library.Prelude.Int.{ℤ, pos, negsuc}
use ceres_standard_library.Prelude.Store.{◌>>=◌}
use ceres_standard_library.Vector.{
  vector_init, vector_push_copy, vector_reserve, make_room_for_one, vector_at, vector_pop,
}
use ceres_standard_library.Prelude.Growth.{CannotGrow}
use ceres_standard_library.Heap.{
  Pqueue, pq_init, pq_push, pq_pop, drop_first, sift_up, sift_down, better, swap_elems,
}
use ceres_standard_library.Heap.Arrays.{tally, one, item}
use ceres_standard_library.Heap.Order.{IsRanking, Leq}
use ceres_standard_library.Heap.Push.{Heaped, pq_push_lem}
use ceres_standard_library.Heap.Pop.{pq_pop_lem}

abbrev by_size : ℕ → ℕ → ℤ
by_size a b = if ltb a b then negsuc 0 else (if ltb b a then pos 1 else pos 0)

by_size-IsRanking : IsRanking by_size
by_size-IsRanking = record { asym = λ x y h. ground arith; trans = λ x y z h k. ground arith }

abbrev some_room : ℕ → Bool
some_room bytes = leb bytes 100

abbrev heap_of_three : Pqueue ℕ
heap_of_three = record {
  items = record { cells = some 2 ∷ some 7 ∷ some 4 ∷ none ∷ []; len = 3; cap = 4; elem = 4 };
}

three-Heaped : Heaped by_size 0 heap_of_three (2 ∷ 7 ∷ 4 ∷ [])
three-Heaped = record {
  holds = record {
    size = refl;
    within = omega arith;
    object = refl;
    elem_pos = omega arith;
    bytes = omega arith;
    prefix = refl;
  };
  heap = λ c c_pos c_in. elim (ℕ_discrete c 1) [
    | yes e ↦ rw e refl
    | no ne ↦ let e : c ≡ 2 = omega arith in rw e refl
  ];
}

-- three pushes into an empty queue, then pops until nothing is left
runs :
    (do
      (a, q) ← pq_push by_size some_room (pq_init 4) 5
      (b, q2) ← pq_push by_size some_room q 3
      (c, q3) ← pq_push by_size some_room q2 4
      (x, q4) ← pq_pop by_size q3
      (y, q5) ← pq_pop by_size q4
      (z, q6) ← pq_pop by_size q5
      (w, q7) ← pq_pop by_size q6
      some (x ∷ y ∷ z ∷ w ∷ []))
    ≡ some (some 3 ∷ some 4 ∷ some 5 ∷ none ∷ [])
unfolding pq_init pq_push pq_pop drop_first sift_up sift_down better swap_elems vector_init
    vector_push_copy vector_reserve make_room_for_one vector_at vector_pop
runs = refl

pq_push_lem_example :
    (done : Bool) × (q' : Pqueue ℕ) × (ys : List ℕ) × (pq_push by_size some_room heap_of_three 1
      ≡ some (done, q'))
    × Heaped by_size 0 q' ys
    × (((done ≡ true) × ((P : ℕ → Bool) → tally P ys ≡ tally P (2 ∷ 7 ∷ 4 ∷ []) + one P 1))
        ⊎ ((done ≡ false) × (ys ≡ 2 ∷ 7 ∷ 4 ∷ []) × CannotGrow some_room 3 4 4))
pq_push_lem_example =
    pq_push_lem by_size 0 some_room heap_of_three (2 ∷ 7 ∷ 4 ∷ []) 1 by_size-IsRanking three-Heaped

pq_pop_lem_example :
    ((◌≡◌ {A = List ℕ} (2 ∷ 7 ∷ 4 ∷ []) [])
      × (pq_pop by_size heap_of_three ≡ some (none, heap_of_three)))
    ⊎ ((x : ℕ) × (q' : Pqueue ℕ) × (ys : List ℕ) × (pq_pop by_size heap_of_three
          ≡ some (some x, q'))
        × Heaped by_size 0 q' ys
        × ((P : ℕ → Bool) → tally P ys + one P x ≡ tally P (2 ∷ 7 ∷ 4 ∷ []))
        × ((i : ℕ) → i < 3 → Leq by_size x (item 0 (2 ∷ 7 ∷ 4 ∷ []) i)))
pq_pop_lem_example =
    pq_pop_lem by_size 0 heap_of_three (2 ∷ 7 ∷ 4 ∷ []) by_size-IsRanking three-Heaped (omega arith)
