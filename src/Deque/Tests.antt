-- ===== src/Deque/Tests.antt =====
-- Runs of the deque, and each theorem at an input.
use ceres_standard_library.Prelude.{
  ℕ, ◌≡◌, ◌⊎◌, inl, inr, refl, arith, [], ◌∷◌, some, none, true, false, Bool, leb, get_elem?,
}
use ceres_standard_library.Prelude.Cells.{cell}
use ceres_standard_library.Prelude.Finite.{agree_lem}
use ceres_standard_library.Prelude.Growth.{CannotGrow}
use ceres_standard_library.Deque.{
  Deque, dq_init, slot_of, copy_out, grow, room_for_one, dq_push_back, dq_push_front, dq_pop_back,
  dq_pop_front, dq_at,
}
use ceres_standard_library.Deque.Represents.{Holds}
use ceres_standard_library.Deque.Refine.{dq_push_back_lem}
use ceres_standard_library.Deque.Pop.{dq_pop_front-cons}

program : Unit {0}
unfolding dq_init slot_of copy_out grow room_for_one dq_push_back dq_push_front dq_pop_back
    dq_pop_front dq_at
program = tt

abbrev small_heap : ℕ → Bool
small_heap bytes = leb bytes 100

-- a full circle of four slots whose front is in the middle
abbrev circle : Deque ℕ
circle = record {
  cells = some 7 ∷ some 8 ∷ some 5 ∷ some 6 ∷ [];
  head = 2;
  len = 4;
  cap = 4;
  elem = 4;
}

circle-Holds : Holds circle (5 ∷ 6 ∷ 7 ∷ 8 ∷ [])
unfolding slot_of
circle-Holds = record {
  valid = record {
    within = omega arith;
    head_in = inl (omega arith);
    object = refl;
    shape = inr (2, omega arith, refl);
    elem_pos = omega arith;
  };
  size = refl;
  at =
      agree_lem 4 (λ i. cell circle.cells (slot_of circle i)) (get_elem? (5 ∷ 6 ∷ 7 ∷ 8 ∷ []))
        (refl, (refl, (refl, (refl, tt))));
}

runs :
    ((dq_push_back small_heap circle 9).1.cells
      ≡ some 5 ∷ some 6 ∷ some 7 ∷ some 8 ∷ some 9 ∷ none ∷ none ∷ none ∷ [])
    × ((dq_push_front small_heap circle 4).1.head ≡ 7)
    × ((dq_push_front small_heap (record circle { elem = 40 }) 4).0 ≡ false)
    × ((dq_pop_back circle).0 ≡ some 8)
    × ((dq_pop_front circle).1.head ≡ 3)
unfolding program
runs = (refl, refl, refl, refl, refl)

dq_push_back_lem_example :
    (((dq_push_back small_heap circle 9).0 ≡ true)
      × Holds (dq_push_back small_heap circle 9).1 (5 ∷ 6 ∷ 7 ∷ 8 ∷ 9 ∷ []))
    ⊎ (((dq_push_back small_heap circle 9).0 ≡ false)
        × Holds (dq_push_back small_heap circle 9).1 (5 ∷ 6 ∷ 7 ∷ 8 ∷ [])
        × CannotGrow small_heap circle.len circle.cap circle.elem)
dq_push_back_lem_example = dq_push_back_lem small_heap 9 circle-Holds

dq_pop_front-cons_example :
    ((dq_pop_front circle).0 ≡ some 5) × Holds (dq_pop_front circle).1 (6 ∷ 7 ∷ 8 ∷ [])
dq_pop_front-cons_example = dq_pop_front-cons circle-Holds
