-- ===== src/Deque/Pop.antt =====
-- Pops and reads of a deque on the list of its elements.
use ceres_standard_library.Prelude.{
  ℕ, suc, ◌-◌, ◌<◌, ◌≡◌, ◌⊎◌, refl, arith, none, some, List, [], ◌∷◌, ◌++◌, length, length-append,
  get_elem?, dec_lt, ◌∙◌, ap, sym, lt→leb_false, le→leb,
}
use ceres_standard_library.Prelude.Cells.{
  cell, get_elem?-none, get_elem?-append_left, get_elem?-append_last,
}
use ceres_standard_library.Deque.{Deque, slot_of, dq_pop_back, dq_pop_front, dq_at}
use ceres_standard_library.Deque.Represents.{IsValid, Holds, IsCapacity-le}
use ceres_standard_library.Deque.Refine.{slot_of-same}

module _ {A : Type 0} where
  -- popping the only element of a one-slot circle or any other moves the head round by one
  slot_of-popped :
      (d : Deque A) (i : ℕ)
      → IsValid d
      → suc i < d.len
      → slot_of (record d { head = slot_of d 1; len = d.len - 1 }) i ≡ slot_of d (suc i)
  unfolding slot_of
  slot_of-popped d i v h = ground (arith, v.head_in, v.within, IsCapacity-le d.cap v.shape)

  slot_of-zero : (d : Deque A) → IsValid d → 0 < d.len → slot_of d 0 ≡ d.head
  unfolding slot_of
  slot_of-zero d v h = ground (arith, v.head_in, v.within, IsCapacity-le d.cap v.shape)

  popped_head_in : (d : Deque A) → IsValid d → 0 < d.len → (slot_of d 1 < d.cap) ⊎ (slot_of d 1 ≡ 0)
  unfolding slot_of
  popped_head_in d v h = ground (arith, v.head_in, v.within, IsCapacity-le d.cap v.shape)

  -- A pop at the front of a non-empty deque gives the first element and leaves the others.
  pub dq_pop_front-cons :
      {d : Deque A} {x : A} {xs : List A}
      → Holds d (x ∷ xs)
      → ((dq_pop_front d).0 ≡ some x) × Holds (dq_pop_front d).1 xs
  dq_pop_front-cons {d} {x} {xs} h =
      let v = h.valid in
      let pos : 0 < d.len = omega (arith, h.size) in
      let d' : Deque A = record d { head = slot_of d 1; len = d.len - 1 } in
      let e : dq_pop_front d ≡ (cell d.cells d.head, d') = unfold dq_pop_front in ground arith in
      rw e (
        ap (cell d.cells) (sym (slot_of-zero d v pos)) ∙ h.at 0 (omega arith),
        record {
          valid = record {
            within = omega (arith, v.within);
            head_in = popped_head_in d v pos;
            object = v.object;
            shape = v.shape;
            elem_pos = v.elem_pos;
          };
          size = omega (arith, h.size);
          at = λ i below.
              ap (cell d.cells) (slot_of-popped d i v (omega (arith, h.size)))
              ∙ h.at (suc i) (omega arith);
        },
      )

  -- A pop at the back of a non-empty deque gives the last element and leaves the others.
  pub dq_pop_back-last :
      {d : Deque A} {x : A} {xs : List A}
      → Holds d (xs ++ x ∷ [])
      → ((dq_pop_back d).0 ≡ some x) × Holds (dq_pop_back d).1 xs
  dq_pop_back-last {d} {x} {xs} h =
      let v = h.valid in
      let n = length-append xs (x ∷ []) in
      let last : d.len - 1 ≡ length xs = omega (arith, h.size) in
      let d' : Deque A = record d { len = d.len - 1 } in
      let e : dq_pop_back d ≡ (cell d.cells (slot_of d (d.len - 1)), d') =
        unfold dq_pop_back in ground (arith, h.size) in
      rw e (
        ap (λ (i : ℕ). cell d.cells (slot_of d i)) last
            ∙ h.at (length xs) (omega arith)
            ∙ get_elem?-append_last xs x,
        record {
          valid = record {
            within = omega (arith, v.within);
            head_in = v.head_in;
            object = v.object;
            shape = v.shape;
            elem_pos = v.elem_pos;
          };
          size = omega (arith, h.size);
          at = λ i below.
              ap (cell d.cells) (slot_of-same d' d i refl refl)
              ∙ h.at i (omega arith)
              ∙ get_elem?-append_left xs (x ∷ []) i below;
        },
      )

  -- An empty deque has nothing to pop, at either end, and stays as it is.
  pub dq_pop-nil :
      {d : Deque A} → Holds d [] → (dq_pop_front d ≡ (none, d)) × (dq_pop_back d ≡ (none, d))
  unfolding dq_pop_front dq_pop_back
  dq_pop-nil {d} h =
      let none_left : d.len ≡ 0 = omega (arith, h.size) in
      (rw (none_left, dq_pop_front), rw (none_left, dq_pop_back))

  -- `dq_at` reads the element, and NULL from the length on.
  pub dq_at_lem : {d : Deque A} {xs : List A} (i : ℕ) → Holds d xs → dq_at d i ≡ get_elem? xs i
  unfolding dq_at
  dq_at_lem {d} {xs} i h = elim (dec_lt i d.len) [
    | yes inside ↦ rw (lt→leb_false i d.len inside) (h.at i (omega (arith, h.size)))
    | no outside ↦
        rw (le→leb d.len i (omega arith)) (sym (get_elem?-none xs i (omega (arith, h.size))))
  ]
