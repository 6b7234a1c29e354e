-- ===== src/Deque/Refine.antt =====
-- The operations of a deque on the list of its elements.
use ceres_standard_library.Prelude.{
  ℕ, zero, suc, ◌-◌, ◌<◌, ◌≡◌, ◌≢◌, ◌⊎◌, inl, inr, refl, arith, some, Bool, true, false, List, [],
  ◌∷◌, ◌++◌, length, length-append, length-set, get_elem?, set, ◌==◌, if◌then◌else◌, add32, dec_lt,
  Bool-cases, ◌∙◌, ap, sym,
}
use ceres_standard_library.Prelude.Cells.{
  cell, cell-set_self, cell-set_ne, get_elem?-append_left, get_elem?-append_last,
}
use ceres_standard_library.Deque.{Deque, slot_of, room_for_one, dq_push_back, dq_push_front}
use ceres_standard_library.Deque.Represents.{
  IsValid, Holds, IsCapacity-le, slot_of-cases, slot_of-lt, slot_of-ne,
}
use ceres_standard_library.Deque.Grow.{room_for_one-Holds}
use ceres_standard_library.Deque.Room.{room_for_one-CannotGrow}
use ceres_standard_library.Prelude.Growth.{CannotGrow}

module _ {A : Type 0} where
  abbrev pushed_back : Deque A → A → Deque A
  pushed_back d x = record d { cells = set d.cells (slot_of d d.len) (some x); len = add32 d.len 1 }

  -- a slot depends on the head and the capacity alone
  pub slot_of-same :
      (d e : Deque A) (i : ℕ) → d.head ≡ e.head → d.cap ≡ e.cap → slot_of d i ≡ slot_of e i
  unfolding slot_of
  slot_of-same d e i p q = ground arith

  pushed_back-Holds :
      {d : Deque A} {xs : List A} (x : A)
      → Holds d xs
      → d.len < d.cap
      → Holds (pushed_back d x) (xs ++ x ∷ [])
  pushed_back-Holds {d} {xs} x h room =
      let v = h.valid in
      let grows : add32 d.len 1 ≡ suc d.len = omega (arith, IsCapacity-le d.cap v.shape) in
      record {
        valid = record {
          within = omega arith;
          head_in = v.head_in;
          object = length-set d.cells (slot_of d d.len) (some x) ∙ v.object;
          shape = v.shape;
          elem_pos = v.elem_pos;
        };
        size = omega (arith, length-append xs (x ∷ []), h.size);
        at = λ i below. elim (dec_lt i (length xs)) [
          | yes old ↦
              ap (cell (pushed_back d x).cells) (slot_of-same (pushed_back d x) d i refl refl)
              ∙ cell-set_ne d.cells (slot_of d d.len) (slot_of d i) (some x)
                  (λ e. slot_of-ne d v i d.len (omega (arith, h.size)) room (sym e))
              ∙ h.at i old
              ∙ sym (get_elem?-append_left xs (x ∷ []) i old)
          | no new ↦
              let here : i ≡ d.len = omega (arith, length-append xs (x ∷ []), h.size) in
              let last : length xs ≡ i = omega (arith, h.size) in
              ap (cell (pushed_back d x).cells)
                (slot_of-same (pushed_back d x) d i refl refl ∙ ap (slot_of d) here)
              ∙ cell-set_self d.cells (slot_of d d.len) (some x) (slot_of-lt d v d.len room)
              ∙ sym (get_elem?-append_last xs x)
              ∙ ap (get_elem? (xs ++ x ∷ [])) last
        ];
      }

  abbrev front_of : Deque A → ℕ
  front_of d = if d.head == 0 then d.cap - 1 else d.head - 1

  abbrev pushed_front : Deque A → A → Deque A
  pushed_front d x = record d {
    cells = set d.cells (front_of d) (some x);
    head = front_of d;
    len = add32 d.len 1;
  }

  slot_of-front :
      (d : Deque A) (x : A)
      → IsValid d
      → d.len < d.cap
      → (slot_of (pushed_front d x) 0 ≡ front_of d) × (front_of d < d.cap)
  unfolding slot_of
  slot_of-front d x v room = ground (arith, v.head_in, IsCapacity-le d.cap v.shape)

  slot_of-pushed_front :
      (d : Deque A) (x : A) (i : ℕ)
      → IsValid d
      → suc i < d.cap
      → slot_of (pushed_front d x) (suc i) ≡ slot_of d i
  unfolding slot_of
  slot_of-pushed_front d x i v room = ground (arith, v.head_in, IsCapacity-le d.cap v.shape)

  slot_of-ne_front : (d : Deque A) (i : ℕ) → IsValid d → suc i < d.cap → front_of d ≢ slot_of d i
  slot_of-ne_front d i v room = λ e. ground (arith, slot_of-cases d v i (omega arith), v.head_in)

  pushed_front-Holds :
      {d : Deque A} {xs : List A} (x : A)
      → Holds d xs
      → d.len < d.cap
      → Holds (pushed_front d x) (x ∷ xs)
  pushed_front-Holds {d} {xs} x h room =
      let v = h.valid in
      let (first, inside) = slot_of-front d x v room in
      record {
        valid = record {
          within = omega (arith, IsCapacity-le d.cap v.shape);
          head_in = inl inside;
          object = length-set d.cells (front_of d) (some x) ∙ v.object;
          shape = v.shape;
          elem_pos = v.elem_pos;
        };
        size = omega (arith, h.size, IsCapacity-le d.cap v.shape);
        at = at d x h room first inside;
      }
    where
      at :
          (d : Deque A) {xs : List A} (x : A)
          → Holds d xs
          → d.len < d.cap
          → slot_of (pushed_front d x) 0 ≡ front_of d
          → front_of d < d.cap
          → (i : ℕ) → i < length (x ∷ xs)
          → cell (pushed_front d x).cells (slot_of (pushed_front d x) i) ≡ get_elem? (x ∷ xs) i
      at d x h room first inside zero below =
          ap (cell (pushed_front d x).cells) first
          ∙ cell-set_self d.cells (front_of d) (some x) (omega (arith, h.valid.object))
      at d x h room first inside (suc i) below =
          ap (cell (pushed_front d x).cells)
            (slot_of-pushed_front d x i h.valid (omega (arith, h.size)))
          ∙ cell-set_ne d.cells (front_of d) (slot_of d i) (some x)
              (slot_of-ne_front d i h.valid (omega (arith, h.size)))
          ∙ h.at i (omega arith)

  module _ (given : ℕ → Bool) where
    -- A push at the back appends the element. It fails only in a full deque whose doubled object is
    -- too large or is refused, and then leaves the elements as they were.
    pub dq_push_back_lem :
        {d : Deque A} {xs : List A} (x : A)
        → Holds d xs
        → (((dq_push_back given d x).0 ≡ true) × Holds (dq_push_back given d x).1 (xs ++ x ∷ []))
          ⊎ (((dq_push_back given d x).0 ≡ false)
              × Holds (dq_push_back given d x).1 xs
              × CannotGrow given d.len d.cap d.elem)
    dq_push_back_lem {d} x h =
        let (holds, room) = room_for_one-Holds given h in
        let r = room_for_one given d in
        elim (Bool-cases r.0) [
          | inl ok ↦
              let e : dq_push_back given d x ≡ (true, pushed_back r.1 x) =
                unfold dq_push_back in rw ok in
              rw e (inl (refl, pushed_back-Holds x holds (room ok)))
          | inr failed ↦
              let e : dq_push_back given d x ≡ (false, r.1) = unfold dq_push_back in rw failed in
              rw e (inr (refl, holds, room_for_one-CannotGrow given h failed))
        ]

    -- A push at the front puts the element before the others. It fails only in a full deque whose
    -- doubled object is too large or is refused, and then leaves the elements as they were.
    pub dq_push_front_lem :
        {d : Deque A} {xs : List A} (x : A)
        → Holds d xs
        → (((dq_push_front given d x).0 ≡ true) × Holds (dq_push_front given d x).1 (x ∷ xs))
          ⊎ (((dq_push_front given d x).0 ≡ false)
              × Holds (dq_push_front given d x).1 xs
              × CannotGrow given d.len d.cap d.elem)
    dq_push_front_lem {d} x h =
        let (holds, room) = room_for_one-Holds given h in
        let r = room_for_one given d in
        elim (Bool-cases r.0) [
          | inl ok ↦
              let e : dq_push_front given d x ≡ (true, pushed_front r.1 x) =
                unfold dq_push_front in rw ok in
              rw e (inl (refl, pushed_front-Holds x holds (room ok)))
          | inr failed ↦
              let e : dq_push_front given d x ≡ (false, r.1) = unfold dq_push_front in rw failed in
              rw e (inr (refl, holds, room_for_one-CannotGrow given h failed))
        ]
