-- ===== src/Deque/Grow.antt =====
-- Growing keeps the elements and unwraps the circle.
use native.Mathlib.Nat.{pow-suc, pow-le-pow_right}
use ceres_standard_library.Prelude.{
  ◌^◌, ℕ, zero, suc, ◌+◌, ◌*◌, ◌/◌, ◌<◌, ◌≤◌, ◌≡◌, ◌⊎◌, inl, inr, refl, arith, Option, none, Bool,
  true, false, List, length, length-set, length-replicate, set, ltb, ◌==◌, mul32, u32_max, dec_lt,
  Bool-cases, ◌∙◌, ap, sym,
}
use ceres_standard_library.Prelude.Cells.{Cells, cell, blank, cell-set_self, cell-set_ne}
use ceres_standard_library.Deque.{Deque, slot_of, copy_out, grow, room_for_one}
use ceres_standard_library.Deque.Represents.{Holds, IsCapacity, IsCapacity-le}

-- Doubling a capacity gives the next one, or wraps to 0.
doubled :
    (cap : ℕ)
    → IsCapacity cap
    → 0 < cap
    → (mul32 cap 2 < cap) ⊎ ((cap < mul32 cap 2) × IsCapacity (mul32 cap 2))
doubled cap (inl e) pos = absurd (omega arith)
doubled cap (inr (k, fits, e)) pos = elim (dec_lt k 31) [
  | yes less ↦
      let bound = pow-le-pow_right {n = 2} (omega arith) {i = suc k} {j = 31} less in
      let next = pow-suc 2 k in inr (omega arith, inr (suc k, less, omega arith))
  | no last ↦
      let top : k ≡ 31 = omega arith in
      let e' : cap ≡ 0x8000_0000 = e ∙ ap (λ (j : ℕ). 2 ^ j) top in inl (omega arith)
]

module _ {A : Type 0} where
  length-copy_out :
      (d : Deque A) (left i : ℕ) (to : Cells A) → length (copy_out d left i to) ≡ length to
  unfolding copy_out
  length-copy_out d zero i to = refl
  length-copy_out d (suc left) i to =
      length-copy_out d left (i + 1) (set to i (cell d.cells (slot_of d i)))
      ∙ length-set to i (cell d.cells (slot_of d i))

  -- The loop leaves what is below its index, and fills the rest in logical order.
  copy_out-below :
      (d : Deque A) (left i : ℕ) (to : Cells A) (j : ℕ)
      → j < i
      → cell (copy_out d left i to) j ≡ cell to j
  unfolding copy_out
  copy_out-below d zero i to j h = refl
  copy_out-below d (suc left) i to j h =
      copy_out-below d left (i + 1) (set to i (cell d.cells (slot_of d i))) j (omega arith)
      ∙ cell-set_ne to i j (cell d.cells (slot_of d i)) (omega arith)

  copy_out-at :
      (d : Deque A) (left i : ℕ) (to : Cells A) (j : ℕ)
      → i ≤ j
      → j < i + left
      → i + left ≤ length to
      → cell (copy_out d left i to) j ≡ cell d.cells (slot_of d j)
  unfolding copy_out
  copy_out-at d zero i to j lo hi fits = absurd (omega arith)
  copy_out-at d (suc left) i to j lo hi fits = elim (dec_lt i j) [
    | yes later ↦
        copy_out-at d left (i + 1) (set to i (cell d.cells (slot_of d i))) j (omega arith)
          (omega arith) (omega (arith, length-set to i (cell d.cells (slot_of d i))))
    | no now ↦
        let same : i ≡ j = omega arith in
        copy_out-below d left (i + 1) (set to i (cell d.cells (slot_of d i))) j (omega arith)
        ∙ ap (cell (set to i (cell d.cells (slot_of d i)))) (sym same)
        ∙ cell-set_self to i (cell d.cells (slot_of d i)) (omega arith)
        ∙ ap (λ (k : ℕ). cell d.cells (slot_of d k)) same
  ]

  abbrev grown : Deque A → ℕ → Deque A
  grown d want = record d { cells = copy_out d d.len 0 (blank want); cap = want; head = 0 }

  slot_of-grown :
      (d : Deque A) (want i : ℕ) → i < want → want ≤ 0x8000_0000 → slot_of (grown d want) i ≡ i
  unfolding slot_of
  slot_of-grown d want i h small = ground arith

  grown-Holds :
      {d : Deque A} {xs : List A} (want : ℕ)
      → Holds d xs
      → d.cap ≤ want
      → IsCapacity want
      → Holds (grown d want) xs
  grown-Holds {d} {xs} want h more shape =
      let small = IsCapacity-le want shape in
      let blanks = length-replicate {A = Option A} want none in
      record {
        valid = record {
          within = omega (arith, h.valid.within);
          head_in = inr refl;
          object = length-copy_out d d.len 0 (blank want) ∙ blanks;
          shape = shape;
          elem_pos = h.valid.elem_pos;
        };
        size = h.size;
        at = λ i below.
            ap (cell (copy_out d d.len 0 (blank want)))
              (slot_of-grown d want i (omega (arith, h.size, h.valid.within)) small)
            ∙ copy_out-at d d.len 0 (blank want) i (omega arith) (omega (arith, h.size))
                (omega (arith, blanks, h.valid.within))
            ∙ h.at i below;
      }

  module _ (given : ℕ → Bool) where
    grow-cases :
        (d : Deque A)
        → IsCapacity d.cap
        → (grow given d ≡ (false, d))
          ⊎ ((want : ℕ) × (d.cap < want) × IsCapacity want × (grow given d ≡ (true, grown d want)))
    grow-cases d shape = elim (Bool-cases (d.cap == 0)) [
      | inl none_yet ↦ elim (Bool-cases (ltb (u32_max / d.elem) 4)) [
        | inl large ↦ inl (unfold grow in ground arith)
        | inr fits ↦ elim (Bool-cases (given (4 * d.elem))) [
          | inl got ↦
              inr (4, ground arith, inr (2, omega arith, refl), (unfold grow in ground arith))
          | inr refused ↦ inl (unfold grow in ground arith)
        ]
      ]
      | inr some_cap ↦ elim (doubled d.cap shape (ground arith)) [
        | inl wraps ↦ inl (unfold grow in ground arith)
        | inr (more, shape') ↦ elim (Bool-cases (ltb (u32_max / d.elem) (mul32 d.cap 2))) [
          | inl large ↦ inl (unfold grow in ground arith)
          | inr fits ↦ elim (Bool-cases (given (mul32 d.cap 2 * d.elem))) [
            | inl got ↦ inr (mul32 d.cap 2, more, shape', (unfold grow in ground arith))
            | inr refused ↦ inl (unfold grow in ground arith)
          ]
        ]
      ]
    ]

    -- Making room keeps the elements, and reports success only with a free slot.
    pub room_for_one-Holds :
        {d : Deque A} {xs : List A}
        → Holds d xs
        → Holds (room_for_one given d).1 xs
          × ((room_for_one given d).0 ≡ true
              → (room_for_one given d).1.len < (room_for_one given d).1.cap)
    room_for_one-Holds {d} h = elim (Bool-cases (d.len == d.cap)) [
      | inl full ↦
          let e : room_for_one given d ≡ grow given d = unfold room_for_one in rw full in
          elim (grow-cases d h.valid.shape) [
            | inl refused ↦ rw (e ∙ refused) (h, λ bad. cc)
            | inr (want, more, shape, got) ↦
                rw (e ∙ got)
                  (grown-Holds want h (omega arith) shape, λ _. omega (arith, h.valid.within))
          ]
      | inr free ↦
          let e : room_for_one given d ≡ (true, d) = unfold room_for_one in rw free in
          rw e (h, λ _. ground (arith, h.valid.within))
    ]
