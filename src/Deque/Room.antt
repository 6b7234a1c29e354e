-- ===== src/Deque/Room.antt =====
-- Why room_for_one refuses.
use ceres_standard_library.Prelude.{
  ℕ, ◌*◌, ◌/◌, ◌<◌, ◌≤◌, ◌≡◌, refl, arith, ◌⊎◌, inl, inr, Bool, false, ltb, ◌==◌, if◌then◌else◌,
  Bool-cases, u32_max, mul32, dec_lt, List, ltb→lt,
}
use ceres_standard_library.Prelude.Growth.{CannotGrow, too_large, wraps-too_large}
use ceres_standard_library.Deque.{Deque, grow, room_for_one}
use ceres_standard_library.Deque.Represents.{Holds, IsCapacity-le}

module _ {A : Type 0} (given : ℕ → Bool) where
  grow-refusal :
      (d : Deque A) (want : ℕ)
      → 0 < d.elem
      → (if d.cap == 0 then 4 else mul32 d.cap 2) ≡ want
      → d.cap ≤ want
      → (grow given d).0 ≡ false
      → (u32_max < want * d.elem) ⊎ (given (want * d.elem) ≡ false)
  unfolding grow
  grow-refusal d want pos e more h = elim (Bool-cases (ltb (u32_max / d.elem) want)) [
    | inl large ↦ inl (too_large want d.elem pos (ltb→lt (u32_max / d.elem) want large))
    | inr fits ↦ elim (Bool-cases (given (want * d.elem))) [
      | inl got ↦ absurd (ground (arith, e))
      | inr refused ↦ inr refused
    ]
  ]

  -- Making room fails only in a full deque whose larger object does not fit or is refused.
  pub room_for_one-CannotGrow :
      {d : Deque A} {xs : List A}
      → Holds d xs
      → (room_for_one given d).0 ≡ false
      → CannotGrow given d.len d.cap d.elem
  room_for_one-CannotGrow {d} h failed = elim (Bool-cases (d.len == d.cap)) [
    | inr room ↦ absurd (unfold room_for_one in ground arith)
    | inl full ↦
        let small = IsCapacity-le d.cap h.valid.shape in
        let grows : (grow given d).0 ≡ false = unfold room_for_one in ground arith in
        let pos = h.valid.elem_pos in
        elim (Bool-cases (d.cap == 0)) [
          | inl none_yet ↦ (
            ground arith,
            rw none_yet (grow-refusal d 4 pos (rw none_yet refl) (ground arith) grows),
          )
          | inr some_cap ↦ elim (dec_lt (mul32 d.cap 2) d.cap) [
            | yes wraps ↦ (ground arith, rw some_cap (inl (wraps-too_large d.cap d.elem pos wraps)))
            | no doubles ↦
                let twice : mul32 d.cap 2 ≡ d.cap * 2 = omega arith in
                (
                  ground arith,
                  rw some_cap
                      (grow-refusal d (d.cap * 2) pos (rw some_cap twice) (omega arith) grows),
                )
          ]
        ]
  ]
