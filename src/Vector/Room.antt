-- ===== src/Vector/Room.antt =====
-- Why vector_reserve and make_room_for_one refuse.
use ceres_standard_library.Prelude.{
  ℕ, ◌*◌, ◌/◌, ◌<◌, ◌≤◌, ◌≡◌, sym, ap, ◌∙◌, arith, ◌⊎◌, inl, inr, Bool, false, ltb, ◌==◌,
  Bool-cases, u32_max, mul32, dec_lt, List, ltb→lt,
}
use ceres_standard_library.Prelude.Growth.{CannotGrow, too_large, wraps-too_large}
use ceres_standard_library.Vector.{Vector, vector_reserve, make_room_for_one}
use ceres_standard_library.Vector.Represents.{Holds}

module _ {A : Type 0} (given : ℕ → Bool) where
  reserve-refusal :
      (v : Vector A) (cap : ℕ)
      → 0 < v.elem
      → v.cap < cap
      → (vector_reserve given v cap).0 ≡ false
      → (u32_max < cap * v.elem) ⊎ (given (cap * v.elem) ≡ false)
  unfolding vector_reserve
  reserve-refusal v cap pos more h = elim (Bool-cases (ltb (u32_max / v.elem) cap)) [
    | inl large ↦ inl (too_large cap v.elem pos (ltb→lt (u32_max / v.elem) cap large))
    | inr fits ↦ elim (Bool-cases (given (cap * v.elem))) [
      | inl got ↦ absurd (ground arith)
      | inr refused ↦ inr refused
    ]
  ]

  -- Making room fails only in a full vector whose larger object does not fit or is refused.
  pub make_room-CannotGrow :
      {v : Vector A} {xs : List A}
      → Holds v xs
      → (make_room_for_one given v).0 ≡ false
      → CannotGrow given v.len v.cap v.elem
  make_room-CannotGrow {v} h failed = elim (dec_lt v.len v.cap) [
    | yes room ↦ absurd (unfold make_room_for_one in ground arith)
    | no full ↦ elim (Bool-cases (v.cap == 0)) [
      | inl none_yet ↦
          let e : make_room_for_one given v ≡ vector_reserve given v 4 =
            unfold make_room_for_one in ground arith in
          let r =
            reserve-refusal v 4 h.elem_pos (ground arith)
              (ap (λ (p : Bool × Vector A). p.0) (sym e) ∙ failed) in
          (omega (arith, h.within), rw none_yet r)
      | inr some_cap ↦ elim (dec_lt (mul32 v.cap 2) v.cap) [
        | yes wraps ↦ (
          omega (arith, h.within),
          rw some_cap (inl (wraps-too_large v.cap v.elem h.elem_pos wraps)),
        )
        | no doubles ↦
            let small : v.cap ≤ u32_max = grind (arith, h.bytes, h.elem_pos) in
            let twice : mul32 v.cap 2 ≡ v.cap * 2 = omega arith in
            let e : make_room_for_one given v ≡ vector_reserve given v (mul32 v.cap 2) =
              unfold make_room_for_one in ground arith in
            let e2 = e ∙ ap (vector_reserve given v) twice in
            let r =
              reserve-refusal v (v.cap * 2) h.elem_pos (ground arith)
                (ap (λ (p : Bool × Vector A). p.0) (sym e2) ∙ failed) in
            (omega (arith, h.within), rw some_cap r)
      ]
    ]
  ]
