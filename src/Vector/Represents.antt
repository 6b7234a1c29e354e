-- ===== src/Vector/Represents.antt =====
-- What a vector holds, and that making room keeps it.
use native.Mathlib.Nat.{le-div_iff_mul-le}
use ceres_standard_library.Prelude.{
  ℕ, ◌-◌, ◌*◌, ◌/◌, ◌<◌, ◌≤◌, ◌≡◌, ◌⊎◌, inl, inr, arith, Option, none, some, List, ◌++◌, Bool, true,
  false, map, length, length-append, length-replicate, take, ◌==◌, ◌∙◌, mul32, u32_max, dec_lt,
  Bool-cases,
}
use ceres_standard_library.Prelude.Cells.{blank, take-append_left}
use ceres_standard_library.Vector.{Vector, vector_reserve, make_room_for_one}

-- The vector is well formed and its first `len` cells are exactly the elements `xs`.
pub record Holds {ℓ} {A : Type ℓ} (v : Vector A) (xs : List A) : Type ℓ where
  pub size : length xs ≡ v.len
  pub within : v.len ≤ v.cap
  pub object : length v.cells ≡ v.cap
  pub elem_pos : 0 < v.elem
  pub bytes : v.cap * v.elem ≤ u32_max
  pub prefix : take v.len v.cells ≡ map some xs

module _ {A : Type 0} (given : ℕ → Bool) where
  grown : Vector A → ℕ → Vector A
  grown v cap = record v { cells = v.cells ++ blank (cap - length v.cells); cap = cap }

  grown-Holds :
      {v : Vector A} {xs : List A} (cap : ℕ)
      → Holds v xs
      → v.cap ≤ cap
      → cap ≤ u32_max / v.elem
      → Holds (grown v cap) xs
  unfolding grown
  grown-Holds {v} {xs} cap h more fits = record {
    size = h.size;
    within = omega (arith, h.within);
    object = omega (
      arith,
      length-append v.cells (blank (cap - length v.cells)),
      length-replicate {A = Option A} (cap - length v.cells) none,
      h.object,
    );
    elem_pos = h.elem_pos;
    bytes = (le-div_iff_mul-le h.elem_pos).0 fits;
    prefix =
        take-append_left v.len v.cells (blank (cap - length v.cells))
          (omega (arith, h.within, h.object))
        ∙ h.prefix;
  }

  -- The three ways out of `vector_reserve`.
  reserve-cases :
      (v : Vector A) (cap : ℕ)
      → ((cap ≤ v.cap) × (vector_reserve given v cap ≡ (true, v)))
        ⊎ (vector_reserve given v cap ≡ (false, v))
        ⊎ ((v.cap < cap)
            × (cap ≤ u32_max / v.elem)
            × (vector_reserve given v cap ≡ (true, grown v cap)))
  unfolding vector_reserve grown
  reserve-cases v cap = ground arith

  -- `vector_reserve` keeps the elements, and reports success only with that capacity at hand.
  pub vector_reserve-Holds :
      {v : Vector A} {xs : List A} (cap : ℕ)
      → Holds v xs
      → Holds (vector_reserve given v cap).1 xs
        × ((vector_reserve given v cap).0 ≡ true → cap ≤ (vector_reserve given v cap).1.cap)
  vector_reserve-Holds {v} cap h = elim (reserve-cases v cap) [
    | inl (le, e) ↦ rw e (h, λ _. le)
    | inr (inl e) ↦ rw e (h, λ bad. cc)
    | inr (inr (more, fits, e)) ↦
        rw e (grown-Holds cap h (omega arith) fits, λ _. (unfold grown in omega arith))
  ]

  room-cases :
      (v : Vector A)
      → v.cap ≤ u32_max
      → ((v.len < v.cap) × (make_room_for_one given v ≡ (true, v)))
        ⊎ (make_room_for_one given v ≡ (false, v))
        ⊎ ((want : ℕ) × (v.cap < want) × (make_room_for_one given v ≡ vector_reserve given v want))
  room-cases v small = elim (dec_lt v.len v.cap) [
    | yes room ↦ inl (room, (unfold make_room_for_one in ground arith))
    | no full ↦ elim (Bool-cases (v.cap == 0)) [
      | inl none_yet ↦ inr (inr (4, ground arith, (unfold make_room_for_one in ground arith)))
      | inr some_cap ↦ elim (dec_lt (mul32 v.cap 2) v.cap) [
        | yes wraps ↦ inr (inl (unfold make_room_for_one in ground arith))
        | no doubles ↦
            inr (inr (mul32 v.cap 2, ground arith, (unfold make_room_for_one in ground arith)))
      ]
    ]
  ]

  cap-le : {v : Vector A} {xs : List A} → Holds v xs → v.cap ≤ u32_max
  cap-le {v} h = grind (arith, h.bytes, h.elem_pos)

  -- Making room keeps the elements, and reports success only with a free cell behind them.
  pub make_room-Holds :
      {v : Vector A} {xs : List A}
      → Holds v xs
      → Holds (make_room_for_one given v).1 xs
        × ((make_room_for_one given v).0 ≡ true
            → (make_room_for_one given v).1.len < (make_room_for_one given v).1.cap)
  make_room-Holds {v} h = elim (room-cases v (cap-le h)) [
    | inl (room, e) ↦ rw e (h, λ _. room)
    | inr (inl e) ↦ rw e (h, λ bad. cc)
    | inr (inr (want, more, e)) ↦
        let (holds, enough) = vector_reserve-Holds want h in
        rw e (holds, λ ok. omega (arith, enough ok, holds.size, h.size, h.within))
  ]
