-- ===== src/Vector/Refine.antt =====
-- The operations of a vector on the list of its elements.
use mathlib.Core.List.{map-append}
use ceres_standard_library.Prelude.{
  ap₂, lt→ltb, le→ltb_false, ℕ, suc, ◌+◌, ◌-◌, ◌<◌, ◌≤◌, ◌≡◌, ◌⊎◌, inl, inr, refl, arith, some,
  List, [], ◌∷◌, ◌++◌, Bool, true, false, map, length, length-append, length-set, length-take,
  length-drop, take, drop, set, ◌∙◌, ap, sym, add32, u32_max, dec_lt, Bool-cases,
}
use ceres_standard_library.Prelude.Cells.{
  Cells, memmove, take-append_left, take-set, take-take, take-map, drop-map, take-drop,
  insert_cells, length-memmove,
}
use ceres_standard_library.Vector.{
  Vector, vector_push_copy, vector_insert, make_room_for_one, append_at_len,
}
use ceres_standard_library.Prelude.Growth.{CannotGrow}
use ceres_standard_library.Vector.Represents.{Holds, make_room-Holds}
use ceres_standard_library.Vector.Room.{make_room-CannotGrow}

module _ {A : Type 0} where
  cap_fits : {v : Vector A} {xs : List A} → Holds v xs → v.cap ≤ u32_max
  cap_fits h = grind (arith, h.bytes, h.elem_pos)

  append-Holds :
      {v : Vector A} {xs : List A} (x : A)
      → Holds v xs
      → v.len < v.cap
      → Holds (append_at_len v x) (xs ++ x ∷ [])
  append-Holds {v} {xs} x h room =
      let grows : add32 v.len 1 ≡ suc v.len = omega (arith, cap_fits h) in
      record {
        size = omega (arith, length-append xs (x ∷ []), h.size);
        within = omega arith;
        object = length-set v.cells v.len (some x) ∙ h.object;
        elem_pos = h.elem_pos;
        bytes = h.bytes;
        prefix =
            ap (λ (n : ℕ). take n (set v.cells v.len (some x))) grows
            ∙ take-set v.len v.cells (some x) (omega (arith, h.object))
            ∙ ap (λ (l : Cells A). l ++ some x ∷ []) h.prefix
            ∙ sym (map-append some xs (x ∷ []));
      }

  module _ (given : ℕ → Bool) where
    -- A push appends the element. It fails only in a full vector whose doubled object is too large or
    -- is refused, and then leaves the elements as they were.
    pub vector_push_copy_lem :
        {v : Vector A} {xs : List A} (x : A)
        → Holds v xs
        → (((vector_push_copy given v x).0 ≡ true)
            × Holds (vector_push_copy given v x).1 (xs ++ x ∷ []))
          ⊎ (((vector_push_copy given v x).0 ≡ false)
              × Holds (vector_push_copy given v x).1 xs
              × CannotGrow given v.len v.cap v.elem)
    unfolding vector_push_copy
    vector_push_copy_lem {v} x h =
        let (holds, room) = make_room-Holds given h in
        elim (Bool-cases (make_room_for_one given v).0) [
          | inl ok ↦ rw ok (inl (refl, append-Holds x holds (room ok)))
          | inr failed ↦ rw failed (inr (refl, holds, make_room-CannotGrow given h failed))
        ]

module _ {A : Type 0} where
  -- what `vector_insert` leaves when there is room
  abbrev inserted : Vector A → ℕ → A → Vector A
  inserted v i x = record v {
    cells = set (memmove v.cells (i + 1) i (v.len - i)) i (some x);
    len = add32 v.len 1;
  }

  inserted-prefix :
      (v : Vector A) (xs : List A) (i : ℕ) (x : A)
      → Holds v xs
      → v.len < v.cap
      → i ≤ v.len
      → take (suc v.len) (set (memmove v.cells (i + 1) i (v.len - i)) i (some x))
        ≡ map some (take i xs ++ x ∷ drop i xs)
  inserted-prefix v xs i x h room le =
      let c = v.cells in
      let n : ℕ = v.len - i in
      let moved : Cells A = take n (drop i c) ++ drop (i + 1 + n) c in
      let first : i + 1 ≡ suc i = omega arith in
      let all : n ≤ length (take n (drop i c)) =
        omega (arith, length-take n (drop i c), length-drop i c, h.object) in
      ap (λ (j : ℕ). take (suc v.len) (set (take j c ++ moved) i (some x))) first
      ∙ insert_cells i n (suc v.len) c moved (some x) (omega (arith, h.object)) (omega arith)
      ∙ ap₂ (λ (p q : Cells A). p ++ some x ∷ q)
          (sym (take-take i v.len c le) ∙ ap (take i) h.prefix ∙ take-map i some xs)
          (take-append_left n (take n (drop i c)) (drop (i + 1 + n) c) all
            ∙ take-take n n (drop i c) (omega arith)
            ∙ take-drop n i v.len c (omega arith)
            ∙ ap (drop i) h.prefix
            ∙ drop-map i some xs)
      ∙ sym (map-append some (take i xs) (x ∷ drop i xs))

  inserted-Holds :
      {v : Vector A} {xs : List A} (i : ℕ) (x : A)
      → Holds v xs
      → v.len < v.cap
      → i ≤ v.len
      → Holds (inserted v i x) (take i xs ++ x ∷ drop i xs)
  inserted-Holds {v} {xs} i x h room le =
      let grows : add32 v.len 1 ≡ suc v.len = omega (arith, cap_fits h) in
      record {
        size = omega (
          arith,
          length-append (take i xs) (x ∷ drop i xs),
          length-take i xs,
          length-drop i xs,
          h.size,
        );
        within = omega arith;
        object =
            length-set (memmove v.cells (i + 1) i (v.len - i)) i (some x)
            ∙ length-memmove v.cells (i + 1) i (v.len - i) (omega (arith, h.object))
                (omega (arith, h.object))
            ∙ h.object;
        elem_pos = h.elem_pos;
        bytes = h.bytes;
        prefix =
            ap (λ (n : ℕ). take n (inserted v i x).cells) grows
            ∙ inserted-prefix v xs i x h room le;
      }

  module _ (given : ℕ → Bool) where
    -- An insertion at `i` up to the length puts the element before the one at `i`. It fails only past
    -- the length, or in a full vector whose doubled object is too large or is refused, and then leaves
    -- the elements as they were.
    pub vector_insert_lem :
        {v : Vector A} {xs : List A} (i : ℕ) (x : A)
        → Holds v xs
        → ((i ≤ v.len)
            × ((vector_insert given v i x).0 ≡ true)
            × Holds (vector_insert given v i x).1 (take i xs ++ x ∷ drop i xs))
          ⊎ (((vector_insert given v i x).0 ≡ false)
              × Holds (vector_insert given v i x).1 xs
              × ((v.len < i) ⊎ CannotGrow given v.len v.cap v.elem))
    vector_insert_lem {v} i x h = elim (dec_lt v.len i) [
      | yes past ↦
          let e : vector_insert given v i x ≡ (false, v) =
            unfold vector_insert in rw (lt→ltb v.len i past) in
          rw e (inr (refl, h, inl past))
      | no within ↦
          let (holds, room) = make_room-Holds given h in
          let r = make_room_for_one given v in
          elim (Bool-cases r.0) [
            | inl ok ↦
                let e : vector_insert given v i x ≡ (true, inserted r.1 i x) =
                  unfold vector_insert in rw (le→ltb_false i v.len (omega arith), ok) in
                rw e (
                  inl (
                    omega arith,
                    refl,
                    inserted-Holds i x holds (room ok) (omega (arith, holds.size, h.size)),
                  ))
            | inr failed ↦
                let e : vector_insert given v i x ≡ (false, r.1) =
                  unfold vector_insert in rw (le→ltb_false i v.len (omega arith), failed) in
                rw e (inr (refl, holds, inr (make_room-CannotGrow given h failed)))
          ]
    ]
