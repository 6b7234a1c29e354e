-- ===== src/Vector/Access.antt =====
-- Reads, pops and removals of a vector on the list of its elements.
use mathlib.Core.List.{map-append}
use ceres_standard_library.Prelude.{
  ℕ, ◌+◌, ◌-◌, ◌<◌, ◌≤◌, ◌≡◌, arith, none, some, List, ◌++◌, append-nil, ◌⊎◌, inl, inr, map, length,
  length-append, length-take, length-drop, take, drop, get_elem?, ◌∙◌, ap, ap₂, sym, dec_lt, le→leb,
  lt→leb_false, lt→ltb, le→ltb_false,
}
use ceres_standard_library.Prelude.Cells.{
  Cells, cell, join, memmove, length-memmove, take-append_left, take-append, take-take, take-map,
  drop-map, take-drop, take_all, drop_all, get_elem?-take, get_elem?-none, cell-map,
}
use ceres_standard_library.Vector.{Vector, vector_at, vector_pop, vector_remove}
use ceres_standard_library.Vector.Represents.{Holds}

module _ {A : Type 0} where
  at_inside : (v : Vector A) (i : ℕ) → i < v.len → vector_at v i ≡ cell v.cells i
  unfolding vector_at
  at_inside v i h = rw (lt→leb_false i v.len h)

  at_outside : (v : Vector A) (i : ℕ) → v.len ≤ i → vector_at v i ≡ none
  unfolding vector_at
  at_outside v i h = rw (le→leb v.len i h)

  -- `vector_at` reads the element, and NULL from the length on.
  pub vector_at_lem :
      {v : Vector A} {xs : List A} (i : ℕ) → Holds v xs → vector_at v i ≡ get_elem? xs i
  vector_at_lem {v} {xs} i h = elim (dec_lt i v.len) [
    | yes inside ↦
        at_inside v i inside
        ∙ ap join (
            sym (get_elem?-take v.len i v.cells inside)
            ∙ ap (λ (c : Cells A). get_elem? c i) h.prefix)
        ∙ cell-map xs i
    | no outside ↦ at_outside v i (omega arith) ∙ sym (get_elem?-none xs i (omega (arith, h.size)))
  ]

  -- `vector_pop` drops the last element.
  pub vector_pop_lem :
      {v : Vector A} {xs : List A} → Holds v xs → Holds (vector_pop v) (take (v.len - 1) xs)
  vector_pop_lem {v} {xs} h = elim (dec_lt 0 v.len) [
    | yes pos ↦
        let e : vector_pop v ≡ record v { len = v.len - 1 } =
          unfold vector_pop in rw (lt→ltb 0 v.len pos) in
        rw e (record {
          size = omega (arith, length-take (v.len - 1) xs, h.size);
          within = omega (arith, h.within);
          object = h.object;
          elem_pos = h.elem_pos;
          bytes = h.bytes;
          prefix =
              sym (take-take (v.len - 1) v.len v.cells (omega arith))
              ∙ ap (take (v.len - 1)) h.prefix
              ∙ take-map (v.len - 1) some xs;
        })
    | no empty ↦
        let e : vector_pop v ≡ v = unfold vector_pop in rw (le→ltb_false v.len 0 (omega arith)) in
        rw (e, take_all (v.len - 1) xs (omega (arith, h.size))) h
  ]

  -- what `vector_remove` leaves for an index inside
  abbrev removed : Vector A → ℕ → Vector A
  removed v i = record v { cells = memmove v.cells i (i + 1) (v.len - i - 1); len = v.len - 1 }

  removed-prefix :
      (v : Vector A) (xs : List A) (i : ℕ)
      → Holds v xs
      → i < v.len
      → take (v.len - 1) (memmove v.cells i (i + 1) (v.len - i - 1))
        ≡ map some (take i xs ++ drop (i + 1) xs)
  removed-prefix v xs i h inside =
      let c = v.cells in
      let n : ℕ = v.len - i - 1 in
      let tail : Cells A = drop (i + n) c in
      let moved : Cells A = take n (drop (i + 1) c) in
      let front : length (take i c) ≡ i = omega (arith, length-take i c, h.object, h.within) in
      let back : length moved ≡ n =
        omega (arith, length-take n (drop (i + 1) c), length-drop (i + 1) c, h.object, h.within) in
      let left : v.len - 1 - length (take i c) ≡ n = omega arith in
      take-append (v.len - 1) (take i c) (moved ++ tail) (omega arith)
      ∙ ap (λ (j : ℕ). take i c ++ take j (moved ++ tail)) left
      ∙ ap₂ ◌++◌
          (sym (take-take i v.len c (omega arith)) ∙ ap (take i) h.prefix ∙ take-map i some xs)
          (take-append_left n moved tail (omega arith)
            ∙ take-take n n (drop (i + 1) c) (omega arith)
            ∙ take-drop n (i + 1) v.len c (omega arith)
            ∙ ap (drop (i + 1)) h.prefix
            ∙ drop-map (i + 1) some xs)
      ∙ sym (map-append some (take i xs) (drop (i + 1) xs))

  pub vector_remove-Holds :
      {v : Vector A} {xs : List A} (i : ℕ)
      → Holds v xs
      → Holds (vector_remove v i) (take i xs ++ drop (i + 1) xs)
  vector_remove-Holds {v} {xs} i h = elim (dec_lt i v.len) [
    | yes inside ↦
        let e : vector_remove v i ≡ removed v i =
          unfold vector_remove in rw (lt→leb_false i v.len inside) in
        rw e (record {
          size = omega (
            arith,
            length-append (take i xs) (drop (i + 1) xs),
            length-take i xs,
            length-drop (i + 1) xs,
            h.size,
          );
          within = omega (arith, h.within);
          object =
              length-memmove v.cells i (i + 1) (v.len - i - 1) (omega (arith, h.object, h.within))
                (omega (arith, h.object, h.within))
              ∙ h.object;
          elem_pos = h.elem_pos;
          bytes = h.bytes;
          prefix = removed-prefix v xs i h inside;
        })
    | no outside ↦
        let e : vector_remove v i ≡ v = unfold vector_remove in rw (le→leb v.len i (omega arith)) in
        rw
          (
            e,
            take_all i xs (omega (arith, h.size)),
            drop_all (i + 1) xs (omega (arith, h.size)),
            append-nil,
          )
          h
  ]

  -- `vector_remove` takes out the element at an index inside and leaves the capacity and the element
  -- size, and an index from the length on leaves the vector as it is, in every field.
  pub vector_remove_lem :
      {v : Vector A} {xs : List A} (i : ℕ)
      → Holds v xs
      → ((i < v.len)
          × Holds (vector_remove v i) (take i xs ++ drop (i + 1) xs)
          × ((vector_remove v i).cap ≡ v.cap)
          × ((vector_remove v i).elem ≡ v.elem))
        ⊎ ((v.len ≤ i) × (vector_remove v i ≡ v))
  vector_remove_lem {v} i h = elim (dec_lt i v.len) [
    | yes inside ↦
        let e : vector_remove v i ≡ removed v i =
          unfold vector_remove in rw (lt→leb_false i v.len inside) in
        inl (
          inside,
          vector_remove-Holds i h,
          ap (λ (u : Vector A). u.cap) e,
          ap (λ (u : Vector A). u.elem) e,
        )
    | no outside ↦
        let le : v.len ≤ i = omega arith in
        inr (le, (unfold vector_remove in rw (le→leb v.len i le)))
  ]
