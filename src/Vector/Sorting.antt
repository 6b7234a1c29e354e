-- ===== src/Vector/Sorting.antt =====
-- vector_sort_stable: the stable sort on the elements of a growable array, whose object may be larger.
use ceres_standard_library.Prelude.{
  ℕ, ◌+◌, ◌*◌, ◌^◌, ◌≤◌, ◌≡◌, refl, sym, ap, ap₂, ◌∙◌, arith, ◌⊎◌, inl, inr, Bool, true, false,
  Option, some, List, ◌++◌, map, length, length-append, length-map, length-drop, take, drop,
  take-append-drop,
}
use ceres_standard_library.Prelude.Int.{ℤ}
use ceres_standard_library.Prelude.Cells.{Cells, take-append_left, take_all, drop_front}
use ceres_standard_library.Prelude.Store.{◌>>=◌}
use ceres_standard_library.Sort.{sort_stable}
use ceres_standard_library.Sort.Order.{IsOrder}
use ceres_standard_library.Sort.Refine.{IsStableSort, sort_stable_lem}
use ceres_standard_library.Vector.{Vector}
use ceres_standard_library.Vector.Represents.{Holds}

module _ {A : Type 0} (cmp : A → A → ℤ) (given : ℕ → Bool) where
  pub vector_sort_stable : Vector A → Option (Bool × Vector A)
  vector_sort_stable v = do
    (done, cells) ← sort_stable cmp given (take v.len v.cells) v.len v.elem
    some (done, record v { cells = cells ++ drop v.len v.cells })

  with_elements : Vector A → List A → Vector A
  with_elements v ys = record v { cells = map some ys ++ drop v.len v.cells }

  with_elements-Holds :
      {v : Vector A} {xs : List A} (ys : List A)
      → Holds v xs
      → length ys ≡ length xs
      → Holds (with_elements v ys) ys
  unfolding with_elements
  with_elements-Holds {v} {xs} ys h e = record {
    size = omega (arith, h.size);
    within = h.within;
    object = omega (
      arith,
      length-append (map some ys) (drop v.len v.cells),
      length-map ys some,
      length-drop v.len v.cells,
      h.object,
      h.size,
      h.within,
    );
    elem_pos = h.elem_pos;
    bytes = h.bytes;
    prefix =
        take-append_left v.len (map some ys) (drop v.len v.cells)
          (omega (arith, length-map ys some, h.size))
        ∙ take_all v.len (map some ys) (omega (arith, length-map ys some, h.size));
  }

  -- Where the comparison is an order, on a vector that holds `xs`, whose buffer for the sort, if
  -- given, is apart from the elements, vector_sort_stable ends. It fails only on two elements or more
  -- whose buffer does not fit the address space or was refused, and the vector is as it was; or it
  -- succeeds, and the vector holds `xs` sorted, elements that compare equal in the order they had,
  -- with the capacity, the element size and the cells behind the elements as they were.
  pub vector_sort_stable_lem :
      {v : Vector A} {xs : List A}
      → IsOrder cmp
      → Holds v xs
      → (given (v.len * v.elem + v.elem) ≡ true
          → v.len * v.elem + (v.len * v.elem + v.elem) ≤ 2 ^ 32)
      → ((vector_sort_stable v ≡ some (false, v))
          × (2 ≤ v.len)
          × ((2 ^ 32 ≤ v.len * v.elem + v.elem) ⊎ (given (v.len * v.elem + v.elem) ≡ false)))
        ⊎ ((v' : Vector A) × (ys : List A) × (vector_sort_stable v ≡ some (true, v'))
            × Holds v' ys
            × IsStableSort cmp xs ys
            × (drop v.len v'.cells ≡ drop v.len v.cells)
            × (v'.cap ≡ v.cap)
            × (v'.elem ≡ v.elem))
  unfolding vector_sort_stable with_elements
  vector_sort_stable_lem {v} {xs} o h apart =
      let n : length xs ≡ v.len = h.size in
      let shape : sort_stable cmp given (take v.len v.cells) v.len v.elem
          ≡ sort_stable cmp given (map some xs) (length xs) v.elem =
        ap₂ (λ (c : Cells A) (k : ℕ). sort_stable cmp given c k v.elem) h.prefix (sym n) in
      elim (sort_stable_lem cmp o given xs v.elem h.elem_pos (rw n apart)) [
        | inl (failed, long, why) ↦
            let whole : map some xs ++ drop v.len v.cells ≡ v.cells =
              ap (λ (c : Cells A). c ++ drop v.len v.cells) (sym h.prefix)
              ∙ take-append-drop v.len v.cells in
            inl (
              rw (shape, failed) (ap (λ (c : Cells A). some (false, record v { cells = c })) whole),
              rw (sym n) long,
              rw (sym n) why,
            )
        | inr (ys, done, good) ↦
            let sorted : length (map some ys) ≡ v.len = length-map ys some ∙ good.2 ∙ n in
            inr (
              with_elements v ys,
              ys,
              rw (shape, done) refl,
              with_elements-Holds ys h good.2,
              good,
              ap (λ (k : ℕ). drop k (map some ys ++ drop v.len v.cells)) (sym sorted)
                  ∙ drop_front (map some ys) (drop v.len v.cells),
              refl,
              refl,
            )
      ]
