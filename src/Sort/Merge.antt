-- ===== src/Sort/Merge.antt =====
-- merge joins two sorted runs into one, where equal elements of the left run come first.
use mathlib.Core.Path.{subst}
use ceres_standard_library.Prelude.{
  ℕ, zero, suc, ◌+◌, ◌-◌, ◌≤◌, ◌<◌, ◌≡◌, sym, ap, ◌∙◌, arith, ◌⊎◌, inl, inr, true, false, Option,
  some, List, [], ◌∷◌, Bool-cases, length, length-set, set, ltb, lt→ltb, le→ltb_false, ◌&&◌,
}
use ceres_standard_library.Prelude.Int.{ℤ}
use ceres_standard_library.Prelude.Cells.{Cells, cell}
use ceres_standard_library.Prelude.Store.{
  ◌>>=◌, put_cell_lem, Part, Wrote, Wrote-none, Wrote-store, memcpy-Wrote,
}
use ceres_standard_library.Sort.{exceeds, merge_loop, merge_rest}
use ceres_standard_library.Sort.Order.{IsOrder}
use ceres_standard_library.Sort.Merged.{merged, merged_high, merged_low}

module _ {A : Type 0} (cmp : A → A → ℤ) (o : IsOrder cmp) where
  loop_stops :
      (fuel : ℕ) (dst src : Cells A) (a mid b hi out : ℕ)
      → ltb a mid && ltb b hi ≡ false
      → merge_loop cmp (suc fuel) dst src a mid b hi out ≡ some (dst, a, b, out)
  unfolding merge_loop
  loop_stops fuel dst src a mid b hi out h = rw (merge_loop, h)

  -- the rest behind the loop, when one of the runs is used up
  rest-Wrote :
      (xs : List A) (dst src : Cells A) (a mid b hi out : ℕ)
      → ((a + length xs ≡ mid) × (hi ≤ b) × Part src a xs)
        ⊎ ((mid ≤ a) × (b + length xs ≡ hi) × Part src b xs)
      → out + length xs ≤ length dst
      → (dst' : Cells A) × (merge_rest src mid hi (dst, a, b, out) ≡ some dst')
        × Wrote dst out xs dst'
  unfolding merge_rest
  rest-Wrote [] dst src a mid b hi out (inl (e, f, p)) fits = (
    dst,
    rw (le→ltb_false mid a (omega arith), le→ltb_false hi b (omega arith)),
    Wrote-none dst out,
  )
  rest-Wrote [] dst src a mid b hi out (inr (e, f, p)) fits = (
    dst,
    rw (le→ltb_false mid a (omega arith), le→ltb_false hi b (omega arith)),
    Wrote-none dst out,
  )
  rest-Wrote (x ∷ xs) dst src a mid b hi out (inl (e, f, p)) fits =
      let (dst', done, w) = memcpy-Wrote (x ∷ xs) dst out src a p fits in
      let count : mid - a ≡ suc (length xs) = omega arith in
      (dst', rw (lt→ltb a mid (omega arith), count) done, w)
  rest-Wrote (x ∷ xs) dst src a mid b hi out (inr (e, f, p)) fits =
      let (dst', done, w) = memcpy-Wrote (x ∷ xs) dst out src b p fits in
      let count : hi - b ≡ suc (length xs) = omega arith in
      (dst', rw (le→ltb_false mid a e, lt→ltb b hi (omega arith), count) done, w)

  step_high :
      (fuel : ℕ) (dst src : Cells A) (a mid b hi out : ℕ) (x y : A)
      → a < mid
      → b < hi
      → cell src a ≡ some x
      → cell src b ≡ some y
      → exceeds cmp x y ≡ true
      → out < length dst
      → merge_loop cmp (suc fuel) dst src a mid b hi out
        ≡ merge_loop cmp fuel (set dst out (some y)) src a mid (suc b) hi (suc out)
  unfolding merge_loop
  step_high fuel dst src a mid b hi out x y h k ex ey high room = rw (
    merge_loop,
    lt→ltb a mid h,
    lt→ltb b hi k,
    ex,
    ◌>>=◌,
    ey,
    ◌>>=◌,
    high,
    put_cell_lem dst out y room,
  )

  step_low :
      (fuel : ℕ) (dst src : Cells A) (a mid b hi out : ℕ) (x y : A)
      → a < mid
      → b < hi
      → cell src a ≡ some x
      → cell src b ≡ some y
      → exceeds cmp x y ≡ false
      → out < length dst
      → merge_loop cmp (suc fuel) dst src a mid b hi out
        ≡ merge_loop cmp fuel (set dst out (some x)) src (suc a) mid b hi (suc out)
  unfolding merge_loop
  step_low fuel dst src a mid b hi out x y h k ex ey low room = rw (
    merge_loop,
    lt→ltb a mid h,
    lt→ltb b hi k,
    ex,
    ◌>>=◌,
    ey,
    ◌>>=◌,
    low,
    put_cell_lem dst out x room,
  )

  -- what the loop and the copy behind it leave
  pub loop-Wrote :
      (fuel : ℕ) (xs ys : List A) (dst src : Cells A) (a mid b hi out : ℕ)
      → length xs + length ys < fuel
      → a + length xs ≡ mid
      → b + length ys ≡ hi
      → Part src a xs
      → Part src b ys
      → out + length xs + length ys ≤ length dst
      → (dst' : Cells A) × ((merge_loop cmp fuel dst src a mid b hi out >>= merge_rest src mid hi)
          ≡ some dst')
        × Wrote dst out (merged cmp xs ys) dst'
  loop-Wrote zero xs ys dst src a mid b hi out more e f p q fits = absurd (omega arith)
  loop-Wrote (suc fuel) [] ys dst src a mid b hi out more e f p q fits =
      let (dst', done, w) =
        rest-Wrote ys dst src a mid b hi out (inr (omega arith, f, q)) (omega arith) in
      (
        dst',
        ap (λ (r : Option (Cells A × ℕ × ℕ × ℕ)). r >>= merge_rest src mid hi)
              (loop_stops fuel dst src a mid b hi out (ground arith))
            ∙ done,
        unfold merged in w,
      )
  loop-Wrote (suc fuel) (x ∷ xs) [] dst src a mid b hi out more e f p q fits =
      let (dst', done, w) =
        rest-Wrote (x ∷ xs) dst src a mid b hi out (inl (e, omega arith, p)) (omega arith) in
      (
        dst',
        ap (λ (r : Option (Cells A × ℕ × ℕ × ℕ)). r >>= merge_rest src mid hi)
              (loop_stops fuel dst src a mid b hi out (ground arith))
            ∙ done,
        unfold merged in w,
      )
  loop-Wrote (suc fuel) (x ∷ xs) (y ∷ ys) dst src a mid b hi out more e f (here, p) (here', q)
        fits =
      elim (Bool-cases (exceeds cmp x y)) [
        | inl high ↦
            let (dst', done, w) =
              loop-Wrote fuel (x ∷ xs) ys (set dst out (some y)) src a mid (suc b) hi (suc out)
                (omega arith) e (omega arith) (here, p) q
                (omega (arith, length-set dst out (some y))) in
            (
              dst',
              ap (λ (r : Option (Cells A × ℕ × ℕ × ℕ)). r >>= merge_rest src mid hi)
                    (step_high fuel dst src a mid b hi out x y (omega arith) (omega arith) here
                      here' high (omega arith))
                  ∙ done,
              subst (λ l. Wrote dst out l dst') (sym (merged_high cmp x y xs ys high))
                  (Wrote-store (omega arith) w),
            )
        | inr low ↦
            let (dst', done, w) =
              loop-Wrote fuel xs (y ∷ ys) (set dst out (some x)) src (suc a) mid b hi (suc out)
                (omega arith) (omega arith) f p (here', q)
                (omega (arith, length-set dst out (some x))) in
            (
              dst',
              ap (λ (r : Option (Cells A × ℕ × ℕ × ℕ)). r >>= merge_rest src mid hi)
                    (step_low fuel dst src a mid b hi out x y (omega arith) (omega arith) here here'
                      low (omega arith))
                  ∙ done,
              subst (λ l. Wrote dst out l dst') (sym (merged_low cmp x y xs ys low))
                  (Wrote-store (omega arith) w),
            )
      ]
