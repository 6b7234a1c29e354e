-- ===== src/Sort/Refine.antt =====
-- sort_stable puts an array in order and keeps the order of equal elements.
use native.Mathlib.Nat.{le-div_iff_mul-le}
use ceres_standard_library.Prelude.{
  ℕ, zero, suc, ◌+◌, ◌-◌, ◌*◌, ◌/◌, ◌^◌, ◌≤◌, ◌<◌, ◌≡◌, refl, sym, ap, ◌∙◌, arith, ◌⊎◌, inl, inr,
  Bool, true, false, none, some, List, [], ◌∷◌, map, if◌then◌else◌, Bool-cases, dec_le, length,
  length-replicate, ltb, lt→ltb, le→ltb_false, u32_max, ◌==◌, ◌||◌,
}
use ceres_standard_library.Prelude.Int.{ℤ}
use ceres_standard_library.Prelude.Cells.{Cells, blank}
use ceres_standard_library.Prelude.Store.{◌>>=◌, memcpy, memcpy-Wrote, map-some-Part, Part-map-some}
use ceres_standard_library.Sort.{run_length, runs_from, passes, sort_with_buffer, sort_stable}
use ceres_standard_library.Sort.Order.{IsOrder, Sorted, Keeps, Keeps-trans}
use ceres_standard_library.Sort.Runs.{Arranged, runs_from-Arranged}
use ceres_standard_library.Sort.Passes.{Finished, passes-Finished}

too_big : (n size : ℕ) → 0 < size → u32_max / size - 1 < n → 2 ^ 32 ≤ n * size + size
too_big n size h big = elim (dec_le (2 ^ 32) (suc n * size)) [
  | yes large ↦ grind arith
  | no small ↦
      let fits : suc n ≤ u32_max / size = (le-div_iff_mul-le h).1 (omega arith) in
      absurd (omega arith)
]

half : (n size : ℕ) → 0 < size → n * size + (n * size + size) ≤ 2 ^ 32 → n < 2 ^ 31
half n zero h fits = absurd (omega arith)
half n (suc size) h fits = grind arith

module _ {A : Type 0} (cmp : A → A → ℤ) where
  -- the elements of `xs` in order, those that compare equal in the order that they have in `xs`
  abbrev pub IsStableSort : List A → List A → Type 0
  IsStableSort xs ys = Sorted cmp ys × Keeps cmp xs ys × (length ys ≡ length xs)

  short-Sorted : (xs : List A) → length xs < 2 → Sorted cmp xs
  short-Sorted [] h = tt
  short-Sorted (x ∷ []) h = (tt, tt)
  short-Sorted (x ∷ y ∷ xs) h = absurd (omega arith)

module _ {A : Type 0} (cmp : A → A → ℤ) (o : IsOrder cmp) where
  -- the copy back of what the passes left in the buffer
  copied_back :
      (flag : Bool) (dst : Cells A) (order : List A) (n : ℕ)
      → length order ≡ n
      → length dst ≡ n
      → (if flag then some (map some order) else memcpy n dst 0 (map some order) 0)
        ≡ some (map some order)
  copied_back true dst order n e room = refl
  copied_back false dst order n e room =
      let (dst', done, w) =
        memcpy-Wrote order dst 0 (map some order) 0 (map-some-Part order) (omega arith) in
      ap (λ (k : ℕ). memcpy k dst 0 (map some order) 0) (sym e)
      ∙ done
      ∙ ap some (Part-map-some dst' order w.placed (omega (arith, w.size)))

  sorts :
      (xs : List A) (n : ℕ)
      → length xs ≡ n
      → n < 2 ^ 31
      → (ys : List A) × (sort_with_buffer cmp (map some xs) n ≡ some (true, map some ys))
        × IsStableSort cmp xs ys
  unfolding sort_with_buffer run_length
  sorts xs n e small =
      let first : Arranged cmp 8 [] xs (runs_from cmp (suc n) 0 n (map some xs)) =
        runs_from-Arranged cmp o (suc n) 0 n [] xs (omega arith) small (omega arith) (omega arith)
          (λ h. refl) in
      let rest : Finished cmp o first.order
          (passes cmp (suc n) 8 n true (map some first.order) (blank n)) =
        passes-Finished cmp o (suc n) 8 n true first.order (blank n) (omega arith) (omega arith)
          (omega arith) small (omega (arith, first.size)) (length-replicate n none) first.runs in
      (
        rest.order,
        rw (
          first.is,
          ◌>>=◌,
          rest.is,
          ◌>>=◌,
          copied_back rest.flag rest.dst' rest.order n (omega (arith, rest.size, first.size))
              (omega (arith, rest.room, first.size)),
        ),
        (
          rest.sorted,
          Keeps-trans cmp xs first.order rest.order first.keeps rest.keeps,
          rest.size ∙ first.size,
        ),
      )

  -- sort_stable either reports failure, only on an array of two elements or more whose buffer does
  -- not fit the address space or was refused, and then the array is as it was; or it reports success, and
  -- the array holds its elements in order, elements that compare equal in the order they had. The
  -- buffer, if given, is apart from the array.
  pub sort_stable_lem :
      (given : ℕ → Bool) (xs : List A) (size : ℕ)
      → 0 < size
      → (given (length xs * size + size) ≡ true
          → length xs * size + (length xs * size + size) ≤ 2 ^ 32)
      → ((sort_stable cmp given (map some xs) (length xs) size ≡ some (false, map some xs))
          × (2 ≤ length xs)
          × ((2 ^ 32 ≤ length xs * size + size) ⊎ (given (length xs * size + size) ≡ false)))
        ⊎ ((ys : List A) × (sort_stable cmp given (map some xs) (length xs) size
              ≡ some (true, map some ys))
            × IsStableSort cmp xs ys)
  unfolding sort_stable
  sort_stable_lem given xs size pos_size apart = elim (dec_le 2 (length xs)) [
    | no short ↦ inr (
      xs,
      rw (sort_stable, lt→ltb (length xs) 2 (omega arith)),
      (short-Sorted cmp xs (omega arith), λ z. refl, refl),
    )
    | yes long ↦
        let n : ℕ = length xs in
        let many : ltb n 2 || size == 0 ≡ false = ground arith in
        elim (dec_le n (u32_max / size - 1)) [
          | no big ↦ inl (
            rw (sort_stable, many, lt→ltb (u32_max / size - 1) n (omega arith)),
            long,
            inl (too_big n size pos_size (omega arith)),
          )
          | yes fits ↦ elim (Bool-cases (given (n * size + size))) [
            | inr refused ↦ inl (
              rw (sort_stable, many, le→ltb_false n (u32_max / size - 1) fits, refused),
              long,
              inr refused,
            )
            | inl got ↦
                let (ys, done, good) = sorts xs n refl (half n size pos_size (apart got)) in
                inr (
                  ys,
                  rw (sort_stable, many, le→ltb_false n (u32_max / size - 1) fits, got) done,
                  good,
                )
          ]
        ]
  ]
