-- ===== src/Sort/Tests.antt =====
-- Seventeen pairs sorted by their first part: three runs, joined in two passes.
use ceres_standard_library.Prelude.{
  ℕ, ◌+◌, ◌*◌, ◌^◌, ◌≤◌, ◌≡◌, ◌⊎◌, refl, arith, List, [], ◌∷◌, map, some, true, false, ltb,
}
use ceres_standard_library.Prelude.Int.{ℤ, sub_ℕ}
use ceres_standard_library.Prelude.Store.{memcpy, put_cell}
use ceres_standard_library.Sort.{
  sort_stable, sort_with_buffer, runs_from, run_length, insertion_run, insert_from, insert_one,
  hold_place, passes, pass_from, merge, merge_loop, merge_rest,
}
use ceres_standard_library.Sort.Order.{IsOrder}
use ceres_standard_library.Sort.Refine.{IsStableSort, sort_stable_lem}

abbrev by_first : ℕ × ℕ → ℕ × ℕ → ℤ
by_first x y = sub_ℕ x.0 y.0

by_first-IsOrder : IsOrder by_first
by_first-IsOrder = record { asym = λ x y h. ground arith; trans = λ x y z h k. ground arith }

abbrev pairs : List (ℕ × ℕ)
pairs =
    (3, 0)
    ∷ (1, 1)
    ∷ (2, 2)
    ∷ (3, 3)
    ∷ (1, 4)
    ∷ (0, 5)
    ∷ (2, 6)
    ∷ (3, 7)
    ∷ (9, 8)
    ∷ (1, 9)
    ∷ (5, 10)
    ∷ (4, 11)
    ∷ (4, 12)
    ∷ (0, 13)
    ∷ (9, 14)
    ∷ (2, 15)
    ∷ (0, 16)
    ∷ []

abbrev in_order : List (ℕ × ℕ)
in_order =
    (0, 5)
    ∷ (0, 13)
    ∷ (0, 16)
    ∷ (1, 1)
    ∷ (1, 4)
    ∷ (1, 9)
    ∷ (2, 2)
    ∷ (2, 6)
    ∷ (2, 15)
    ∷ (3, 0)
    ∷ (3, 3)
    ∷ (3, 7)
    ∷ (4, 11)
    ∷ (4, 12)
    ∷ (5, 10)
    ∷ (9, 8)
    ∷ (9, 14)
    ∷ []

runs :
    (sort_stable by_first (λ bytes. true) (map some pairs) 17 8 ≡ some (true, map some in_order))
    × (sort_stable by_first (λ bytes. false) (map some pairs) 17 8 ≡ some (false, map some pairs))
unfolding sort_stable sort_with_buffer runs_from run_length insertion_run insert_from insert_one
    hold_place passes pass_from merge merge_loop merge_rest memcpy put_cell
runs = (refl, refl)

sort_stable_lem_example :
    ((sort_stable by_first (λ bytes. ltb bytes 1000) (map some pairs) 17 8
        ≡ some (false, map some pairs))
      × (2 ≤ 17)
      × ((2 ^ 32 ≤ 17 * 8 + 8) ⊎ (ltb (17 * 8 + 8) 1000 ≡ false)))
    ⊎ ((ys : List (ℕ × ℕ)) × (sort_stable by_first (λ bytes. ltb bytes 1000) (map some pairs) 17 8
          ≡ some (true, map some ys))
        × IsStableSort by_first pairs ys)
sort_stable_lem_example =
    sort_stable_lem by_first by_first-IsOrder (λ bytes. ltb bytes 1000) pairs 8 (omega arith)
      (λ h. omega arith)
