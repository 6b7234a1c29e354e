-- ===== src/Bsearch/Tests.antt =====
-- Runs of bsearch and an instance of its theorem.
use ceres_standard_library.Prelude.{
  ℕ, zero, suc, ◌<◌, ◌≤◌, ◌≡◌, refl, arith, none, some, List, [], ◌∷◌, ltb, if◌then◌else◌,
  get_elem?,
}
use mathlib.Core.Option.{some-injective}
use ceres_standard_library.Prelude.Int.{ℤ, pos, negsuc}
use ceres_standard_library.Bsearch.{left, right, side, bsearch, bsearch_loop}
use ceres_standard_library.Bsearch.Finds.{IsOrdered, Answer, bsearch_lem}

abbrev to_key : ℕ → ℕ → ℤ
to_key key x = if ltb key x then negsuc 0 else (if ltb x key then pos 1 else pos 0)

abbrev ascending : List ℕ
ascending = 2 ∷ 4 ∷ 7 ∷ []

runs :
    (bsearch (to_key 7) ascending 3 ≡ some (some 2))
    × (bsearch (to_key 2) ascending 3 ≡ some (some 0))
    × (bsearch (to_key 5) ascending 3 ≡ some none)
    × (bsearch (to_key 5) [] 0 ≡ some none)
unfolding bsearch bsearch_loop
runs = (refl, refl, refl, refl)

known : (a b x y : ℕ) → a ≤ b → some a ≡ some x → some b ≡ some y → x ≤ y
known a b x y h e f = omega (arith, some-injective a x e, some-injective b y f)

in_order :
    (i j x y : ℕ) → i < j → get_elem? ascending i ≡ some x → get_elem? ascending j ≡ some y → x ≤ y
in_order i zero x y h e f = absurd (omega arith)
in_order zero (suc zero) x y h e f = known 2 4 x y (omega arith) e f
in_order (suc i) (suc zero) x y h e f = absurd (omega arith)
in_order zero (suc (suc zero)) x y h e f = known 2 7 x y (omega arith) e f
in_order (suc zero) (suc (suc zero)) x y h e f = known 4 7 x y (omega arith) e f
in_order (suc (suc i)) (suc (suc zero)) x y h e f = absurd (omega arith)
in_order i (suc (suc (suc j))) x y h e f = absurd (cc)

falls : (key x y : ℕ) → x ≤ y → side (to_key key x) ≡ left → side (to_key key y) ≡ left
falls key x y h is = ground arith

climbs : (key x y : ℕ) → x ≤ y → side (to_key key y) ≡ right → side (to_key key x) ≡ right
climbs key x y h is = ground arith

ascending-IsOrdered : IsOrdered (to_key 4) ascending
ascending-IsOrdered = record {
  falls = λ i j x y h e f is. falls 4 x y (in_order i j x y h e f) is;
  climbs = λ i j x y h e f is. climbs 4 x y (in_order i j x y h e f) is;
}

bsearch_lem_example : Answer (to_key 4) (bsearch (to_key 4) ascending 3) ascending
bsearch_lem_example = bsearch_lem (to_key 4) ascending ascending-IsOrdered
