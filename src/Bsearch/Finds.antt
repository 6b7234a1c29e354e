-- ===== src/Bsearch/Finds.antt =====
-- What bsearch answers on an array that is ordered for the key.
use ceres_standard_library.Prelude.{
  ℕ, zero, suc, ◌+◌, ◌-◌, ◌/◌, ◌<◌, ◌≤◌, ◌≡◌, ◌≢◌, refl, sym, ap, ◌∙◌, arith, ◌⊎◌, inl, inr, Option,
  none, some, List, [], ◌∷◌, length, lt→ltb, le→ltb_false, get_elem?, dec_lt, ℕ_discrete,
}
use mathlib.Core.Option.{some-injective}
use ceres_standard_library.Prelude.Int.{ℤ}
use ceres_standard_library.Prelude.Store.{◌>>=◌}
use ceres_standard_library.Bsearch.{Side, hit, left, right, side, bsearch_loop, bsearch}

module _ {A : Type 0} where
  elem_at : (xs : List A) (i : ℕ) → i < length xs → (x : A) × (get_elem? xs i ≡ some x)
  elem_at [] i h = absurd (omega arith)
  elem_at (x ∷ xs) zero h = (x, refl)
  elem_at (x ∷ xs) (suc i) h = elem_at xs i (omega arith)

  elem_inside : (xs : List A) (i : ℕ) (x : A) → get_elem? xs i ≡ some x → i < length xs
  elem_inside [] i x h = absurd (cc)
  elem_inside (y ∷ xs) zero x h = omega arith
  elem_inside (y ∷ xs) (suc i) x h = omega (arith, elem_inside xs i x h)

side_cases : (s : Side) → (s ≡ hit) ⊎ (s ≡ left) ⊎ (s ≡ right)
side_cases hit = inl refl
side_cases left = inr (inl refl)
side_cases right = inr (inr refl)

module _ {A : Type 0} (cmp : A → ℤ) where
  -- behind an element that the key precedes are only such, before one that it follows only such
  pub record IsOrdered (base : List A) : Type 0 where
    pub falls :
        (i j : ℕ) (x y : A)
        → i < j
        → get_elem? base i ≡ some x
        → get_elem? base j ≡ some y
        → side (cmp x) ≡ left
        → side (cmp y) ≡ left
    pub climbs :
        (i j : ℕ) (x y : A)
        → i < j
        → get_elem? base i ≡ some x
        → get_elem? base j ≡ some y
        → side (cmp y) ≡ right
        → side (cmp x) ≡ right

  -- no hit below `lo`, and none from `hi` on
  record Around (base : List A) (lo hi : ℕ) : Type 0 where
    before : (i : ℕ) (x : A) → i < lo → get_elem? base i ≡ some x → side (cmp x) ≡ right
    behind : (i : ℕ) (x : A) → hi ≤ i → get_elem? base i ≡ some x → side (cmp x) ≡ left

  -- an answer is an element that compares equal, or a null result where there is none
  abbrev pub Answer : Option (Option ℕ) → List A → Type 0
  Answer result base =
      ((k : ℕ) × (x : A) × (result ≡ some (some k))
        × (get_elem? base k ≡ some x)
        × (side (cmp x) ≡ hit))
      ⊎ ((result ≡ some none) × ((i : ℕ) (x : A) → get_elem? base i ≡ some x → side (cmp x) ≢ hit))

  apart : (s : Side) → (s ≡ left) ⊎ (s ≡ right) → s ≢ hit
  apart hit (inl h) e = cc
  apart hit (inr h) e = cc
  apart left h e = cc
  apart right h e = cc

  same_elem :
      (base : List A) (i j : ℕ) (x y : A) (s : Side)
      → i ≡ j
      → get_elem? base i ≡ some x
      → get_elem? base j ≡ some y
      → side (cmp x) ≡ s
      → side (cmp y) ≡ s
  same_elem base i j x y s e at at' is =
      let same : x ≡ y = some-injective x y (sym at ∙ ap (get_elem? base) e ∙ at') in
      ap (λ (z : A). side (cmp z)) (sym same) ∙ is

  step :
      (fuel : ℕ) (base : List A) (lo hi : ℕ) (x : A) (s : Side)
      → lo < hi
      → get_elem? base (lo + (hi - lo) / 2) ≡ some x
      → side (cmp x) ≡ s
      → bsearch_loop cmp (suc fuel) base lo hi ≡ elim s [
        | hit ↦ some (some (lo + (hi - lo) / 2))
        | left ↦ bsearch_loop cmp fuel base lo (lo + (hi - lo) / 2)
        | right ↦ bsearch_loop cmp fuel base (lo + (hi - lo) / 2 + 1) hi
      ]
  unfolding bsearch_loop
  step fuel base lo hi x s h at is = rw (bsearch_loop, lt→ltb lo hi h, at, ◌>>=◌, is)

  stops :
      (fuel : ℕ) (base : List A) (lo hi : ℕ)
      → hi ≤ lo
      → bsearch_loop cmp (suc fuel) base lo hi ≡ some none
  unfolding bsearch_loop
  stops fuel base lo hi h = rw (bsearch_loop, le→ltb_false hi lo h)

  loop-Answer :
      (fuel : ℕ) (base : List A) (lo hi : ℕ)
      → IsOrdered base
      → Around base lo hi
      → hi ≤ length base
      → hi - lo < fuel
      → Answer (bsearch_loop cmp fuel base lo hi) base
  loop-Answer zero base lo hi o a inside enough = absurd (omega arith)
  loop-Answer (suc fuel) base lo hi o a inside enough = elim (dec_lt lo hi) [
    | no done ↦ rw (stops fuel base lo hi (omega arith)) (
        inr (
          refl,
          λ i x at. elim (dec_lt i lo) [
            | yes low ↦ apart (side (cmp x)) (inr (a.before i x low at))
            | no high ↦ apart (side (cmp x)) (inl (a.behind i x (omega arith) at))
          ],
        ))
    | yes more ↦
        let mid : ℕ = lo + (hi - lo) / 2 in
        let (x, at) = elem_at base mid (omega arith) in
        elim (side_cases (side (cmp x))) [
          | inl is ↦ rw (step fuel base lo hi x hit more at is) (inl (mid, x, refl, at, is))
          | inr (inl is) ↦ rw (step fuel base lo hi x left more at is) (
              loop-Answer fuel base lo mid o
                (record {
                  before = a.before;
                  behind = λ i y h e. elim (ℕ_discrete i mid) [
                    | yes here ↦ same_elem base mid i x y left (sym here) at e is
                    | no far ↦ o.falls mid i x y (omega arith) at e is
                  ];
                })
                (omega arith) (omega arith))
          | inr (inr is) ↦ rw (step fuel base lo hi x right more at is) (
              loop-Answer fuel base (mid + 1) hi o
                (record {
                  before = λ i y h e. elim (ℕ_discrete i mid) [
                    | yes here ↦ same_elem base mid i x y right (sym here) at e is
                    | no far ↦ o.climbs i mid y x (omega arith) e at is
                  ];
                  behind = a.behind;
                })
                inside (omega arith))
        ]
  ]

  -- On an array that is ordered for the key bsearch ends. It answers the address of an element that
  -- compares equal, or NULL, and then no element of the array does.
  pub bsearch_lem : (base : List A) → IsOrdered base → Answer (bsearch cmp base (length base)) base
  unfolding bsearch
  bsearch_lem base o =
      loop-Answer (suc (length base)) base 0 (length base) o
        (record {
          before = λ i x h e. absurd (omega arith);
          behind = λ i x h e. absurd (omega (arith, elem_inside base i x e));
        })
        (omega arith) (omega arith)
