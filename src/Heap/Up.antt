-- ===== src/Heap/Up.antt =====
-- sift_up restores the heap order where only the edge above one place may break it.
use ceres_standard_library.Prelude.{
  ℕ, zero, suc, ◌<◌, ◌≡◌, ◌≢◌, refl, sym, ap, ◌∙◌, arith, inl, inr, true, false, ℕ_discrete,
}
use ceres_standard_library.Prelude.{ltb, Bool-cases, some, List, length}
use mathlib.Core.Path.{subst}
use ceres_standard_library.Prelude.Int.{ℤ}
use ceres_standard_library.Prelude.Store.{◌>>=◌}
use ceres_standard_library.Vector.{Vector, vector_at}
use ceres_standard_library.Vector.Represents.{Holds}
use ceres_standard_library.Heap.Arrays.{item, item_at, swapped, item-swapped, length-swapped}
use ceres_standard_library.Heap.{earlier, sift_up, swap_elems}
use ceres_standard_library.Heap.Order.{
  IsRanking, parent, Swapped, at_left, at_right, at_other, Leq, Leq-at, Leq-trans, IsHeap, Sifted,
  unmoved, after_swap,
}

module _ {A : Type 0} (cmp : A → A → ℤ) where
  pub record UpInv (f : ℕ → A) (n i : ℕ) : Type 0 where
    pub edges : (c : ℕ) → 0 < c → c < n → c ≢ i → Leq cmp (f (parent c)) (f c)
    pub bridged : (c : ℕ) → 0 < c → c < n → parent c ≡ i → 0 < i → Leq cmp (f (parent i)) (f c)

  pub swap-UpInv :
      (f g : ℕ → A) (n i : ℕ)
      → IsRanking cmp
      → UpInv f n i
      → 0 < i
      → i < n
      → earlier cmp (f i) (f (parent i)) ≡ true
      → Swapped f g i (parent i)
      → UpInv g n (parent i)
  swap-UpInv f g n i o v pos inside less s =
      let p : ℕ = parent i in
      let gi = at_left f g i p s in
      let gp = at_right f g i p s in
      let down = o.asym (f i) (f p) less in
      record {
        edges = λ c c_pos c_in ne. elim (ℕ_discrete c i) [
          | yes here ↦
              Leq-at cmp (g (parent c)) (g c) (f i) (f p) (ap (λ (k : ℕ). g (parent k)) here ∙ gp)
                (ap g here ∙ gi) down
          | no other ↦
              let gc = at_other f g i p c s other ne in
              elim (ℕ_discrete (parent c) i) [
                | yes child ↦
                    Leq-at cmp (g (parent c)) (g c) (f p) (f c) (ap g child ∙ gi) gc
                      (v.bridged c c_pos c_in child pos)
                | no far ↦ elim (ℕ_discrete (parent c) p) [
                  | yes sibling ↦
                      Leq-at cmp (g (parent c)) (g c) (f i) (f c) (ap g sibling ∙ gp) gc (
                        Leq-trans cmp o (f i) (f p) (f c) down (
                          Leq-at cmp (f p) (f c) (f (parent c)) (f c) (ap f (sym sibling)) refl
                            (v.edges c c_pos c_in other)))
                  | no free ↦
                      Leq-at cmp (g (parent c)) (g c) (f (parent c)) (f c)
                        (at_other f g i p (parent c) s far free) gc (v.edges c c_pos c_in other)
                ]
              ]
        ];
        bridged = λ c c_pos c_in child p_pos.
            let above = at_other f g i p (parent p) s (λ e. omega arith) (λ e. omega arith) in
            let up = v.edges p p_pos (omega arith) (λ e. omega arith) in
            elim (ℕ_discrete c i) [
              | yes here ↦
                  Leq-at cmp (g (parent p)) (g c) (f (parent p)) (f p) above (ap g here ∙ gi) up
              | no other ↦
                  Leq-at cmp (g (parent p)) (g c) (f (parent p)) (f c) above
                    (at_other f g i p c s other (λ e. omega arith))
                    (Leq-trans cmp o (f (parent p)) (f p) (f c) up (
                      Leq-at cmp (f p) (f c) (f (parent c)) (f c) (ap f (sym child)) refl
                        (v.edges c c_pos c_in other)))
            ];
      }

  whole-UpInv : (f : ℕ → A) (n : ℕ) → UpInv f n 0 → IsHeap cmp f n
  whole-UpInv f n v = λ c c_pos c_in. v.edges c c_pos c_in (λ e. omega arith)

  fixed-UpInv :
      (f : ℕ → A) (n i : ℕ)
      → UpInv f n i
      → earlier cmp (f i) (f (parent i)) ≡ false
      → IsHeap cmp f n
  fixed-UpInv f n i v stop = λ c c_pos c_in. elim (ℕ_discrete c i) [
    | yes here ↦
        Leq-at cmp (f (parent c)) (f c) (f (parent i)) (f i) (ap (λ (k : ℕ). f (parent k)) here)
          (ap f here) stop
    | no other ↦ v.edges c c_pos c_in other
  ]

  sift_up-zero : (fuel : ℕ) (v : Vector A) → sift_up cmp (suc fuel) v 0 ≡ some v
  unfolding sift_up
  sift_up-zero fuel v = refl

  sift_up-stop :
      (fuel : ℕ) (v : Vector A) (i : ℕ) (x y : A)
      → 0 < i
      → vector_at v i ≡ some x
      → vector_at v (parent i) ≡ some y
      → earlier cmp x y ≡ false
      → sift_up cmp (suc fuel) v i ≡ some v
  unfolding sift_up
  sift_up-stop fuel v i x y pos hx hy stop =
      let up : ltb 0 i ≡ true = ground arith in rw (sift_up, up, hx, ◌>>=◌, hy, ◌>>=◌, stop) refl

  sift_up-swap_elems :
      (fuel : ℕ) (v : Vector A) (i : ℕ) (x y : A)
      → 0 < i
      → vector_at v i ≡ some x
      → vector_at v (parent i) ≡ some y
      → earlier cmp x y ≡ true
      → sift_up cmp (suc fuel) v i
        ≡ (swap_elems v i (parent i) >>= λ v'. sift_up cmp fuel v' (parent i))
  unfolding sift_up
  sift_up-swap_elems fuel v i x y pos hx hy less =
      let up : ltb 0 i ≡ true = ground arith in rw (sift_up, up, hx, ◌>>=◌, hy, ◌>>=◌, less) refl

module _ {A : Type 0} (cmp : A → A → ℤ) (d : A) (o : IsRanking cmp) where
  -- sift_up ends in a heap of the same elements
  pub sift_up_lem :
      (fuel : ℕ) (v : Vector A) (xs : List A) (i : ℕ)
      → Holds v xs
      → UpInv cmp (item d xs) (length xs) i
      → i < length xs
      → i < fuel
      → Sifted cmp d (sift_up cmp fuel v i) xs
  sift_up_lem zero v xs i h inv inside fueled = absurd (omega arith)
  sift_up_lem (suc fuel) v xs zero h inv inside fueled =
      rw (sift_up-zero cmp fuel v) (unmoved cmp d h (whole-UpInv cmp (item d xs) (length xs) inv))
  sift_up_lem (suc fuel) v xs (suc i) h inv inside fueled =
      let p = parent (suc i) in
      let x = item d xs (suc i) in
      let y = item d xs p in
      let hx = item_at d (suc i) h inside in
      let hy = item_at d p h (omega arith) in
      elim (Bool-cases (earlier cmp x y)) [
        | inr stop ↦
            rw (sift_up-stop cmp fuel v (suc i) x y (omega arith) hx hy stop)
              (unmoved cmp d h (fixed-UpInv cmp (item d xs) (length xs) (suc i) inv stop))
        | inl less ↦ rw (sift_up-swap_elems cmp fuel v (suc i) x y (omega arith) hx hy less) (
            after_swap cmp d (suc i) p (λ v'. sift_up cmp fuel v' p) h inside (omega arith)
              (λ v' h'.
                sift_up_lem fuel v' (swapped d xs (suc i) p) p h'
                  (subst (λ n. UpInv cmp (item d (swapped d xs (suc i) p)) n p)
                    (sym (length-swapped d xs (suc i) p))
                    (swap-UpInv cmp (item d xs) (item d (swapped d xs (suc i) p)) (length xs)
                      (suc i) o inv (omega arith) inside less
                      (λ k. item-swapped d xs (suc i) p k inside (omega arith))))
                  (omega (arith, length-swapped d xs (suc i) p)) (omega arith)))
      ]
