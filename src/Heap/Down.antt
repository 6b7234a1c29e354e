-- ===== src/Heap/Down.antt =====
-- sift_down restores the heap order where only the edges below one place may break it.
use mathlib.Core.Path.{subst}
use ceres_standard_library.Prelude.{
  Bool-cases, ℕ, zero, suc, ◌+◌, ◌*◌, ◌<◌, ◌≤◌, ◌≡◌, ◌≢◌, refl, sym, ap, ◌∙◌, arith, ◌⊎◌, inl, inr,
  true, false, ◌==◌, ℕ_discrete, ltb, ltb→lt, some, List, length, add32, mul32,
}
use ceres_standard_library.Prelude.Int.{ℤ}
use ceres_standard_library.Prelude.Store.{◌>>=◌}
use ceres_standard_library.Vector.{Vector}
use ceres_standard_library.Vector.Represents.{Holds}
use ceres_standard_library.Heap.{earlier, better, sift_down, swap_elems}
use ceres_standard_library.Heap.Arrays.{item, item_at, swapped, item-swapped, length-swapped}
use ceres_standard_library.Heap.Order.{
  IsRanking, parent, Swapped, at_left, at_right, at_other, Leq, Leq-at, Leq-self, Leq-trans, IsHeap,
  Sifted, unmoved, after_swap,
}

==_true : (a b : ℕ) → a ≡ b → (a == b) ≡ true
==_true a b h = ground arith

==_false : (a b : ℕ) → a ≢ b → (a == b) ≡ false
==_false a b h = ground (arith, h)

module _ {A : Type 0} (cmp : A → A → ℤ) where
  pub record DownInv (f : ℕ → A) (n i : ℕ) : Type 0 where
    pub edges : (c : ℕ) → 0 < c → c < n → parent c ≢ i → Leq cmp (f (parent c)) (f c)
    pub bridged : (c : ℕ) → 0 < c → c < n → parent c ≡ i → 0 < i → Leq cmp (f (parent i)) (f c)

  -- `b` is the place `i` or a child of it, and no element of these leaves before it
  record Best (f : ℕ → A) (n i b : ℕ) : Type 0 where
    least : (c : ℕ) → 0 < c → c < n → parent c ≡ i → Leq cmp (f b) (f c)
    self : Leq cmp (f b) (f i)
    inside : b < n
    place : (b ≡ i) ⊎ ((i < b) × (parent b ≡ i))

  swap-DownInv :
      (f g : ℕ → A) (n i b : ℕ)
      → IsRanking cmp
      → DownInv f n i
      → Best f n i b
      → i < b
      → parent b ≡ i
      → Swapped f g i b
      → DownInv g n b
  swap-DownInv f g n i b o v best below child s =
      let gi = at_left f g i b s in
      let gb = at_right f g i b s in
      record {
        edges = λ c c_pos c_in ne. elim (ℕ_discrete c b) [
          | yes here ↦
              Leq-at cmp (g (parent c)) (g c) (f b) (f i)
                (ap (λ (k : ℕ). g (parent k)) here ∙ ap g child ∙ gi) (ap g here ∙ gb) best.self
          | no other ↦ elim (ℕ_discrete c i) [
            | yes top ↦
                Leq-at cmp (g (parent c)) (g c) (f (parent i)) (f b)
                  (ap (λ (k : ℕ). g (parent k)) top
                    ∙ at_other f g i b (parent i) s (λ e. omega arith) (λ e. omega arith))
                  (ap g top ∙ gi) (v.bridged b (omega arith) best.inside child (omega arith))
            | no free ↦
                let gc = at_other f g i b c s free other in
                elim (ℕ_discrete (parent c) i) [
                  | yes under ↦
                      Leq-at cmp (g (parent c)) (g c) (f b) (f c) (ap g under ∙ gi) gc
                        (best.least c c_pos c_in under)
                  | no far ↦
                      Leq-at cmp (g (parent c)) (g c) (f (parent c)) (f c)
                        (at_other f g i b (parent c) s far ne) gc (v.edges c c_pos c_in far)
                ]
          ]
        ];
        bridged = λ c c_pos c_in under b_pos.
            Leq-at cmp (g (parent b)) (g c) (f b) (f c) (ap g child ∙ gi)
              (at_other f g i b c s (λ e. omega arith) (λ e. omega arith))
              (Leq-at cmp (f b) (f c) (f (parent c)) (f c) (ap f (sym under)) refl
                (v.edges c c_pos c_in (λ e. omega arith)));
      }

  fixed-DownInv : (f : ℕ → A) (n i b : ℕ) → DownInv f n i → Best f n i b → b ≡ i → IsHeap cmp f n
  fixed-DownInv f n i b v best stop = λ c c_pos c_in. elim (ℕ_discrete (parent c) i) [
    | yes under ↦
        Leq-at cmp (f (parent c)) (f c) (f b) (f c) (ap f (under ∙ sym stop)) refl
          (best.least c c_pos c_in under)
    | no far ↦ v.edges c c_pos c_in far
  ]

  -- what one comparison with a child leaves
  record Choice (f : ℕ → A) (n child b chosen : ℕ) : Type 0 where
    old : Leq cmp (f chosen) (f b)
    new : child < n → Leq cmp (f chosen) (f child)
    which : (chosen ≡ b) ⊎ ((chosen ≡ child) × (child < n))

  both-Best :
      (f : ℕ → A) (n i left b : ℕ)
      → IsRanking cmp
      → i < n
      → Choice f n (2 * i + 1) i left
      → Choice f n (2 * i + 2) left b
      → Best f n i b
  both-Best f n i left b o i_in first second =
      let self = Leq-trans cmp o (f b) (f left) (f i) second.old first.old in
      record {
        least = λ c c_pos c_in under. elim (ℕ_discrete c (2 * i + 1)) [
          | yes odd ↦
              Leq-at cmp (f b) (f c) (f b) (f (2 * i + 1)) refl (ap f odd) (
                Leq-trans cmp o (f b) (f left) (f (2 * i + 1)) second.old (first.new (omega arith)))
          | no even ↦
              let e : c ≡ 2 * i + 2 = omega arith in
              Leq-at cmp (f b) (f c) (f b) (f (2 * i + 2)) refl (ap f e) (second.new (omega arith))
        ];
        self = self;
        inside = omega (arith, first.which, second.which);
        place = elim (ℕ_discrete b i) [
          | yes same ↦ inl same
          | no moved ↦
              inr
                (omega (arith, first.which, second.which), omega (arith, first.which, second.which))
        ];
      }

module _ {A : Type 0} (cmp : A → A → ℤ) (d : A) (o : IsRanking cmp) where
  better_lem :
      {v : Vector A} {xs : List A} (child b : ℕ)
      → Holds v xs
      → b < length xs
      → (chosen : ℕ) × (better cmp v child b ≡ some chosen)
        × Choice cmp (item d xs) (length xs) child b chosen
  unfolding better
  better_lem {v} {xs} child b h b_in = elim (Bool-cases (ltb child v.len)) [
    | inr out ↦ (
      b,
      rw (better, out) refl,
      record {
        old = Leq-self cmp o (item d xs b);
        new = λ less. absurd (ground (arith, h.size));
        which = inl refl;
      },
    )
    | inl in_bounds ↦
        let less : child < length xs = omega (arith, h.size, ltb→lt child v.len in_bounds) in
        let hx = item_at d child h less in
        let hy = item_at d b h b_in in
        elim (Bool-cases (earlier cmp (item d xs child) (item d xs b))) [
          | inl first ↦ (
            child,
            rw (better, in_bounds, hx, ◌>>=◌, hy, ◌>>=◌, first) refl,
            record {
              old = o.asym (item d xs child) (item d xs b) first;
              new = λ l. Leq-self cmp o (item d xs child);
              which = inr (refl, less);
            },
          )
          | inr second ↦ (
            b,
            rw (better, in_bounds, hx, ◌>>=◌, hy, ◌>>=◌, second) refl,
            record { old = Leq-self cmp o (item d xs b); new = λ l. second; which = inl refl },
          )
        ]
  ]

  sift_down_step :
      (fuel : ℕ) (v : Vector A) (i left best : ℕ)
      → 2 * i + 2 < 4294967296
      → better cmp v (2 * i + 1) i ≡ some left
      → better cmp v (2 * i + 2) left ≡ some best
      → sift_down cmp (suc fuel) v i ≡ elim (best == i) [
        | true ↦ some v
        | false ↦ do v' ← swap_elems v i best; sift_down cmp fuel v' best
      ]
  unfolding sift_down
  sift_down_step fuel v i left best small first second =
      let l : add32 (mul32 2 i) 1 ≡ 2 * i + 1 = omega arith in
      let r : add32 (2 * i + 1) 1 ≡ 2 * i + 2 = omega arith in
      rw (sift_down, l, first, ◌>>=◌, r, second, ◌>>=◌) refl

  -- sift_down ends in a heap of the same elements
  pub sift_down_lem :
      (fuel : ℕ) (v : Vector A) (xs : List A) (i : ℕ)
      → Holds v xs
      → DownInv cmp (item d xs) (length xs) i
      → i < length xs
      → length xs ≤ fuel + i
      → length xs < 2147483648
      → Sifted cmp d (sift_down cmp fuel v i) xs
  sift_down_lem zero v xs i h inv inside fueled small = absurd (omega arith)
  sift_down_lem (suc fuel) v xs i h inv inside fueled small =
      let (left, first, l) = better_lem (2 * i + 1) i h inside in
      let left_in : left < length xs = omega (arith, l.which) in
      let (b, second, r) = better_lem (2 * i + 2) left h left_in in
      let best = both-Best cmp (item d xs) (length xs) i left b o inside l r in
      let step = sift_down_step fuel v i left b (omega arith) first second in
      elim best.place [
        | inl stop ↦
            rw (step, ==_true b i stop)
              (unmoved cmp d h (fixed-DownInv cmp (item d xs) (length xs) i b inv best stop))
        | inr (below, child) ↦
            rw (step, ==_false b i (λ e. omega arith))
              (after_swap cmp d i b (λ v'. sift_down cmp fuel v' b) h inside best.inside
                (λ v' h'.
                  sift_down_lem fuel v' (swapped d xs i b) b h'
                    (subst (λ n. DownInv cmp (item d (swapped d xs i b)) n b)
                      (sym (length-swapped d xs i b))
                      (swap-DownInv cmp (item d xs) (item d (swapped d xs i b)) (length xs) i b o
                        inv best below child (λ k. item-swapped d xs i b k inside best.inside)))
                    (omega (arith, length-swapped d xs i b, best.inside))
                    (omega (arith, length-swapped d xs i b))
                    (omega (arith, length-swapped d xs i b))))
      ]
