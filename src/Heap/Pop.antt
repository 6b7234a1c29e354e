-- ===== src/Heap/Pop.antt =====
-- pq_pop on the elements of a heap.
use mathlib.Core.Path.{subst}
use ceres_standard_library.Prelude.{
  ℕ, zero, suc, ◌+◌, ◌-◌, ◌<◌, ◌≤◌, ◌≡◌, refl, sym, ap, ◌∙◌, arith, ◌⊎◌, inl, inr, Bool, true,
  false, ◌==◌, ltb, some, none, List, [], ◌∷◌, length, length-take, take,
}
use ceres_standard_library.Prelude.Int.{ℤ}
use ceres_standard_library.Prelude.Cells.{Cells, take-take, take-map}
use ceres_standard_library.Prelude.Store.{◌>>=◌}
use ceres_standard_library.Vector.{Vector, vector_pop}
use ceres_standard_library.Vector.Represents.{Holds}
use ceres_standard_library.Heap.{Pqueue, sift_down, swap_elems, pq_pop, drop_first}
use ceres_standard_library.Heap.Arrays.{
  item, item_at, swapped, item-swapped, length-swapped, one, tally, tally-swapped, swap_elems-Holds,
}
use ceres_standard_library.Heap.Order.{IsRanking, parent, Leq, Leq-at, IsHeap, root_first}
use ceres_standard_library.Heap.Down.{DownInv, sift_down_lem}
use ceres_standard_library.Heap.Push.{Heaped}

module _ {A : Type 0} (d : A) where
  item-take : (n i : ℕ) (xs : List A) → i < n → item d (take n xs) i ≡ item d xs i
  item-take zero i xs h = absurd (omega arith)
  item-take (suc n) i [] h = refl
  item-take (suc n) zero (x ∷ xs) h = refl
  item-take (suc n) (suc i) (x ∷ xs) h = item-take n i xs (omega arith)

  tally-take :
      (P : A → Bool) (n : ℕ) (xs : List A)
      → length xs ≡ suc n
      → tally P (take n xs) + one P (item d xs n) ≡ tally P xs
  tally-take P n [] h = absurd (omega arith)
  tally-take P zero (x ∷ []) h = omega arith
  tally-take P zero (x ∷ y ∷ xs) h = absurd (omega arith)
  tally-take P (suc n) (x ∷ xs) h = omega (arith, tally-take P n xs (omega arith))

module _ {A : Type 0} where
  vector_pop-Holds :
      {v : Vector A} {xs : List A} (n : ℕ)
      → Holds v xs
      → length xs ≡ suc n
      → Holds (vector_pop v) (take n xs)
  unfolding vector_pop
  vector_pop-Holds {v} {xs} n h e =
      let some_left : ltb 0 v.len ≡ true = ground (arith, h.size) in
      let shorter : v.len - 1 ≡ n = omega (arith, h.size) in
      rw some_left (record {
        size = omega (arith, length-take n xs, h.size);
        within = omega (arith, h.within);
        object = h.object;
        elem_pos = h.elem_pos;
        bytes = h.bytes;
        prefix =
            ap (λ (k : ℕ). take k v.cells) shorter
            ∙ sym (take-take n v.len v.cells (omega arith))
            ∙ ap (λ (c : Cells A). take n c) h.prefix
            ∙ take-map n (λ (x : A). some x) xs;
      })

module _ {A : Type 0} (cmp : A → A → ℤ) (d : A) where
  popped-DownInv :
      (xs : List A) (n : ℕ)
      → length xs ≡ suc n
      → IsHeap cmp (item d xs) (length xs)
      → DownInv cmp (item d (take n (swapped d xs 0 n))) n 0
  popped-DownInv xs n e heap =
      let same : (k : ℕ) → 0 < k → k < n → item d (take n (swapped d xs 0 n)) k ≡ item d xs k =
        λ k k_pos k_in.
          item-take d n k (swapped d xs 0 n) k_in
          ∙ item-swapped d xs 0 n k (omega arith) (omega arith)
          ∙ ground arith in
      record {
        edges = λ c c_pos c_in ne.
            Leq-at cmp (item d (take n (swapped d xs 0 n)) (parent c))
              (item d (take n (swapped d xs 0 n)) c) (item d xs (parent c)) (item d xs c)
              (same (parent c) (omega arith) (omega arith)) (same c c_pos c_in)
              (heap c c_pos (omega arith));
        bridged = λ c c_pos c_in child i_pos. absurd (omega arith);
      }

  drop_first-sift_down :
      (q : Pqueue A) (n : ℕ) (v w : Vector A)
      → 0 < n
      → q.items.len - 1 ≡ n
      → swap_elems q.items 0 n ≡ some v
      → sift_down cmp (suc n) (vector_pop v) 0 ≡ some w
      → drop_first cmp q ≡ some (record { items = w })
  unfolding drop_first
  drop_first-sift_down q n v w pos last swap sifted =
      let more : ltb 0 n ≡ true = ground arith in
      let sifted_last = ap (λ (k : ℕ). sift_down cmp (suc k) (vector_pop v) 0) last ∙ sifted in
      rw (drop_first, last, more, last, swap, ◌>>=◌, sifted_last, ◌>>=◌) refl

  drop_first_lem :
      (q : Pqueue A) (xs : List A) (n : ℕ)
      → IsRanking cmp
      → Heaped cmp d q xs
      → length xs ≡ suc n
      → n < 2147483648
      → (q' : Pqueue A) × (ys : List A) × (drop_first cmp q ≡ some q')
        × Heaped cmp d q' ys
        × ((P : A → Bool) → tally P ys + one P (item d xs 0) ≡ tally P xs)
  unfolding drop_first
  drop_first_lem q xs zero o h e small =
      let only : ltb 0 (q.items.len - 1) ≡ false = ground (arith, h.holds.size) in
      (
        record { items = vector_pop q.items },
        take 0 xs,
        rw (drop_first, only) refl,
        record {
          holds = vector_pop-Holds 0 h.holds e;
          heap = λ c c_pos c_in. absurd (omega arith);
        },
        λ P. tally-take d P 0 xs e,
      )
  drop_first_lem q xs (suc m) o h e small =
      let n = suc m in
      let last : q.items.len - 1 ≡ n = omega (arith, h.holds.size) in
      let (v, swap, held, same_len) = swap_elems-Holds d 0 n h.holds (omega arith) (omega arith) in
      let ws = take n (swapped d xs 0 n) in
      let size : length (swapped d xs 0 n) ≡ suc n = length-swapped d xs 0 n ∙ e in
      let ws_size : length ws ≡ n = omega (arith, length-take n (swapped d xs 0 n)) in
      let inv : DownInv cmp (item d ws) (length ws) 0 =
        subst (λ k. DownInv cmp (item d ws) k 0) (sym ws_size) (popped-DownInv xs n e h.heap) in
      let r =
        sift_down_lem cmp d o (suc n) (vector_pop v) ws 0 (vector_pop-Holds n held size) inv
          (omega arith) (omega arith) (omega arith) in
      let front : item d (swapped d xs 0 n) n ≡ item d xs 0 =
        item-swapped d xs 0 n n (omega arith) (omega arith) ∙ ground arith in
      (
        record { items = r.moved },
        r.elems,
        drop_first-sift_down q n v r.moved (omega arith) last swap r.returns,
        record { holds = r.holds; heap = subst (IsHeap cmp (item d r.elems)) (sym r.size) r.heap },
        λ P. omega (
          arith,
          r.same P,
          tally-take d P n (swapped d xs 0 n) size,
          ap (one P) front,
          tally-swapped d P xs 0 n (omega arith) (omega arith),
        ),
      )

  -- On a heap of at most 2^31 elements under a ranking pq_pop ends. It gives back nothing when the
  -- heap is empty, and otherwise an element that may leave before every other; what stays is a heap
  -- of the other elements.
  pub pq_pop_lem :
      (q : Pqueue A) (xs : List A)
      → IsRanking cmp
      → Heaped cmp d q xs
      → length xs ≤ 2147483648
      → ((xs ≡ []) × (pq_pop cmp q ≡ some (none, q)))
        ⊎ ((x : A) × (q' : Pqueue A) × (ys : List A) × (pq_pop cmp q ≡ some (some x, q'))
            × Heaped cmp d q' ys
            × ((P : A → Bool) → tally P ys + one P x ≡ tally P xs)
            × ((i : ℕ) → i < length xs → Leq cmp x (item d xs i)))
  unfolding pq_pop
  pq_pop_lem q [] o h small =
      let empty : (q.items.len == 0) ≡ true = ground (arith, h.holds.size) in
      inl (refl, rw (pq_pop, empty) refl)
  pq_pop_lem q (x ∷ xs) o h small =
      let full : (q.items.len == 0) ≡ false = ground (arith, h.holds.size) in
      let (q', ys, dropped, h', same) =
        drop_first_lem q (x ∷ xs) (length xs) o h refl (omega arith) in
      let first = item_at d 0 h.holds (omega arith) in
      inr (
        x,
        q',
        ys,
        rw (pq_pop, full, first, ◌>>=◌, dropped, ◌>>=◌) refl,
        h',
        same,
        λ i inside.
            root_first cmp (suc i) (item d (x ∷ xs)) (suc (length xs)) i o h.heap (omega arith)
              inside,
      )
