-- ===== src/Heap/Push.antt =====
-- pq_push on the elements of a heap.
use mathlib.Core.Path.{subst}
use ceres_standard_library.Prelude.{
  ℕ, zero, suc, ◌+◌, ◌-◌, ◌<◌, ◌≡◌, refl, sym, arith, ◌⊎◌, inl, inr, Bool, true, false, some, List,
  [], ◌∷◌, ◌++◌, length, length-append,
}
use ceres_standard_library.Prelude.Int.{ℤ}
use ceres_standard_library.Prelude.Store.{◌>>=◌}
use ceres_standard_library.Vector.{Vector, vector_push_copy}
use ceres_standard_library.Prelude.Growth.{CannotGrow}
use ceres_standard_library.Vector.Represents.{Holds}
use ceres_standard_library.Vector.Refine.{vector_push_copy_lem}
use ceres_standard_library.Heap.{Pqueue, sift_up, pq_push}
use ceres_standard_library.Heap.Arrays.{item, one, tally, tally-append}
use ceres_standard_library.Heap.Order.{IsRanking, parent, Leq-at, IsHeap}
use ceres_standard_library.Heap.Up.{UpInv, sift_up_lem}

module _ {A : Type 0} (d : A) where
  item-append : (xs ys : List A) (i : ℕ) → i < length xs → item d (xs ++ ys) i ≡ item d xs i
  item-append [] ys i h = absurd (omega arith)
  item-append (x ∷ xs) ys zero h = refl
  item-append (x ∷ xs) ys (suc i) h = item-append xs ys i (omega arith)

module _ {A : Type 0} (cmp : A → A → ℤ) (d : A) where
  -- a queue that holds the elements `xs` in heap order
  pub record Heaped (q : Pqueue A) (xs : List A) : Type 0 where
    pub holds : Holds q.items xs
    pub heap : IsHeap cmp (item d xs) (length xs)

  pushed-UpInv :
      (xs : List A) (x : A)
      → IsHeap cmp (item d xs) (length xs)
      → UpInv cmp (item d (xs ++ x ∷ [])) (length (xs ++ x ∷ [])) (length xs)
  pushed-UpInv xs x heap =
      let size = length-append xs (x ∷ []) in
      record {
        edges = λ c c_pos c_in ne.
            Leq-at cmp (item d (xs ++ x ∷ []) (parent c)) (item d (xs ++ x ∷ []) c)
              (item d xs (parent c)) (item d xs c)
              (item-append d xs (x ∷ []) (parent c) (omega arith))
              (item-append d xs (x ∷ []) c (omega arith)) (heap c c_pos (omega arith));
        bridged = λ c c_pos c_in child i_pos. absurd (omega arith);
      }

  pq_push-failed :
      (given : ℕ → Bool) (q : Pqueue A) (x : A)
      → (vector_push_copy given q.items x).0 ≡ false
      → pq_push cmp given q x
        ≡ some (false, record { items = (vector_push_copy given q.items x).1 })
  unfolding pq_push
  pq_push-failed given q x failed = rw (pq_push, failed) refl

  pq_push-sift_up :
      (given : ℕ → Bool) (q : Pqueue A) (x : A) (n : ℕ) (w : Vector A)
      → (vector_push_copy given q.items x).0 ≡ true
      → (vector_push_copy given q.items x).1.len - 1 ≡ n
      → sift_up cmp (vector_push_copy given q.items x).1.len (vector_push_copy given q.items x).1 n
        ≡ some w
      → pq_push cmp given q x ≡ some (true, record { items = w })
  unfolding pq_push
  pq_push-sift_up given q x n w ok last sifted = rw (pq_push, ok, last, sifted, ◌>>=◌) refl

  -- On a heap under a ranking a push ends and leaves a heap. It adds the element to the elements, or
  -- fails and leaves them as they were; it fails only where the vector is full and its doubled object
  -- is too large or is refused.
  pub pq_push_lem :
      (given : ℕ → Bool) (q : Pqueue A) (xs : List A) (x : A)
      → IsRanking cmp
      → Heaped q xs
      → (done : Bool) × (q' : Pqueue A) × (ys : List A) × (pq_push cmp given q x ≡ some (done, q'))
        × Heaped q' ys
        × (((done ≡ true) × ((P : A → Bool) → tally P ys ≡ tally P xs + one P x))
            ⊎ ((done ≡ false) × (ys ≡ xs) × CannotGrow given q.items.len q.items.cap q.items.elem))
  pq_push_lem given q xs x o h = elim (vector_push_copy_lem given x h.holds) [
    | inr (failed, held, stuck) ↦ (
      false,
      record { items = (vector_push_copy given q.items x).1 },
      xs,
      pq_push-failed given q x failed,
      record { holds = held; heap = h.heap },
      inr (refl, refl, stuck),
    )
    | inl (ok, held) ↦
        let v = (vector_push_copy given q.items x).1 in
        let size = length-append xs (x ∷ []) in
        let r =
          sift_up_lem cmp d o v.len v (xs ++ x ∷ []) (length xs) held (pushed-UpInv xs x h.heap)
            (omega arith) (omega (arith, held.size)) in
        let last : v.len - 1 ≡ length xs = omega (arith, held.size) in
        (
          true,
          record { items = r.moved },
          r.elems,
          pq_push-sift_up given q x (length xs) r.moved ok last r.returns,
          record {
            holds = r.holds;
            heap = subst (IsHeap cmp (item d r.elems)) (sym r.size) r.heap;
          },
          inl (refl, λ P. omega (arith, r.same P, tally-append P xs (x ∷ []))),
        )
  ]
