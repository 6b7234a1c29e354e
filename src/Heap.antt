-- ===== src/Heap.antt =====
-- src/ceres/ds/pqueue.c with the loops of src/ceres/ds/heap_priv.h: the binary heap in a vector.
-- `none` is a null pointer that the code would read through.
pub mod Arrays
pub mod Order
pub mod Up
pub mod Down
pub mod Push
pub mod Pop
mod Tests
use ceres_standard_library.Prelude.{
  ℕ, zero, suc, ◌+◌, ◌-◌, ◌/◌, Bool, true, false, Option, none, some, set, ltb, ◌==◌, if◌then◌else◌,
  add32, mul32,
}
use ceres_standard_library.Prelude.Int.{ℤ, pos, ltb_ℤ}
use ceres_standard_library.Prelude.Store.{◌>>=◌}
use ceres_standard_library.Vector.{
  Vector, vector_init, vector_free, vector_clear, vector_at, vector_pop, vector_push_copy,
}

-- `struct pqueue`: the comparison is an argument of the operations
pub record Pqueue (A : Type 0) : Type 0 where
  pub items : Vector A

module _ {A : Type 0} where
  pub pq_init : ℕ → Pqueue A
  pq_init elem_size = record { items = vector_init elem_size }

  pub pq_free : Pqueue A → Pqueue A
  pq_free q = record { items = vector_free q.items }

  pub pq_clear : Pqueue A → Pqueue A
  pq_clear q = record { items = vector_clear q.items }

  unfoldable pub pq_peek : Pqueue A → Option A
  pq_peek q = vector_at q.items 0

  pub pq_len : Pqueue A → ℕ
  pq_len q = q.items.len

  unfoldable pub swap_elems : Vector A → ℕ → ℕ → Option (Vector A)
  swap_elems v i j = do
    a ← vector_at v i
    b ← vector_at v j
    some (record v { cells = set (set v.cells i (some b)) j (some a) })

module _ {A : Type 0} (cmp : A → A → ℤ) where
  -- `PQ_LESS(i, j) < 0`
  abbrev pub earlier : A → A → Bool
  earlier x y = ltb_ℤ (cmp x y) (pos 0)

  unfoldable pub sift_up : ℕ → Vector A → ℕ → Option (Vector A)
  sift_up zero v i = none
  sift_up (suc fuel) v i = elim (ltb 0 i) [
    | false ↦ some v
    | true ↦ do
      x ← vector_at v i
      y ← vector_at v ((i - 1) / 2)
      elim (earlier x y) [
        | false ↦ some v
        | true ↦ do v' ← swap_elems v i ((i - 1) / 2); sift_up fuel v' ((i - 1) / 2)
      ]
  ]

  -- a child that leaves before the best so far, if it is inside
  unfoldable pub better : Vector A → ℕ → ℕ → Option ℕ
  better v child best = elim (ltb child v.len) [
    | false ↦ some best
    | true ↦ do
      x ← vector_at v child
      y ← vector_at v best
      some (if earlier x y then child else best)
  ]

  unfoldable pub sift_down : ℕ → Vector A → ℕ → Option (Vector A)
  sift_down zero v i = none
  sift_down (suc fuel) v i =
      let l = add32 (mul32 2 i) 1 in
      do
        left ← better v l i
        best ← better v (add32 l 1) left
        elim (best == i) [
          | true ↦ some v
          | false ↦ do v' ← swap_elems v i best; sift_down fuel v' best
        ]

  -- the status, 0 as `true`, and the queue
  pub pq_push : (ℕ → Bool) → Pqueue A → A → Option (Bool × Pqueue A)
  unfolding sift_up
  pq_push given q item =
      let (room, v) = vector_push_copy given q.items item in
      elim room [
        | false ↦ some (false, record { items = v })
        | true ↦ do v' ← sift_up v.len v (v.len - 1); some (true, record { items = v' })
      ]

  -- the queue behind the element that leaves, `none` for -1
  unfoldable pub drop_first : Pqueue A → Option (Pqueue A)
  unfolding sift_down swap_elems
  drop_first q =
      let last = q.items.len - 1 in
      elim (ltb 0 last) [
        | false ↦ some (record { items = vector_pop q.items })
        | true ↦ do
          v ← swap_elems q.items 0 last
          v' ← sift_down (suc last) (vector_pop v) 0
          some (record { items = v' })
      ]

  pub pq_pop : Pqueue A → Option (Option A × Pqueue A)
  unfolding drop_first
  pq_pop q = elim (q.items.len == 0) [
    | true ↦ some (none, q)
    | false ↦ do first ← vector_at q.items 0; q' ← drop_first q; some (some first, q')
  ]
