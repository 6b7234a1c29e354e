-- ===== src/Queue.antt =====
-- src/ceres/ds/cqueue.c and ringbuf.c: the circular queue with one writer per index, and the byte
-- FIFO over it. An element of `elem` bytes is one value of `A`, a slot of the storage one entry of
-- `buf`; `none` is an access outside the storage, which C leaves undefined.
pub mod Represents
pub mod Refine
pub mod Ring
mod Tests
use ceres_standard_library.Prelude.{
  ℕ, ◌+◌, ◌-◌, ◌<◌, ◌≤◌, zero, suc, true, false, [], ◌∷◌, bit_and, Option, none, some, List, Bool,
  length, set, get_elem?, ltb, ◌==◌, if◌then◌else◌, add32, sub32, ◌<<◌, u32_size, ◌^◌, ◌*◌,
}

pub record Cqueue {ℓ} (A : Type ℓ) : Type ℓ where
  pub buf : List A
  pub elem : ℕ
  pub mask : ℕ
  pub head : ℕ
  pub tail : ℕ

-- `__builtin_clz`, as ceres/bits.h documents it: the leading zeros of a 32-bit word.
pub record IsClz (clz : ℕ → ℕ) : Type 0 where
  pub at_most : (x : ℕ) → 0 < x → x < u32_size → clz x ≤ 31
  pub from_below : (x : ℕ) → 0 < x → x < u32_size → 2 ^ (31 - clz x) ≤ x
  pub from_above : (x : ℕ) → 0 < x → x < u32_size → x < 2 ^ (32 - clz x)

module _ (clz : ℕ → ℕ) where
  -- `bit_log2` of ceres/bits.h
  pub bit_log2 : ℕ → ℕ
  bit_log2 x = sub32 31 (clz x)

  pub cq_init {ℓ} : {A : Type ℓ} → List A → ℕ → ℕ → Cqueue A
  unfolding bit_log2
  cq_init storage elem_size count = record {
    buf = storage;
    elem = if elem_size == 0 then 1 else elem_size;
    mask = sub32 (if ltb 1 count then 1 << bit_log2 count else 1) 1;
    head = 0;
    tail = 0;
  }

module _ {ℓ} {A : Type ℓ} where
  pub cq_count : Cqueue A → ℕ
  cq_count q = sub32 q.head q.tail

  pub cq_space : Cqueue A → ℕ
  unfolding cq_count
  cq_space q = sub32 (add32 q.mask 1) (cq_count q)

  -- 0 is `true` and -1 is `false`
  pub cq_put : Cqueue A → A → Bool × Cqueue A
  cq_put q item =
      if ltb q.mask (sub32 q.head q.tail)
      then (false, q)
      else (true, record q { buf = set q.buf (bit_and q.head q.mask) item; head = add32 q.head 1 })

  -- What `*out` receives is `none` when the queue is empty and -1 is returned.
  pub cq_get : Cqueue A → Option A × Cqueue A
  cq_get q =
      if q.head == q.tail
      then (none, q)
      else (get_elem? q.buf (bit_and q.tail q.mask), record q { tail = add32 q.tail 1 })

  pub cq_peek : Cqueue A → Option A
  cq_peek q = if q.head == q.tail then none else get_elem? q.buf (bit_and q.tail q.mask)

  pub cq_clear : Cqueue A → Cqueue A
  cq_clear q = record q { tail = q.head }

-- ringbuf.c: a queue of one-byte elements. `ring_get` and `ring_peek` return -1 for `none`.
pub ring_put : Cqueue ℕ → ℕ → Bool × Cqueue ℕ
ring_put r b = cq_put r b

pub ring_get : Cqueue ℕ → Option ℕ × Cqueue ℕ
ring_get r = cq_get r

-- The list is what is left of `data[done..n)`.
pub ring_write_from : Cqueue ℕ → List ℕ → ℕ → ℕ × Cqueue ℕ
unfolding ring_put
ring_write_from r [] done = (done, r)
ring_write_from r (b ∷ bytes) done =
    let (stored, r') = ring_put r b in
    elim stored [ true ↦ ring_write_from r' bytes (done + 1) | false ↦ (done, r') ]

pub ring_write : Cqueue ℕ → List ℕ → ℕ × Cqueue ℕ
unfolding ring_write_from
ring_write r bytes = ring_write_from r bytes 0

-- `n - done` rounds are left; the list is what has been written to `out`.
pub ring_read : Cqueue ℕ → ℕ → List ℕ × Cqueue ℕ
unfolding ring_get
ring_read r zero = ([], r)
ring_read r (suc left) =
    let (got, r') = ring_get r in
    elim got [ none ↦ ([], r') | some b ↦ let (bytes, r'') = ring_read r' left in (b ∷ bytes, r'') ]
