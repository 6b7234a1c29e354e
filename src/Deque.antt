-- ===== src/Deque.antt =====
-- src/ceres/ds/deque.c: the growable circular buffer. An element of `elem` bytes is one value of
-- `A`, and `cells` is the heap object (`data`) by elements; `given` says whether `malloc`, asked for
-- that many bytes, returned an object. Status 0 is `true`, -1 is `false`.
pub mod Represents
pub mod Grow
pub mod Room
pub mod Refine
pub mod Pop
mod Tests
use ceres_standard_library.Prelude.{
  ℕ, zero, suc, ◌+◌, ◌-◌, ◌*◌, ◌/◌, Option, none, some, List, [], Bool, true, false, not, ◌&&◌, set,
  ltb, leb, ◌==◌, if◌then◌else◌, add32, mul32, u32_max,
}
use ceres_standard_library.Prelude.Cells.{Cells, cell, blank}

pub record Deque {ℓ} (A : Type ℓ) : Type ℓ where
  pub cells : Cells A
  pub head : ℕ
  pub len : ℕ
  pub cap : ℕ
  pub elem : ℕ

module _ {ℓ} {A : Type ℓ} where
  pub dq_init : ℕ → Deque A
  dq_init elem_size = record {
    cells = [];
    head = 0;
    len = 0;
    cap = 0;
    elem = if elem_size == 0 then 1 else elem_size;
  }

  pub dq_free : Deque A → Deque A
  dq_free d = record d { cells = []; head = 0; len = 0; cap = 0 }

  pub dq_clear : Deque A → Deque A
  dq_clear d = record d { head = 0; len = 0 }

  pub slot_of : Deque A → ℕ → ℕ
  slot_of d i = let pos = add32 d.head i in if leb d.cap pos then pos - d.cap else pos

  -- the loop of `grow` at index `i`, with `left` rounds to go
  pub copy_out : Deque A → ℕ → ℕ → Cells A → Cells A
  copy_out d zero i bigger = bigger
  copy_out d (suc left) i bigger =
      copy_out d left (i + 1) (set bigger i (cell d.cells (slot_of d i)))

module _ {ℓ} {A : Type ℓ} (given : ℕ → Bool) where
  pub grow : Deque A → Bool × Deque A
  grow d =
      let want = if d.cap == 0 then 4 else mul32 d.cap 2 in
      if ltb want d.cap
      then (false, d)
      else if ltb (u32_max / d.elem) want
      then (false, d)
      else if given (want * d.elem)
      then (true, record d { cells = copy_out d d.len 0 (blank want); cap = want; head = 0 })
      else (false, d)

  -- `d->len == d->cap && grow(d) != 0`, with the deque that it leaves; `true` is room for one more
  pub room_for_one : Deque A → Bool × Deque A
  room_for_one d = if d.len == d.cap then grow d else (true, d)

  pub dq_push_back : Deque A → A → Bool × Deque A
  dq_push_back d item =
      let (room, d') = room_for_one d in
      if room
      then (
        true,
        record d' { cells = set d'.cells (slot_of d' d'.len) (some item); len = add32 d'.len 1 },
      )
      else (false, d')

  pub dq_push_front : Deque A → A → Bool × Deque A
  dq_push_front d item =
      let (room, d') = room_for_one d in
      let front = if d'.head == 0 then d'.cap - 1 else d'.head - 1 in
      if room
      then (
        true,
        record d' { cells = set d'.cells front (some item); head = front; len = add32 d'.len 1 },
      )
      else (false, d')

module _ {ℓ} {A : Type ℓ} where
  -- What `*out` receives is `none` when the deque is empty and -1 is returned.
  pub dq_pop_back : Deque A → Option A × Deque A
  dq_pop_back d =
      if d.len == 0
      then (none, d)
      else (cell d.cells (slot_of d (d.len - 1)), record d { len = d.len - 1 })

  pub dq_pop_front : Deque A → Option A × Deque A
  dq_pop_front d =
      if d.len == 0
      then (none, d)
      else (cell d.cells d.head, record d { head = slot_of d 1; len = d.len - 1 })

  -- the element behind the pointer that `dq_at` returns; `none` is NULL
  pub dq_at : Deque A → ℕ → Option A
  dq_at d i = if leb d.len i then none else cell d.cells (slot_of d i)
