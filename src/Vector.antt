-- ===== src/Vector.antt =====
-- src/ceres/ds/vector.c: the growable array. An element of `elem` bytes is one value of `A`, and
-- `cells` is the heap object by elements; `given` says whether `realloc`, asked for that many bytes,
-- returned an object (which then holds what the old one held). Status 0 is `true`, -1 is `false`.
pub mod Represents
pub mod Room
pub mod Refine
pub mod Access
pub mod Sorting
mod Tests
use ceres_standard_library.Prelude.{
  ℕ, ◌+◌, ◌-◌, ◌*◌, ◌/◌, ◌≡◌, Option, none, some, List, [], ◌++◌, Bool, true, false, length, set,
  ltb, leb, ◌==◌, if◌then◌else◌, add32, mul32, u32_max,
}
use ceres_standard_library.Prelude.Cells.{Cells, cell, blank, memmove}

pub record Vector {ℓ} (A : Type ℓ) : Type ℓ where
  pub cells : Cells A
  pub len : ℕ
  pub cap : ℕ
  pub elem : ℕ

module _ {ℓ} {A : Type ℓ} where
  unfoldable pub vector_init : ℕ → Vector A
  vector_init elem_size = record {
    cells = [];
    len = 0;
    cap = 0;
    elem = if elem_size == 0 then 1 else elem_size;
  }

  pub vector_free : Vector A → Vector A
  vector_free v = record v { cells = []; len = 0; cap = 0 }

module _ {ℓ} {A : Type ℓ} where
  -- the element that a push stores: `zero_bytes` for `vector_push`, a copy for `vector_push_copy`
  abbrev pub append_at_len : Vector A → A → Vector A
  append_at_len v item = record v { cells = set v.cells v.len (some item); len = add32 v.len 1 }

module _ {ℓ} {A : Type ℓ} (given : ℕ → Bool) where
  unfoldable pub vector_reserve : Vector A → ℕ → Bool × Vector A
  vector_reserve v cap =
      if leb cap v.cap
      then (true, v)
      else if ltb (u32_max / v.elem) cap
      then (false, v)
      else if given (cap * v.elem)
      then (true, record v { cells = v.cells ++ blank (cap - length v.cells); cap = cap })
      else (false, v)

  unfoldable pub make_room_for_one : Vector A → Bool × Vector A
  make_room_for_one v =
      if ltb v.len v.cap
      then (true, v)
      else let want = if v.cap == 0 then 4 else mul32 v.cap 2 in
        if ltb want v.cap then (false, v) else vector_reserve v want

  -- `vector_push` returns the address of the new slot, given here by its index.
  pub vector_push : A → Vector A → Option ℕ × Vector A
  vector_push zero_bytes v =
      let (room, v') = make_room_for_one v in
      if room then (some v'.len, append_at_len v' zero_bytes) else (none, v')

  unfoldable pub vector_push_copy : Vector A → A → Bool × Vector A
  vector_push_copy v item =
      let (room, v') = make_room_for_one v in
      if room then (true, append_at_len v' item) else (false, v')

  unfoldable pub vector_insert : Vector A → ℕ → A → Bool × Vector A
  vector_insert v i item =
      if ltb v.len i
      then (false, v)
      else let (room, v') = make_room_for_one v in
        if room
        then (
          true,
          record v' {
            cells = set (memmove v'.cells (i + 1) i (v'.len - i)) i (some item);
            len = add32 v'.len 1;
          },
        )
        else (false, v')

module _ {ℓ} {A : Type ℓ} where
  -- the element behind the pointer that `vector_at` returns; `none` is NULL
  unfoldable pub vector_at : Vector A → ℕ → Option A
  vector_at v i = if leb v.len i then none else cell v.cells i

  pub vector_last : Vector A → Option A
  unfolding vector_at
  vector_last v = if v.len == 0 then none else vector_at v (v.len - 1)

  unfoldable pub vector_pop : Vector A → Vector A
  vector_pop v = if ltb 0 v.len then record v { len = v.len - 1 } else v

  pub vector_remove : Vector A → ℕ → Vector A
  vector_remove v i =
      if leb v.len i
      then v
      else record v { cells = memmove v.cells i (i + 1) (v.len - i - 1); len = v.len - 1 }

  pub vector_clear : Vector A → Vector A
  vector_clear v = record v { len = 0 }
