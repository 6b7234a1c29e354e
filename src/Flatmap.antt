-- ===== src/Flatmap.antt =====
-- src/ceres/ds/flatmap.c: the map kept as a sorted vector of pairs. A key and its value are one
-- element; where `value_size` is 0 the values have one value, so that copying none is copying it.
-- `none` is a null pointer that the code would read through.
pub mod Order
pub mod Bisect
pub mod Updates
pub mod Refine
pub mod Set
mod Tests
use ceres_standard_library.Prelude.{
  ℕ, zero, suc, ◌+◌, ◌-◌, ◌/◌, Bool, true, false, Option, none, some, set, ltb, ◌==◌, if◌then◌else◌,
  add32, mul32,
}
use ceres_standard_library.Prelude.Int.{ℤ, pos, negsuc}
use ceres_standard_library.Prelude.Cells.{memmove}
use ceres_standard_library.Prelude.Store.{◌>>=◌}
use ceres_standard_library.Vector.{
  Vector, vector_init, vector_free, vector_clear, vector_reserve, vector_at, vector_remove,
}

pub record Flatmap (K V : Type 0) : Type 0 where
  pub pairs : Vector (K × V)
  pub key_size : ℕ
  pub value_size : ℕ

-- how a key lies to another: `c < 0`, `c == 0` or else
pub data Way : Type 0 where
  below same above : Way

abbrev pub way : ℤ → Way
way (pos zero) = same
way (pos (suc n)) = above
way (negsuc n) = below

module _ {K V : Type 0} where
  pub fmap_init : ℕ → ℕ → Flatmap K V
  fmap_init key_size value_size = record {
    pairs = vector_init (add32 key_size value_size);
    key_size = key_size;
    value_size = value_size;
  }

  pub fmap_free : Flatmap K V → Flatmap K V
  fmap_free m = record m { pairs = vector_free m.pairs }

  pub fmap_clear : Flatmap K V → Flatmap K V
  fmap_clear m = record m { pairs = vector_clear m.pairs }

  pub fmap_pair_at : Flatmap K V → ℕ → Option (K × V)
  fmap_pair_at m i = vector_at m.pairs i

module _ {K V : Type 0} where
  -- the growth of a full vector in `fmap_set`
  unfoldable pub grow_pairs : (ℕ → Bool) → Vector (K × V) → Bool × Vector (K × V)
  grow_pairs given v =
      if v.len == v.cap
      then (let want = if v.cap == 0 then 4 else mul32 v.cap 2 in
          if ltb want v.cap then (false, v) else vector_reserve given v want)
      else (true, v)

  -- the pair put in at an index
  unfoldable pub insert_pair : Vector (K × V) → ℕ → K → V → Vector (K × V)
  insert_pair v at key value = record v {
    cells = set (memmove v.cells (at + 1) at (v.len - at)) at (some (key, value));
    len = add32 v.len 1;
  }

  -- the part of `fmap_set` for a key that is not there
  unfoldable pub insert_new : (ℕ → Bool) → Flatmap K V → ℕ → K → V → Bool × Flatmap K V
  unfolding grow_pairs insert_pair
  insert_new given m at key value =
      let (room, pairs) = grow_pairs given m.pairs in
      if room
      then (true, record m { pairs = insert_pair pairs at key value })
      else (false, record m { pairs = pairs })

  -- the value of the pair at an index, whose key stays
  unfoldable pub replace_value : Vector (K × V) → ℕ → V → Option (Vector (K × V))
  replace_value v at value = do
    pair ← vector_at v at
    some (record v { cells = set v.cells at (some (pair.0, value)) })

module _ {K V : Type 0} (cmp : K → K → ℤ) where
  -- the loop of `bisect`: whether the key is there, and `*at`
  unfoldable pub bisect_from : ℕ → Vector (K × V) → K → ℕ → ℕ → Option (Bool × ℕ)
  bisect_from zero pairs key lo hi = none
  bisect_from (suc fuel) pairs key lo hi = elim (ltb lo hi) [
    | false ↦ some (false, lo)
    | true ↦
        let mid = lo + (hi - lo) / 2 in
        do
          pair ← vector_at pairs mid
          elim (way (cmp key pair.0)) [
            | same ↦ some (true, mid)
            | below ↦ bisect_from fuel pairs key lo mid
            | above ↦ bisect_from fuel pairs key (mid + 1) hi
          ]
  ]

  -- a round more than there are pairs
  unfoldable pub bisect : Flatmap K V → K → Option (Bool × ℕ)
  bisect m key = bisect_from (suc m.pairs.len) m.pairs key 0 m.pairs.len

  pub fmap_get : Flatmap K V → K → Option (Option V)
  unfolding bisect
  fmap_get m key = do
    (there, at) ← bisect m key
    elim there [ false ↦ some none | true ↦ do pair ← vector_at m.pairs at; some (some pair.1) ]

  pub fmap_has : Flatmap K V → K → Option Bool
  unfolding bisect
  fmap_has m key = do (there, at) ← bisect m key; some there

  pub fmap_remove : Flatmap K V → K → Option (Bool × Flatmap K V)
  unfolding bisect
  fmap_remove m key = do
    (there, at) ← bisect m key
    some (if there then (true, record m { pairs = vector_remove m.pairs at }) else (false, m))

  -- the status, 0 as `true`, and the map
  pub fmap_set : (ℕ → Bool) → Flatmap K V → K → V → Option (Bool × Flatmap K V)
  unfolding bisect insert_new replace_value
  fmap_set given m key value = do
    (there, at) ← bisect m key
    elim there [
      | true ↦ do pairs ← replace_value m.pairs at value; some (true, record m { pairs = pairs })
      | false ↦ some (insert_new given m at key value)
    ]
