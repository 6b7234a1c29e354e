-- ===== src/Deque/Represents.antt =====
-- What a deque holds, and the arithmetic of its slots.
use native.Mathlib.Nat.{pow-le-pow_right}
use ceres_standard_library.Prelude.{
  ℕ, ◌+◌, ◌^◌, ◌<◌, ◌≤◌, ◌≡◌, ◌≢◌, ◌⊎◌, inl, inr, arith, List, length, get_elem?,
}
use ceres_standard_library.Prelude.Cells.{cell}
use ceres_standard_library.Deque.{Deque, slot_of}

-- The capacities that doubling from 4 gives.
abbrev pub IsCapacity : ℕ → Type 0
IsCapacity cap = (cap ≡ 0) ⊎ ((k : ℕ) × (k ≤ 31) × (cap ≡ 2 ^ k))

pub IsCapacity-le : (cap : ℕ) → IsCapacity cap → cap ≤ 0x8000_0000
IsCapacity-le cap (inl zero_cap) = omega arith
IsCapacity-le cap (inr (k, fits, e)) = omega (arith, pow-le-pow_right {n = 2} (omega arith) fits)

pub record IsValid {ℓ} {A : Type ℓ} (d : Deque A) : Type ℓ where
  pub within : d.len ≤ d.cap
  pub head_in : (d.head < d.cap) ⊎ (d.head ≡ 0)
  pub object : length d.cells ≡ d.cap
  pub shape : IsCapacity d.cap
  pub elem_pos : 0 < d.elem

-- The deque holds exactly the elements `xs`, front first.
pub record Holds {ℓ} {A : Type ℓ} (d : Deque A) (xs : List A) : Type ℓ where
  pub valid : IsValid d
  pub size : length xs ≡ d.len
  pub at : (i : ℕ) → i < length xs → cell d.cells (slot_of d i) ≡ get_elem? xs i

module _ {A : Type 0} (d : Deque A) (v : IsValid d) (i : ℕ) (inside : i < d.cap) where
  -- A slot is the index counted from the head, going round at the capacity once.
  pub slot_of-cases :
      ((d.head + i < d.cap) × (slot_of d i ≡ d.head + i))
      ⊎ ((d.cap ≤ d.head + i) × (slot_of d i + d.cap ≡ d.head + i))
  unfolding slot_of
  slot_of-cases = ground (arith, v.head_in, IsCapacity-le d.cap v.shape)

  pub slot_of-lt : slot_of d i < length d.cells
  slot_of-lt = ground (arith, slot_of-cases, v.head_in, v.object)

module _ {A : Type 0} (d : Deque A) (v : IsValid d) where
  pub slot_of-ne : (i j : ℕ) → i < j → j < d.cap → slot_of d i ≢ slot_of d j
  slot_of-ne i j less inside =
      λ e. ground (arith, slot_of-cases d v i (omega arith), slot_of-cases d v j inside)
