-- ===== src/Heap/Order.antt =====
-- The heap order on an array of elements, given as a function, and the swap of two of its places.
use ceres_standard_library.Prelude.{
  Bool-cases, ℕ, zero, suc, ◌-◌, ◌/◌, ◌<◌, ◌≡◌, ◌≢◌, refl, ap₂, ◌∙◌, arith, inl, inr, Bool, true,
  false, ◌==◌, if◌then◌else◌,
}
use ceres_standard_library.Prelude.{Option, some, List, length}
use ceres_standard_library.Prelude.Store.{◌>>=◌}
use mathlib.Core.Path.{subst}
use ceres_standard_library.Prelude.Int.{ℤ}
use ceres_standard_library.Vector.{Vector}
use ceres_standard_library.Vector.Represents.{Holds}
use ceres_standard_library.Heap.{earlier, swap_elems}
use ceres_standard_library.Heap.Arrays.{
  item, tally, swapped, swap_elems-Holds, tally-swapped, length-swapped,
}

-- what is asked of the comparison
pub record IsRanking {A : Type 0} (cmp : A → A → ℤ) : Type 0 where
  pub asym : (x y : A) → earlier cmp x y ≡ true → earlier cmp y x ≡ false
  pub trans :
      (x y z : A) → earlier cmp x y ≡ false → earlier cmp y z ≡ false → earlier cmp x z ≡ false

abbrev pub parent : ℕ → ℕ
parent c = (c - 1) / 2

-- two places exchanged
abbrev pub Swapped : {A : Type 0} → (ℕ → A) → (ℕ → A) → ℕ → ℕ → Type 0
Swapped f g i j = (k : ℕ) → g k ≡ (if k == j then f i else if k == i then f j else f k)

module _ {A : Type 0} where
  pub at_left : (f g : ℕ → A) (i j : ℕ) → Swapped f g i j → g i ≡ f j
  at_left f g i j s = s i ∙ ground arith

  pub at_right : (f g : ℕ → A) (i j : ℕ) → Swapped f g i j → g j ≡ f i
  at_right f g i j s = s j ∙ ground arith

  pub at_other : (f g : ℕ → A) (i j k : ℕ) → Swapped f g i j → k ≢ i → k ≢ j → g k ≡ f k
  at_other f g i j k s hi hj = s k ∙ ground (arith, hi, hj)

module _ {A : Type 0} (cmp : A → A → ℤ) where
  -- `x` may leave before `y`
  abbrev pub Leq : A → A → Type 0
  Leq x y = earlier cmp y x ≡ false

  -- no element leaves before its parent
  abbrev pub IsHeap : (ℕ → A) → ℕ → Type 0
  IsHeap f n = (c : ℕ) → 0 < c → c < n → Leq (f (parent c)) (f c)

  pub Leq-trans : IsRanking cmp → (x y z : A) → Leq x y → Leq y z → Leq x z
  Leq-trans o x y z h k = o.trans z y x k h

  -- an edge between two elements that were renamed
  pub Leq-at : (a b x y : A) → a ≡ x → b ≡ y → Leq x y → Leq a b
  Leq-at a b x y ea eb h = ap₂ (earlier cmp) eb ea ∙ h

  pub Leq-self : IsRanking cmp → (x : A) → Leq x x
  Leq-self o x = elim (Bool-cases (earlier cmp x x)) [ inl e ↦ o.asym x x e | inr e ↦ e ]

  -- the first element of a heap may leave before every other
  pub root_first :
      (k : ℕ) (f : ℕ → A) (n c : ℕ) → IsRanking cmp → IsHeap f n → c < k → c < n → Leq (f 0) (f c)
  root_first zero f n c o h less inside = absurd (omega arith)
  root_first (suc k) f n zero o h less inside = Leq-self o (f 0)
  root_first (suc k) f n (suc c) o h less inside =
      Leq-trans o (f 0) (f (parent (suc c))) (f (suc c))
        (root_first k f n (parent (suc c)) o h (omega arith) (omega arith))
        (h (suc c) (omega arith) inside)

module _ {A : Type 0} (cmp : A → A → ℤ) (d : A) where
  -- what a sift that starts at the elements `xs` leaves
  pub record Sifted (result : Option (Vector A)) (xs : List A) : Type 0 where
    pub moved : Vector A
    pub elems : List A
    pub returns : result ≡ some moved
    pub holds : Holds moved elems
    pub same : (P : A → Bool) → tally P elems ≡ tally P xs
    pub size : length elems ≡ length xs
    pub heap : IsHeap cmp (item d elems) (length xs)

  pub unmoved :
      {v : Vector A} {xs : List A}
      → Holds v xs
      → IsHeap cmp (item d xs) (length xs)
      → Sifted (some v) xs
  unmoved {v} {xs} h heap = record {
    moved = v;
    elems = xs;
    returns = refl;
    holds = h;
    same = λ P. refl;
    size = refl;
    heap = heap;
  }

  -- a sift after a swap is a sift of the elements before it
  pub after_swap :
      {v : Vector A} {xs : List A} (i j : ℕ) (rest : Vector A → Option (Vector A))
      → Holds v xs
      → i < length xs
      → j < length xs
      → ((v' : Vector A) → Holds v' (swapped d xs i j) → Sifted (rest v') (swapped d xs i j))
      → Sifted (swap_elems v i j >>= rest) xs
  after_swap {v} {xs} i j rest h hi hj go =
      let (v', e, h', same_len) = swap_elems-Holds d i j h hi hj in
      let r = go v' h' in
      record {
        moved = r.moved;
        elems = r.elems;
        returns = rw (e, ◌>>=◌) r.returns;
        holds = r.holds;
        same = λ P. r.same P ∙ tally-swapped d P xs i j hi hj;
        size = r.size ∙ length-swapped d xs i j;
        heap = subst (IsHeap cmp (item d r.elems)) (length-swapped d xs i j) r.heap;
      }
